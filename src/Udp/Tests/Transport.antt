-- ===== src/Udp/Tests/Transport.antt =====
-- Two writes that straddle the end of the sequence space, whose packets arrive in the wrong order,
-- the later one twice, with reads in between.
use tunshell.Prelude.{ℕ, ◌≡◌, refl, inl, inr, List, [], ◌∷◌, ◌++◌, done, ok, arith, Returns, some}
use tunshell.Udp.Packet.{UdpPacket, create, data_packet}
use tunshell.Udp.Receiver.{recv_process_packet}
use tunshell.Udp.Receiver.Delivery.{RecvOp, arrive, read, run_receiver, run_receiver-HasPrefix}
use tunshell.Udp.Receiver.InOrder.{recv_process_packet-next}
use tunshell.Udp.Receiver.Stream.{HasPrefix}
use tunshell.Udp.Sender.{create_data_packet}
use tunshell.Udp.Sender.Stream.{run_sender, transport-HasPrefix, segments_of}
use tunshell.Udp.State.{UdpConnectionVars, ack_update}
use tunshell.Udp.Tests.{sum_hash, end_at, packet_at}

abbrev start : ℕ
start = 4294967293

abbrev writes : List (List ℕ)
writes = (10 ∷ 11 ∷ []) ∷ (12 ∷ []) ∷ []

-- The first packet ends at 0, the second carries one byte from there.
abbrev first_packet : UdpPacket
first_packet = packet_at 4294967294 0 0 0 2 (10 ∷ 11 ∷ [])

abbrev second_packet : UdpPacket
second_packet = packet_at 1 0 0 0 1 (12 ∷ [])

abbrev arrivals : List RecvOp
arrivals = arrive second_packet ∷ read 4 ∷ arrive first_packet ∷ arrive second_packet ∷ read 2 ∷ []

transport-HasPrefix_example :
    Returns
      (λ (out : UdpConnectionVars × List ℕ).
        HasPrefix start (segments_of writes) out.0.ack_number (out.1 ++ out.0.reassembled_buffer))
      (run_receiver (end_at start []) [] arrivals)
unfolding run_sender create_data_packet data_packet create
transport-HasPrefix_example =
    transport-HasPrefix sum_hash (end_at start []) (end_at start []) writes start arrivals
      (omega arith) (omega arith, (omega arith, tt)) refl refl refl refl refl
      (
        inr (inl (record { sequence_number = refl; payload = refl; length = refl })),
        (
          tt,
          (
            inl (record { sequence_number = refl; payload = refl; length = refl }),
            (
              inr (inl (record { sequence_number = refl; payload = refl; length = refl })),
              (tt, tt),
            ),
          ),
        ),
      )

run_receiver-HasPrefix_example :
    Returns
      (λ (out : UdpConnectionVars × List ℕ).
        HasPrefix start (segments_of writes) out.0.ack_number (out.1 ++ out.0.reassembled_buffer))
      (run_receiver (end_at start []) [] (arrive first_packet ∷ read 1 ∷ []))
run_receiver-HasPrefix_example =
    run_receiver-HasPrefix start (segments_of writes) (omega arith) (end_at start [])
      (arrive first_packet ∷ read 1 ∷ []) refl refl refl refl
      (
        record {
          before = [];
          after = (12 ∷ []) ∷ [];
          cut = refl;
          position = refl;
          size = refl;
          fits = omega arith;
        },
        (tt, tt),
      )

recv_process_packet-next_example :
    recv_process_packet (end_at start []) first_packet
    ≡ done (
      record (end_at start []) {
        ack_number = 0;
        reassembled_buffer = 10 ∷ 11 ∷ [];
        recv_wakers = [];
        event_sender = some (ack_update ∷ []);
        woken = 5 ∷ [];
      },
      ok 3,
    )
recv_process_packet-next_example =
    recv_process_packet-next (end_at start []) first_packet []
      (record {
        ack = omega arith;
        next = refl;
        size = refl;
        nonempty = omega arith;
        fits = omega arith;
        window = omega arith;
      })
      refl refl

-- Two bytes in the buffer, and a packet that waits.
abbrev holding : UdpConnectionVars
holding = record (end_at start []) {
  recv_packets = second_packet ∷ [];
  reassembled_buffer = 1 ∷ 2 ∷ [];
}

-- ===== src/Udp/Receiver/Reassemble.antt =====
-- What reassembly delivers: always the bytes of the stream so far, in order, each once.
use tunshell.Prelude.{
  ℕ, ◌+◌, ◌^◌, ◌<◌, ◌≡◌, refl, subst, true, Bool-cases, inl, inr, List, [], ◌∷◌, ◌++◌, Outcome,
  done, Returns, Result, arith, All, All-append, take-All, drop-All, append_assoc, ◌==◌, take, drop,
  ok, ◌>>=◌, Returns->>=, ltb,
}
use tunshell.Udp.Packet.{UdpPacket}
use tunshell.Udp.SeqNumber
use tunshell.Udp.State.{UdpConnectionVars, send_event, wake_recv_tasks, ack_update}
use tunshell.Udp.Receiver.{
  Reassembly, UdpRecvError, reassemble_packet, reassemble_loop, reassembly_of, store_reassembly,
  recv_reassemble_packets, recv_insert_packet, recv_process_packet, insert_position, insert_at,
}
use tunshell.Udp.State.Events.{send_event-Returns}
use tunshell.Udp.State.Machine.{has_channel}
use tunshell.Udp.Receiver.Stream.{Segments, end_position, Carries, HasPrefix, HasPrefix-next}

module _ (base : ℕ) (segments : Segments) (short : end_position base segments < base + 2 ^ 32)
    (taken : List ℕ) where
  -- `taken` is what the reader has had; with the buffer it makes up a prefix of the stream, and
  -- every packet that waits carries some segment.
  pub record Receives (con : UdpConnectionVars) : Type 0 where
    pub delivered : HasPrefix base segments con.ack_number (taken ++ con.reassembled_buffer)
    pub waiting : All (Carries base segments) con.recv_packets
    pub channel : has_channel con ≡ true

  -- A call that returns, and after which that still holds.
  abbrev pub Delivers : {B : Type 0} → Outcome (UdpConnectionVars × B) → Type 0
  Delivers {B} m = Returns {A = UdpConnectionVars × B} (λ out. Receives out.0) m

  reassemble_loop-HasPrefix :
      (packets : List UdpPacket) (r : Reassembly)
      → All (Carries base segments) packets
      → HasPrefix base segments r.ack_number (taken ++ r.reassembled_buffer)
      → let s = reassemble_loop packets r in
        HasPrefix base segments s.ack_number (taken ++ s.reassembled_buffer)
  unfolding reassemble_loop
  reassemble_loop-HasPrefix [] r c h = h
  reassemble_loop-HasPrefix (p ∷ ps) r c h =
      elim (Bool-cases (SeqNumber.add r.ack_number 1 == p.sequence_number)) [
        | inr stop ↦ rw stop h
        | inl go ↦ rw go (
            reassemble_loop-HasPrefix ps (reassemble_packet p r) c.1 (
              subst (HasPrefix base segments _) (append_assoc taken r.reassembled_buffer p.payload)
                (HasPrefix-next base segments short h c.0 (ground arith))))
      ]

  store_reassembly-Receives :
      (con : UdpConnectionVars)
      → Receives con
      → Receives (store_reassembly con (reassemble_loop con.recv_packets (reassembly_of con)))
  store_reassembly-Receives con h = record {
    delivered =
        reassemble_loop-HasPrefix con.recv_packets (reassembly_of con) h.waiting h.delivered;
    waiting = drop-All (Carries base segments) _ con.recv_packets h.waiting;
    channel = h.channel;
  }

  notify-Receives :
      (con : UdpConnectionVars) (n : ℕ)
      → Receives con
      → Delivers (send_event (wake_recv_tasks con) ack_update >>= (λ con'. done (con', n)))
  unfolding wake_recv_tasks
  notify-Receives con n h =
      Returns->>= Receives (λ (out : UdpConnectionVars × ℕ). Receives out.0)
        (send_event (wake_recv_tasks con) ack_update) (λ con'. done (con', n))
        (send_event-Returns Receives (wake_recv_tasks con) ack_update h.channel
          (λ ch. record { delivered = h.delivered; waiting = h.waiting; channel = refl }))
        (λ con' h'. h')

  recv_reassemble_packets-Receives :
      (con : UdpConnectionVars) → Receives con → Delivers (recv_reassemble_packets con)
  unfolding recv_reassemble_packets
  recv_reassemble_packets-Receives con h =
      let stored = store_reassembly-Receives con h in
      elim (Bool-cases
        (ltb 0 (reassemble_loop con.recv_packets (reassembly_of con)).reassembled_bytes)) [
          | inl some_bytes ↦ rw some_bytes (notify-Receives _ _ stored)
          | inr none_new ↦ rw none_new stored
        ]

  insert_at-All :
      (n : ℕ) (p : UdpPacket) (ps : List UdpPacket)
      → Carries base segments p
      → All (Carries base segments) ps
      → All (Carries base segments) (insert_at n p ps)
  insert_at-All n p ps c cs =
      All-append (Carries base segments) (take n ps) (p ∷ drop n ps)
        (take-All (Carries base segments) n ps cs) (c, drop-All (Carries base segments) n ps cs)

  recv_insert_packet-Receives :
      (con : UdpConnectionVars) (p : UdpPacket)
      → Receives con
      → Carries base segments p
      → Delivers (recv_insert_packet con p)
  unfolding recv_insert_packet
  recv_insert_packet-Receives con p h c =
      let at = insert_position p con.recv_packets in
      let con' : UdpConnectionVars = record con {
        recv_packets = insert_at at p con.recv_packets;
      } in
      Returns->>= (λ (out : UdpConnectionVars × ℕ). Receives out.0)
        (λ (out : UdpConnectionVars × Result ℕ UdpRecvError). Receives out.0)
        (recv_reassemble_packets con') (λ out. done (out.0, ok (out.1)))
        (recv_reassemble_packets-Receives con' (record {
          delivered = h.delivered;
          waiting = insert_at-All at p con.recv_packets c h.waiting;
          channel = h.channel;
        }))
        (λ out h'. h')

  -- One packet of the stream, whichever: the receiver does not panic, and what it has delivered is
  -- still a prefix of the stream.
  pub recv_process_packet-Receives :
      (con : UdpConnectionVars) (p : UdpPacket)
      → Receives con
      → Carries base segments p
      → Delivers (recv_process_packet con p)
  unfolding recv_process_packet
  recv_process_packet-Receives con p h c = ground (arith, recv_insert_packet-Receives con p h c)

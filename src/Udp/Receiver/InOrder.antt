-- ===== src/Udp/Receiver/InOrder.antt =====
-- The branches of `recv_process_packet`: the packet that is next, and those that are refused.
use tunshell.Prelude.{
  ◌+◌, ◌/◌, ◌<◌, ◌≡◌, true, false, List, [], ◌∷◌, ◌++◌, some, done, ok, arith, le→not-ltb, lt→ltb,
  ==_refl, ◌==◌, length as list_length, ◌∙◌, ap,
}
use tunshell.Prelude.Words.{u32, IsU32, u32_max}
use tunshell.Udp.Packet.{UdpPacket, end_sequence_number}
use tunshell.Udp.SeqNumber
use tunshell.Udp.SeqNumber.{lt, gt, le, partial_cmp}
use tunshell.Udp.SeqNumber.Order.{le-not-gt, gt-add, gt-add_window}
use tunshell.Udp.State.{UdpConnectionVars, SendEvent, send_event, ack_update, wake_recv_tasks}
use tunshell.Udp.Receiver.{
  recv_process_packet, recv_insert_packet, recv_reassemble_packets, reassemble_loop,
  insert_position, find_overlap, recv_window_start, recv_window_end,
}

-- The packet is the next one and fits the window.
pub record IsNext (con : UdpConnectionVars) (p : UdpPacket) : Type 0 where
  pub ack : IsU32 con.ack_number
  pub next : p.sequence_number ≡ SeqNumber.add con.ack_number 1
  pub size : p.length ≡ list_length p.payload
  pub nonempty : 0 < p.length
  pub fits : p.length < con.config.recv_window
  pub window : con.config.recv_window < u32_max / 2

module _ (con : UdpConnectionVars) (p : UdpPacket) (n : IsNext con p) where
  end_position_next : end_sequence_number p ≡ SeqNumber.add con.ack_number (1 + p.length)
  end_position_next = omega (arith, n.next, n.fits, n.window)

  not_before : le p.sequence_number (recv_window_start con) ≡ false
  not_before = rw (
    n.next,
    le-not-gt (SeqNumber.add con.ack_number 1) con.ack_number,
    gt-add con.ack_number 1 n.ack (omega arith) (omega arith),
  )

  not_after : gt (end_sequence_number p) (recv_window_end con) ≡ false
  not_after = rw (end_position_next) (
      gt-add_window con.ack_number (1 + p.length) con.config.recv_window n.ack
        (omega (arith, n.fits, n.window)) n.window
      ∙ le→not-ltb con.config.recv_window (1 + p.length) (omega (arith, n.fits)))

  next_eq : (SeqNumber.add con.ack_number 1 == p.sequence_number) ≡ true
  next_eq = rw (n.next) (==_refl (SeqNumber.add con.ack_number 1))

  advanced : u32 (0 + u32 (1 + u32 (list_length p.payload))) ≡ list_length p.payload + 1
  advanced = omega (arith, n.size, n.fits, n.window)

  abbrev after_next : List SendEvent → UdpConnectionVars
  after_next channel = record con {
    ack_number = end_sequence_number p;
    recv_packets = [];
    reassembled_buffer = con.reassembled_buffer ++ p.payload;
    recv_wakers = [];
    event_sender = some (channel ++ (ack_update ∷ []));
    woken = con.woken ++ con.recv_wakers;
  }

  recv_insert_packet-next :
      (channel : List SendEvent)
      → con.recv_packets ≡ []
      → con.event_sender ≡ some channel
      → recv_insert_packet con p ≡ done (after_next channel, ok (list_length p.payload + 1))
  unfolding recv_insert_packet recv_reassemble_packets reassemble_loop insert_position send_event
      wake_recv_tasks
  recv_insert_packet-next channel empty ch =
      rw
        (
          empty,
          ch,
          next_eq,
          lt→ltb 0 (0 + list_length p.payload) (omega (arith, n.size, n.nonempty)),
        )
        (ap (λ k. done (after_next channel, ok k)) advanced)

-- Where nothing is waiting and the connection has its channel, the next packet, if it is not empty
-- and fits a window below u32::MAX / 2, is delivered at once: its payload is appended, its bytes
-- and its own number are acknowledged, the waiting readers are woken and the sender is told.
pub recv_process_packet-next :
    (con : UdpConnectionVars) (p : UdpPacket) (channel : List SendEvent)
    → IsNext con p
    → con.recv_packets ≡ []
    → con.event_sender ≡ some channel
    → recv_process_packet con p
      ≡ done (
        record con {
          ack_number = end_sequence_number p;
          recv_packets = [];
          reassembled_buffer = con.reassembled_buffer ++ p.payload;
          recv_wakers = [];
          event_sender = some (channel ++ (ack_update ∷ []));
          woken = con.woken ++ con.recv_wakers;
        },
        ok (list_length p.payload + 1),
      )
unfolding recv_process_packet find_overlap
recv_process_packet-next con p channel n empty ch =
    ground (
      arith,
      not_before con p n,
      not_after con p n,
      recv_insert_packet-next con p n channel empty ch,
    )

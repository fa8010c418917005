-- ===== src/Udp/Congestion.antt =====
-- congestion.rs: what may be sent, and the transit window. `u32` arithmetic wraps where a release
-- build's does; a division by zero panics.
pub mod Bounds
pub mod Waiters
use tunshell.Prelude.{
  Waker, ℕ, ◌+◌, ◌*◌, ◌/◌, ◌%◌, ◌^◌, Bool, true, false, List, [], ◌∷◌, ◌++◌, map, keep_if, not,
  Outcome, done, panic, min, max, ltb, ◌==◌, if◌then◌else◌, Poll, ready, pending,
}
use tunshell.Prelude.Words.{u32}
use tunshell.Udp.Packet.{UdpPacket, UdpPacketType, close_type, end_sequence_number, max_packet_size}
use tunshell.Udp.SeqNumber
use tunshell.Udp.SeqNumber.{SequenceNumber}
use tunshell.Udp.State.{UdpConnectionVars}

abbrev pub max_send_sequence_number : UdpConnectionVars → SequenceNumber
max_send_sequence_number con =
    SeqNumber.add con.peer_ack_number (min con.peer_window con.transit_window)

abbrev pub can_send_sequence_number : UdpConnectionVars → SequenceNumber → Bool
can_send_sequence_number con sequence_number =
    SeqNumber.lt sequence_number (max_send_sequence_number con)

abbrev is_close : UdpPacketType → Bool
is_close close_type = true
is_close _ = false

unfoldable pub poll_can_send :
    UdpConnectionVars → Waker → UdpPacket → UdpConnectionVars × Poll (Unit {0})
poll_can_send con waker packet =
    if is_close packet.packet_type
    then (con, ready tt)
    else if not (can_send_sequence_number con (end_sequence_number packet))
    then (
      record con {
        window_wakers = con.window_wakers ++ ((waker, end_sequence_number packet) ∷ []);
      },
      pending,
    )
    else (con, ready tt)

unfoldable pub is_congested : UdpConnectionVars → Bool
is_congested con = SeqNumber.ge con.sequence_number (max_send_sequence_number con)

abbrev pub wait_until_decongested : UdpConnectionVars → Waker → UdpConnectionVars
wait_until_decongested con waker = record con {
  window_wakers = con.window_wakers ++ ((waker, SeqNumber.add con.sequence_number 1) ∷ []);
}

unfoldable pub increase_transit_window_after_send : UdpConnectionVars → Outcome UdpConnectionVars
increase_transit_window_after_send con =
    let packets_per_window = con.transit_window / max_packet_size in
    if packets_per_window == 0
    then panic
    else done (record con {
      transit_window = u32 (con.transit_window + max_packet_size / packets_per_window);
    })

unfoldable pub decrease_transit_window_after_drop : UdpConnectionVars → UdpConnectionVars
decrease_transit_window_after_drop con = record con {
  transit_window = max max_packet_size (u32 (con.transit_window * 3) / 4);
}

-- The test that `partition` makes of each waiter.
abbrev pub is_ready : UdpConnectionVars → Waker × SequenceNumber → Bool
is_ready con w = SeqNumber.lt (w.1) (max_send_sequence_number con)

unfoldable pub wake_pending_send_events : UdpConnectionVars → UdpConnectionVars
wake_pending_send_events con =
    let ready_wakers = keep_if (is_ready con) con.window_wakers in
    let pending_wakers = keep_if (λ w. not (is_ready con w)) con.window_wakers in
    record con { window_wakers = pending_wakers; woken = con.woken ++ map (λ w. w.0) ready_wakers }

unfoldable pub update_peer_window : UdpConnectionVars → ℕ → UdpConnectionVars
unfolding wake_pending_send_events
update_peer_window con window =
    let con' = record con { peer_window = window } in
    if ltb con.peer_window con'.peer_window then wake_pending_send_events con' else con'

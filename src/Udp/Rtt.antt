-- ===== src/Udp/Rtt.antt =====
-- rtt_estimator.rs: the estimate of the round trip time. The current time is an argument; where the
-- clock has gone back, `duration_since` gives 0.
use tunshell.Prelude.{◌+◌, ◌-◌, ◌/◌, ◌%◌, ◌^◌, none, some, ◌==◌, if◌then◌else◌}
use tunshell.Prelude.Maps.{lookup, insert, retain}
use tunshell.Udp.Config.{Duration}
use tunshell.Udp.Packet.{UdpPacket, end_sequence_number}
use tunshell.Udp.SeqNumber
use tunshell.Udp.State.{UdpConnectionVars, Instant}

unfoldable pub store_send_time_of_packet :
    UdpConnectionVars → UdpPacket → Instant → UdpConnectionVars
store_send_time_of_packet con sent_packet now = record con {
  send_times = insert (end_sequence_number sent_packet) now con.send_times;
}

-- `Duration::from_nanos` takes a `u64`.
abbrev pub average_rtt : Duration → Duration → Duration
average_rtt estimate measurement =
    if estimate == 0 then measurement else (estimate + measurement) / 2 % 2 ^ 64

unfoldable pub adjust_rtt_estimate : UdpConnectionVars → UdpPacket → Instant → UdpConnectionVars
adjust_rtt_estimate con recv_packet now = elim (lookup recv_packet.ack_number con.send_times) [
  | none ↦ con
  | some sent_at ↦ record con {
    rtt_estimate = average_rtt con.rtt_estimate (now - sent_at);
    send_times = retain (λ k. SeqNumber.gt k recv_packet.ack_number) con.send_times;
  }
]

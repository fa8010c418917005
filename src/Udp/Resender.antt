-- ===== src/Udp/Resender.antt =====
-- resender.rs: acknowledgement of sent packets, and the task that resends a lost one.
pub mod Acks
use tunshell.Prelude.{
  ℕ, ◌+◌, ◌*◌, ◌%◌, ◌^◌, Bool, not, Option, none, some, List, [], ◌∷◌, ◌++◌, Outcome, done, panic,
  ◌>>=◌, max, ltb, leb, ◌==◌, if◌then◌else◌, length, unwrap,
}
use tunshell.Prelude.Maps.{lookup, insert, remove, retain}
use tunshell.Prelude.Crates.{XxHash}
use tunshell.Udp.Config.{Duration, from_millis}
use tunshell.Udp.Congestion.{wake_pending_send_events, decrease_transit_window_after_drop}
use tunshell.Udp.Packet.{UdpPacket, calculate_checksum}
use tunshell.Udp.Receiver.{calculate_recv_window}
use tunshell.Udp.SeqNumber
use tunshell.Udp.SeqNumber.{SequenceNumber}
use tunshell.Udp.State.{UdpConnectionVars, send_event, is_connected, resend, close}

unfoldable pub clear_acknowledged_packets : UdpConnectionVars → UdpConnectionVars
clear_acknowledged_packets con = record con {
  sent_packets = retain (λ k. SeqNumber.gt k con.peer_ack_number) con.sent_packets;
}

unfoldable pub update_peer_ack_number : UdpConnectionVars → SequenceNumber → UdpConnectionVars
unfolding clear_acknowledged_packets
update_peer_ack_number con ack_number =
    if SeqNumber.gt ack_number con.peer_ack_number
    then wake_pending_send_events
        (clear_acknowledged_packets (record con { peer_ack_number = ack_number }))
    else con

abbrev pub normalised_rtt_estimate : UdpConnectionVars → Duration
normalised_rtt_estimate con = max (from_millis 100) con.rtt_estimate

-- What `schedule_resend_if_dropped` hands to the task that it spawns.
pub record ResendTask : Type 0 where
  pub packet_key : SequenceNumber
  pub resend_count : ℕ
  pub rtt_estimate : Duration
  pub position_delay : Duration

-- `schedule_resend_if_dropped`, up to the task.
unfoldable pub schedule_resend : UdpConnectionVars → UdpPacket → UdpConnectionVars × ResendTask
schedule_resend con sent_packet =
    let packet_key = sent_packet.sequence_number in
    let con' = record con { sent_packets = insert packet_key sent_packet con.sent_packets } in
    (
      con',
      record {
        packet_key = packet_key;
        resend_count = sent_packet.resend_count;
        rtt_estimate = normalised_rtt_estimate con';
        position_delay = from_millis (length con'.sent_packets);
      },
    )

-- The delay before each look at the packet.
abbrev pub resend_delay : ResendTask → Duration
resend_delay t = t.rtt_estimate * 2 * (t.resend_count + 1) + t.position_delay

-- What a look ends with: the task is over, it waits again, or it has taken the packet out.
pub data Look : Type 0 where
  over again : Look
  taken : Option UdpPacket → Look

-- One round of the task's loop, from the lock to the end of the round.
unfoldable pub look_at_packet : UdpConnectionVars → ResendTask → Outcome (UdpConnectionVars × Look)
look_at_packet con t =
    if not (is_connected con)
    then done (con, over)
    else elim (lookup t.packet_key con.sent_packets) [
      | none ↦ done (con, over)
      | some _ ↦
          if SeqNumber.add con.peer_ack_number 1 == t.packet_key
          then (do
            channel ← unwrap con.event_sender
            done (
              record con { sent_packets = remove t.packet_key con.sent_packets },
              taken (lookup t.packet_key con.sent_packets),
            ))
          else done (con, again)
    ]

module _ (xx : XxHash) where
  unfoldable pub update_resending_packet : UdpConnectionVars → UdpPacket → UdpPacket
  update_resending_packet con packet =
      let packet' : UdpPacket = record packet {
        ack_number = con.ack_number;
        window = calculate_recv_window con;
      } in
      record packet' { checksum = calculate_checksum xx packet' }

  -- `packet.resend_count += 1` is on a `u8`.
  unfoldable pub resend_packet : UdpConnectionVars → UdpPacket → Outcome UdpConnectionVars
  resend_packet con packet =
      let packet' : UdpPacket = record packet {
        resend_count = (packet.resend_count + 1) % 2 ^ 8;
      } in
      if leb con.config.packet_resend_limit packet'.resend_count
      then send_event con close
      else send_event (decrease_transit_window_after_drop con)
          (resend (update_resending_packet con packet'))

  -- What follows the loop.
  unfoldable pub after_look : UdpConnectionVars × Look → Outcome UdpConnectionVars
  after_look (con, over) = done con
  after_look (con, again) = done con
  after_look (con, taken none) = done con
  after_look (con, taken (some packet)) = resend_packet con packet

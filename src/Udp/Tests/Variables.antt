-- ===== src/Udp/Tests/Variables.antt =====
-- The variables of a sender with two packets on the way, and of a connection that comes up.
use tunshell.Prelude.{
  ◌+◌, ◌≡◌, ◌<◌, ◌≤◌, ◌⊎◌, refl, true, false, some, [], ◌∷◌, done, arith, Returns, panics,
}
use tunshell.Prelude.Maps.{lookup}
use tunshell.Udp.Config.{default_config}
use tunshell.Udp.Congestion.{is_congested, can_send_sequence_number, wake_pending_send_events}
use tunshell.Udp.Congestion.Bounds.{
  sent, dropped, InRange, run_changes, run_changes-InRange, is_congested_lem,
}
use tunshell.Udp.Congestion.Waiters.{wake_pending_send_events_lem}
use tunshell.Udp.Packet.{UdpPacket}
use tunshell.Udp.Resender.{ResendTask, update_peer_ack_number, resend_packet}
use tunshell.Udp.Resender.Acks.{IsResent, update_peer_ack_number_lem, resend_packet_lem}
use tunshell.Udp.State.{
  UdpConnectionVars, new_vars, send_event, ack_update, resend, close, sent_hello, sent_sync,
  connected, set_state_sent_hello, set_state_sent_sync, set_state_connected,
}
use tunshell.Udp.State.Machine.{here, next, hello, sync, connect, send_event-Reach}
use tunshell.Udp.Tests.{sum_hash, end_at, packet_at}

run_changes-InRange_example :
    Returns InRange (run_changes (end_at 0 []) (sent ∷ dropped ∷ dropped ∷ sent ∷ []))
run_changes-InRange_example =
    run_changes-InRange (end_at 0 []) (sent ∷ dropped ∷ dropped ∷ sent ∷ [])
      (omega arith, omega arith)

abbrev first_packet : UdpPacket
first_packet = packet_at 4294967294 0 0 0 2 (10 ∷ 11 ∷ [])

abbrev second_packet : UdpPacket
second_packet = packet_at 1 0 0 0 1 (12 ∷ [])

-- Both packets have been sent, two tasks wait for the window.
abbrev sender : UdpConnectionVars
sender = record (end_at 4294967293 []) {
  sequence_number = 2;
  sent_packets = (4294967294, first_packet) ∷ (1, second_packet) ∷ [];
  window_wakers = (7, 3) ∷ (8, 200000) ∷ [];
}

is_congested_lem_example :
    (is_congested sender ≡ false) × (can_send_sequence_number sender 3 ≡ true)
is_congested_lem_example =
    is_congested_lem sender 5 1
      (record { ack = omega arith; sequence = refl; short = omega arith; window = omega arith })
      (omega arith)

wake_pending_send_events_lem_example :
    wake_pending_send_events sender
    ≡ record sender { window_wakers = (8, 200000) ∷ []; woken = 7 ∷ [] }
wake_pending_send_events_lem_example =
    wake_pending_send_events_lem sender ((7, 6) ∷ (8, 200003) ∷ []) (omega arith) refl
      (omega arith, (omega arith, tt)) (omega arith)

update_peer_ack_number_lem_example :
    let d = update_peer_ack_number sender 0 in
    (d.peer_ack_number ≡ 0) × (lookup 1 d.sent_packets ≡ some second_packet)
unfolding lookup
update_peer_ack_number_lem_example =
    update_peer_ack_number_lem sender 3 4 (omega arith) (omega arith) (omega arith)

resend_packet_lem_example :
    ((first_packet.resend_count + 1 < 10)
      × ((again : UdpPacket) × IsResent sum_hash sender first_packet again
          × (resend_packet sum_hash sender first_packet
              ≡ done (record sender {
                transit_window = 76800;
                event_sender = some (resend again ∷ []);
              }))))
    ⊎ ((10 ≤ first_packet.resend_count + 1)
        × (resend_packet sum_hash sender first_packet
            ≡ done (record sender { event_sender = some (close ∷ []) })))
resend_packet_lem_example =
    resend_packet_lem sum_hash sender first_packet [] refl (omega arith) (omega arith)

abbrev first_task : ResendTask
first_task = record {
  packet_key = 4294967294;
  resend_count = 0;
  rtt_estimate = 0;
  position_delay = 0;
}

abbrev fresh : UdpConnectionVars
fresh = new_vars default_config

abbrev greeted : UdpConnectionVars
greeted = record fresh { state = sent_hello }

abbrev synced : UdpConnectionVars
synced = record fresh { state = sent_sync }

abbrev up : UdpConnectionVars
up = record fresh { state = connected; event_sender = some [] }

send_event-Reach_example : panics (send_event up ack_update) ≡ false
unfolding set_state_sent_hello set_state_sent_sync set_state_connected
send_event-Reach_example = send_event-Reach default_config ack_update {d = up} (
    next {d = synced} (next {d = greeted} (next {d = fresh} here (hello refl)) (sync refl))
      (connect [] refl))

-- ===== src/Udp/Orchestrator/Channel.antt =====
-- The rounds of the receive loop return, and the connection keeps its channel.
use tunshell.Prelude.{
  ℕ, ◌≡◌, refl, Bool, true, false, Bool-cases, inl, inr, List, Outcome, done, ◌>>=◌, Returns,
  Returns->>=, Result, ok, err, arith, ltb, Outcome-cases,
}
use tunshell.Prelude.Crates.{ByteOrder, XxHash}
use tunshell.Udp.Congestion.{update_peer_window, wake_pending_send_events}
use tunshell.Udp.Packet.{UdpPacket, UdpPacketType, parse, data_type, close_type, open_type}
use tunshell.Udp.Packet.Decode.{parse-ne-panic}
use tunshell.Udp.Receiver.{
  UdpRecvError, recv_process_packet, recv_insert_packet, recv_reassemble_packets, reassemble_loop,
  reassembly_of, store_reassembly, insert_position, insert_at,
}
use tunshell.Udp.Resender.{update_peer_ack_number}
use tunshell.Udp.Rtt.{adjust_rtt_estimate}
use tunshell.Udp.State.{
  UdpConnectionVars, Instant, is_connected, send_event, ack_update, wake_recv_tasks,
  try_set_state_disconnected,
}
use tunshell.Udp.State.Events.{send_event-Returns}
use tunshell.Udp.State.Machine.{has_channel}
use tunshell.Udp.Orchestrator.{
  after_recv, handle_recv_event, timed_out, LoopError, close_received, RecvEvent, Round, round_of,
  datagram, read_failed, recv_timed_out, recv_terminated, try_disconnect, handle_data_packet,
  handle_valid_packet, handle_recv_packet, handle_recv_timeout, recv_round,
}

-- A call that returns and leaves the connection with its channel.
abbrev pub KeepsChannel : {B : Type 0} → Outcome (UdpConnectionVars × B) → Type 0
KeepsChannel {B} m = Returns {A = UdpConnectionVars × B} (λ out. has_channel out.0 ≡ true) m

notify_lem :
    (con : UdpConnectionVars) (n : ℕ)
    → has_channel con ≡ true
    → KeepsChannel (send_event (wake_recv_tasks con) ack_update >>= (λ con'. done (con', n)))
unfolding wake_recv_tasks
notify_lem con n h =
    Returns->>= (λ c. has_channel c ≡ true)
      (λ (out : UdpConnectionVars × ℕ). has_channel out.0 ≡ true)
      (send_event (wake_recv_tasks con) ack_update) (λ con'. done (con', n))
      (send_event-Returns (λ c. has_channel c ≡ true) (wake_recv_tasks con) ack_update h
        (λ ch. refl))
      (λ c hc. hc)

recv_reassemble_packets_lem :
    (con : UdpConnectionVars) → has_channel con ≡ true → KeepsChannel (recv_reassemble_packets con)
unfolding recv_reassemble_packets
recv_reassemble_packets_lem con h =
    elim (Bool-cases
      (ltb 0 (reassemble_loop con.recv_packets (reassembly_of con)).reassembled_bytes)) [
        | inl some_bytes ↦ rw some_bytes (
            notify_lem (store_reassembly con (reassemble_loop con.recv_packets (reassembly_of con)))
              _ h)
        | inr none_new ↦ rw none_new h
      ]

recv_insert_packet_lem :
    (con : UdpConnectionVars) (p : UdpPacket)
    → has_channel con ≡ true
    → KeepsChannel (recv_insert_packet con p)
unfolding recv_insert_packet
recv_insert_packet_lem con p h =
    let con' : UdpConnectionVars = record con {
      recv_packets = insert_at (insert_position p con.recv_packets) p con.recv_packets;
    } in
    Returns->>= (λ (out : UdpConnectionVars × ℕ). has_channel out.0 ≡ true)
      (λ (out : UdpConnectionVars × Result ℕ UdpRecvError). has_channel out.0 ≡ true)
      (recv_reassemble_packets con') (λ out. done (out.0, ok out.1))
      (recv_reassemble_packets_lem con' h) (λ out h'. h')

recv_process_packet_lem :
    (con : UdpConnectionVars) (p : UdpPacket)
    → has_channel con ≡ true
    → KeepsChannel (recv_process_packet con p)
unfolding recv_process_packet
recv_process_packet_lem con p h = ground (arith, recv_insert_packet_lem con p h)

event_sender-update :
    (con : UdpConnectionVars) (p : UdpPacket) (now : Instant)
    → (adjust_rtt_estimate
        (update_peer_window (update_peer_ack_number con p.ack_number) p.window)
        p
        now).event_sender
      ≡ con.event_sender
unfolding adjust_rtt_estimate update_peer_window update_peer_ack_number wake_pending_send_events
event_sender-update con p now = ground arith

try_disconnect_lem :
    (lock : Bool) (con : UdpConnectionVars)
    → Returns (λ c. c.event_sender ≡ con.event_sender) (try_disconnect lock con)
unfolding try_disconnect try_set_state_disconnected wake_recv_tasks
try_disconnect_lem true con = ground arith
try_disconnect_lem false con = refl

has_channel_of :
    (a b : UdpConnectionVars)
    → a.event_sender ≡ b.event_sender
    → has_channel b ≡ true
    → has_channel a ≡ true
has_channel_of a b e h = ground arith

try_disconnect-KeepsChannel :
    {B : Type 0} (lock : Bool) (con : UdpConnectionVars) (b : B)
    → has_channel con ≡ true
    → KeepsChannel (try_disconnect lock con >>= (λ c. done (c, b)))
try_disconnect-KeepsChannel {B} lock con b h =
    Returns->>= (λ c. c.event_sender ≡ con.event_sender)
      (λ (out : UdpConnectionVars × B). has_channel out.0 ≡ true) (try_disconnect lock con)
      (λ c. done (c, b)) (try_disconnect_lem lock con) (λ c e. has_channel_of c con e h)

after_recv_lem :
    (now : Instant) (p : UdpPacket) (out : UdpConnectionVars × Result ℕ UdpRecvError)
    → has_channel out.0 ≡ true
    → KeepsChannel (after_recv now p out)
unfolding after_recv
after_recv_lem now p (con, ok n) h =
    has_channel_of
      (adjust_rtt_estimate (update_peer_window (update_peer_ack_number con p.ack_number) p.window) p
        now)
      con (event_sender-update con p now) h
after_recv_lem now p (con, err e) h = h

handle_data_packet_lem :
    (now : Instant) (con : UdpConnectionVars) (p : UdpPacket)
    → has_channel con ≡ true
    → KeepsChannel (handle_data_packet now con p)
unfolding handle_data_packet
handle_data_packet_lem now con p h =
    Returns->>= (λ (out : UdpConnectionVars × Result ℕ UdpRecvError). has_channel out.0 ≡ true)
      (λ (out : UdpConnectionVars × Result (Unit {0}) LoopError). has_channel out.0 ≡ true)
      (recv_process_packet con p) (after_recv now p) (recv_process_packet_lem con p h)
      (after_recv_lem now p)

handle_valid_packet_lem :
    (t : UdpPacketType) (lock : Bool) (now : Instant) (con : UdpConnectionVars) (p : UdpPacket)
    → has_channel con ≡ true
    → KeepsChannel (handle_valid_packet t lock now con p)
unfolding handle_valid_packet
handle_valid_packet_lem data_type lock now con p h = handle_data_packet_lem now con p h
handle_valid_packet_lem close_type lock now con p h =
    try_disconnect-KeepsChannel lock con (err close_received) h
handle_valid_packet_lem open_type lock now con p h = h

module _ (bo : ByteOrder) (xx : XxHash) where
  handle_recv_packet_lem :
      (lock : Bool) (now : Instant) (con : UdpConnectionVars) (bytes : List ℕ)
      → has_channel con ≡ true
      → KeepsChannel (handle_recv_packet bo xx lock now con bytes)
  unfolding handle_recv_packet
  handle_recv_packet_lem lock now con bytes h = elim (Outcome-cases (parse bo bytes)) [
    | inr e ↦ absurd (parse-ne-panic bo bytes e)
    | inl (ok p, e) ↦ rw e (ground (arith, handle_valid_packet_lem p.packet_type lock now con p h))
    | inl (err x, e) ↦ rw e h
  ]

  handle_recv_event_lem :
      (lock : Bool) (now : Instant) (con : UdpConnectionVars) (event : RecvEvent)
      → has_channel con ≡ true
      → KeepsChannel (handle_recv_event bo xx lock now con event)
  unfolding handle_recv_event
  handle_recv_event_lem lock now con (datagram bytes) h =
      Returns->>=
        (λ (out : UdpConnectionVars × Result (Unit {0}) LoopError). has_channel out.0 ≡ true)
        (λ (out : UdpConnectionVars × Round). has_channel out.0 ≡ true)
        (handle_recv_packet bo xx lock now con bytes) (λ out. done (out.0, round_of out.1))
        (handle_recv_packet_lem lock now con bytes h) (λ out h'. h')
  handle_recv_event_lem lock now con read_failed h = h
  handle_recv_event_lem lock now con recv_timed_out h =
      Returns->>=
        (λ (out : UdpConnectionVars × Result (Unit {0}) LoopError). has_channel out.0 ≡ true)
        (λ (out : UdpConnectionVars × Round). has_channel out.0 ≡ true)
        (handle_recv_timeout bo xx lock con) (λ out. done (out.0, round_of out.1))
        (unfold handle_recv_timeout in try_disconnect-KeepsChannel lock con (err timed_out) h)
        (λ out h'. h')
  handle_recv_event_lem lock now con recv_terminated h = h

  pub recv_round_lem :
      (lock : Bool) (now : Instant) (con : UdpConnectionVars) (event : RecvEvent)
      → has_channel con ≡ true
      → KeepsChannel (recv_round bo xx lock now con event)
  unfolding recv_round
  recv_round_lem lock now con event h = elim (Bool-cases (is_connected con)) [
    | inl up ↦ rw up (handle_recv_event_lem lock now con event h)
    | inr down ↦ rw down h
  ]

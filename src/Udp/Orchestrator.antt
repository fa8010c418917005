-- ===== src/Udp/Orchestrator.antt =====
-- orchestrator.rs: the handlers of the receive loop and of the send loop, and one round of each.
-- What the socket, the timers and the lock do is an argument; the current time is one too.
pub mod Channel
pub mod Safety
use tunshell.Prelude.{
  ℕ, ◌<◌, Bool, true, false, not, List, [], ◌∷◌, Outcome, done, panic, ◌>>=◌, Result, ok, err, ltb,
  if◌then◌else◌, length,
}
use tunshell.Prelude.Crates.{ByteOrder, XxHash}
use tunshell.Udp.Congestion.{increase_transit_window_after_send, update_peer_window}
use tunshell.Udp.Packet.{
  UdpPacket, UdpPacketType, open_type, data_type, close_type, parse, to_vec, is_checksum_valid,
}
use tunshell.Udp.Receiver.{UdpRecvError, recv_process_packet}
use tunshell.Udp.Resender.{ResendTask, update_peer_ack_number, schedule_resend}
use tunshell.Udp.Rtt.{store_send_time_of_packet, adjust_rtt_estimate}
use tunshell.Udp.Sender.{create_data_packet}
use tunshell.Udp.State.{
  UdpConnectionVars, Instant, is_connected, try_set_state_disconnected, wake_recv_tasks,
}

-- The errors that end a loop.
pub data LoopError : Type 0 where
  socket_error close_received unexpected_type timed_out channel_dropped : LoopError

-- A handler's effect on the connection, with what it returns.
abbrev pub Handled : Type 0
Handled = Outcome (UdpConnectionVars × Result (Unit {0}) LoopError)

-- `try_disconnect`: where the lock is held by another task, nothing happens.
unfoldable pub try_disconnect : Bool → UdpConnectionVars → Outcome UdpConnectionVars
try_disconnect true con = do con' ← try_set_state_disconnected con; done (wake_recv_tasks con')
try_disconnect false con = done con

-- What `handle_recv_packet` does once `recv_process_packet` has returned.
unfoldable pub after_recv :
    Instant → UdpPacket → UdpConnectionVars × Result ℕ UdpRecvError → Handled
after_recv now packet (con, ok _) = done (
  adjust_rtt_estimate
      (update_peer_window (update_peer_ack_number con packet.ack_number) packet.window) packet now,
  ok tt,
)
after_recv now packet (con, err _) = done (con, ok tt)

unfoldable pub handle_data_packet : Instant → UdpConnectionVars → UdpPacket → Handled
handle_data_packet now con packet = recv_process_packet con packet >>= after_recv now packet

-- Its dispatch on the type of a packet that was read and whose checksum holds.
unfoldable pub handle_valid_packet :
    UdpPacketType → Bool → Instant → UdpConnectionVars → UdpPacket → Handled
handle_valid_packet data_type lock now con packet = handle_data_packet now con packet
handle_valid_packet close_type lock now con packet = do
  con' ← try_disconnect lock con
  done (con', err close_received)
handle_valid_packet open_type lock now con packet = done (con, err unexpected_type)

-- What the receive loop's `select!` finds: a datagram, a failed read, the timeout, or that the send
-- loop has ended.
pub data RecvEvent : Type 0 where
  datagram : List ℕ → RecvEvent
  read_failed recv_timed_out recv_terminated : RecvEvent

-- A round of a loop: the loop goes on, or it breaks.
pub data Round : Type 0 where
  goes_on breaks : Round

abbrev pub round_of : Result (Unit {0}) LoopError → Round
round_of (ok _) = goes_on
round_of (err _) = breaks

-- A packet that carries data leaves a task that watches it.
unfoldable pub watch_packet :
    UdpConnectionVars
    → UdpPacket
    → UdpConnectionVars × List ResendTask × Result (Unit {0}) LoopError
watch_packet con packet =
    if ltb 0 (length packet.payload)
    then (let (con', task) = schedule_resend con packet in (con', task ∷ [], ok tt))
    else (con, [], ok tt)

-- After a round: the further rounds, or `try_disconnect` where the loop was left.
unfoldable pub after_round :
    Bool
    → UdpConnectionVars × Round
    → Outcome (UdpConnectionVars × Round)
    → Outcome (UdpConnectionVars × Round)
after_round lock (con, goes_on) rest = rest
after_round lock (con, breaks) rest = do con' ← try_disconnect lock con; done (con', breaks)

module _ (bo : ByteOrder) (xx : XxHash) where
  unfoldable pub handle_recv_packet : Bool → Instant → UdpConnectionVars → List ℕ → Handled
  handle_recv_packet lock now con bytes = do
    result ← parse bo bytes
    elim result [
      | err _ ↦ done (con, ok tt)
      | ok packet ↦
          if not (is_checksum_valid xx packet)
          then done (con, ok tt)
          else handle_valid_packet packet.packet_type lock now con packet
    ]

  unfoldable pub handle_recv_timeout : Bool → UdpConnectionVars → Handled
  handle_recv_timeout lock con = do con' ← try_disconnect lock con; done (con', err timed_out)

  -- `handle_send_packet`; `sent` is whether the socket took the datagram.
  unfoldable pub handle_send_packet :
      Bool
      → Bool
      → Instant
      → UdpConnectionVars
      → UdpPacket
      → Outcome (UdpConnectionVars × List ResendTask × Result (Unit {0}) LoopError)
  handle_send_packet sent lock now con packet =
      if not sent then done (con, [], err socket_error) else elim packet.packet_type [
        | data_type ↦ (do
          con' ← increase_transit_window_after_send (store_send_time_of_packet con packet now)
          done (watch_packet con' packet))
        | close_type ↦ (do con' ← try_disconnect lock con; done (con', [], ok tt))
        | open_type ↦ panic
      ]

  unfoldable pub handle_keep_alive :
      Bool
      → Bool
      → Instant
      → UdpConnectionVars
      → Outcome (UdpConnectionVars × List ResendTask × Result (Unit {0}) LoopError)
  handle_keep_alive sent lock now con =
      let (con', packet) = create_data_packet xx con [] in
      handle_send_packet sent lock now con' packet

  -- The branches of the `select!` of `RecvLoop::start`, and the `break` on an error.
  unfoldable pub handle_recv_event :
      Bool → Instant → UdpConnectionVars → RecvEvent → Outcome (UdpConnectionVars × Round)
  handle_recv_event lock now con (datagram bytes) = do
    (con', result) ← handle_recv_packet lock now con bytes
    done (con', round_of result)
  handle_recv_event lock now con read_failed = done (con, breaks)
  handle_recv_event lock now con recv_timed_out = do
    (con', result) ← handle_recv_timeout lock con
    done (con', round_of result)
  handle_recv_event lock now con recv_terminated = done (con, breaks)

  -- One round of `RecvLoop::start`, from the test of the `while`.
  unfoldable pub recv_round :
      Bool → Instant → UdpConnectionVars → RecvEvent → Outcome (UdpConnectionVars × Round)
  recv_round lock now con event =
      if not (is_connected con) then done (con, breaks) else handle_recv_event lock now con event

  -- `RecvLoop::start`: rounds until one breaks, then `try_disconnect`. The lock is as each event
  -- finds it; where the list of events is used up the loop waits.
  unfoldable pub recv_loop :
      UdpConnectionVars → List (Bool × Instant × RecvEvent) → Outcome (UdpConnectionVars × Round)
  recv_loop con [] = done (con, goes_on)
  recv_loop con ((lock, now, event) ∷ events) =
      recv_round lock now con event >>= (λ out. after_round lock out (recv_loop out.0 events))

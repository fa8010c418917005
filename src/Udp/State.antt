-- ===== src/Udp/State.antt =====
-- state.rs: the variables of a connection behind its mutex, and the moves of its state. A waker is
-- the number of its task; `woken` is the model's record of the wakers that were woken, oldest
-- first. A channel is the list of what was sent on it, oldest first; a send on a channel whose
-- receiver is gone changes no variable, the code only logs it.
pub mod Events
pub mod Machine
use tunshell.Prelude.{
  Waker, ℕ, Bool, true, false, ◌||◌, List, [], ◌++◌, ◌∷◌, Option, none, some, Outcome, done, panic,
  ◌>>=◌, ◌>>◌, assert, unwrap, if◌then◌else◌,
}
use tunshell.Udp.Config.{UdpConnectionConfig, Duration}
use tunshell.Udp.Packet.{UdpPacket}
use tunshell.Udp.SeqNumber.{SequenceNumber}

-- std's `Instant`, in nanoseconds.
abbrev pub Instant : Type 0
Instant = ℕ

-- `SendEvent` of sender.rs.
pub data SendEvent : Type 0 where
  send resend : UdpPacket → SendEvent
  ack_update window_update close : SendEvent

pub data UdpConnectionState : Type 0 where
  new sent_hello sent_sync waiting_for_sync connect_failed connected disconnected :
      UdpConnectionState

pub record UdpConnectionVars : Type 0 where
  pub config : UdpConnectionConfig
  pub state : UdpConnectionState
  pub peer_window : ℕ
  pub transit_window : ℕ
  pub window_wakers : List (Waker × SequenceNumber)
  pub sequence_number : SequenceNumber
  pub ack_number : SequenceNumber
  pub recv_packets : List UdpPacket
  pub reassembled_buffer : List ℕ
  pub recv_wakers : List Waker
  pub rtt_estimate : Duration
  pub send_times : List (SequenceNumber × Instant)
  pub peer_ack_number : SequenceNumber
  pub sent_packets : List (SequenceNumber × UdpPacket)
  pub event_sender : Option (List SendEvent)
  pub close_wakers : List Waker
  pub woken : List Waker

-- `UdpConnectionVars::new`.
abbrev pub new_vars : UdpConnectionConfig → UdpConnectionVars
new_vars config = record {
  config = config;
  state = new;
  peer_window = 0;
  transit_window = config.initial_transit_window;
  window_wakers = [];
  sequence_number = 0;
  ack_number = 0;
  recv_packets = [];
  reassembled_buffer = [];
  recv_wakers = [];
  rtt_estimate = 0;
  send_times = [];
  peer_ack_number = 0;
  sent_packets = [];
  event_sender = none;
  close_wakers = [];
  woken = [];
}

-- The derived `==` of states.
abbrev pub state_eq : UdpConnectionState → UdpConnectionState → Bool
state_eq new new = true
state_eq sent_hello sent_hello = true
state_eq sent_sync sent_sync = true
state_eq waiting_for_sync waiting_for_sync = true
state_eq connect_failed connect_failed = true
state_eq connected connected = true
state_eq disconnected disconnected = true
state_eq _ _ = false

unfoldable pub is_connected : UdpConnectionVars → Bool
is_connected con = state_eq con.state connected

unfoldable pub set_state_sent_hello : UdpConnectionVars → Outcome UdpConnectionVars
set_state_sent_hello con = do
  assert (state_eq con.state new)
  done (record con { state = sent_hello })

unfoldable pub set_state_sent_sync : UdpConnectionVars → Outcome UdpConnectionVars
set_state_sent_sync con = do
  assert (state_eq con.state sent_hello)
  done (record con { state = sent_sync })

unfoldable pub set_state_waiting_for_sync : UdpConnectionVars → Outcome UdpConnectionVars
set_state_waiting_for_sync con = do
  assert (state_eq con.state sent_hello)
  done (record con { state = waiting_for_sync })

unfoldable pub set_state_connect_failed : UdpConnectionVars → Outcome UdpConnectionVars
set_state_connect_failed con = do
  assert (
      state_eq con.state sent_hello
      || (state_eq con.state sent_sync || state_eq con.state waiting_for_sync))
  done (record con { state = connect_failed })

-- The sender's channel starts as it is handed over.
unfoldable pub set_state_connected : UdpConnectionVars → List SendEvent → Outcome UdpConnectionVars
set_state_connected con channel = do
  assert (state_eq con.state sent_sync || state_eq con.state waiting_for_sync)
  done (record con { state = connected; event_sender = some channel })

unfoldable pub set_state_disconnected : UdpConnectionVars → Outcome UdpConnectionVars
set_state_disconnected con = do
  assert (state_eq con.state connected)
  done (record con {
    state = disconnected;
    close_wakers = [];
    woken = con.woken ++ con.close_wakers;
  })

unfoldable pub try_set_state_disconnected : UdpConnectionVars → Outcome UdpConnectionVars
unfolding is_connected set_state_disconnected
try_set_state_disconnected con = if is_connected con then set_state_disconnected con else done con

-- `event_sender().send(event)`: `event_sender` unwraps, and a failed send is only logged.
unfoldable pub send_event : UdpConnectionVars → SendEvent → Outcome UdpConnectionVars
send_event con event = do
  channel ← unwrap con.event_sender
  done (record con { event_sender = some (channel ++ (event ∷ [])) })

-- `Vec<Waker>` drained and woken in order.
unfoldable pub wake_recv_tasks : UdpConnectionVars → UdpConnectionVars
wake_recv_tasks con = record con { recv_wakers = []; woken = con.woken ++ con.recv_wakers }

-- ===== src/Udp/Connection.antt =====
-- connection.rs: `UdpConnection`, the state machine around the variables, and its polling
-- functions. A running connection holds the variables; what the tasks do to them between two calls
-- is theirs. The connection's `sender` is the channel of the variables.
pub mod Calls
use tunshell.Prelude.{
  Waker, ℕ, Bool, true, false, not, ◌&&◌, List, [], ◌∷◌, ◌++◌, Option, none, some, Outcome, done,
  panic, ◌>>=◌, ◌>>◌, assert, Result, ok, err, Poll, ready, pending, ltb, ◌==◌, if◌then◌else◌,
  length,
}
use tunshell.Prelude.Crates.{ByteOrder, XxHash}
use tunshell.Udp.Config.{UdpConnectionConfig, SocketAddr}
use tunshell.Udp.Congestion.{is_congested, wait_until_decongested}
use tunshell.Udp.Negotiator.{NegotiateError, Network, negotiate_connection}
use tunshell.Udp.Receiver.{recv_available_bytes, recv_drain_bytes}
use tunshell.Udp.Sender.{create_data_packet}
use tunshell.Udp.State.{
  UdpConnectionVars, SendEvent, is_connected as vars_connected, new_vars, send_event, send, close,
  set_state_connected, set_state_connect_failed,
}

-- The states of a `UdpConnection`; the socket of a bound one is not represented.
pub data State : Type 0 where
  new bound : UdpConnectionConfig → State
  binding connecting stopping disconnected : State
  running disconnecting : UdpConnectionVars → State

pub data ConnectError : Type 0 where
  must_be_new must_be_new_or_bound bind_failed : ConnectError
  negotiation_failed : NegotiateError → ConnectError

-- The kinds of `io::Error` that the polling functions answer with.
pub data IoError : Type 0 where
  not_connected broken_pipe : IoError

unfoldable pub is_new : State → Bool
is_new (new _) = true
is_new _ = false

unfoldable pub is_bound : State → Bool
is_bound (bound _) = true
is_bound _ = false

unfoldable pub is_connected : State → Bool
is_connected (running con) = vars_connected con
is_connected _ = false

unfoldable pub is_disconnected : State → Bool
is_disconnected disconnected = true
is_disconnected (running con) = not (vars_connected con)
is_disconnected _ = false

-- `bind` with `do_bind`; `port` is the port that the socket is bound to, where binding succeeds.
unfoldable pub bind : State → Option ℕ → State × Result ℕ ConnectError
bind (new config) (some port) = (bound config, ok port)
bind (new config) none = (new config, err bind_failed)
bind state port = (state, err must_be_new)

module _ (bo : ByteOrder) (xx : XxHash) where
  -- What `do_connect` does with the result of the negotiation, and `connect` with that of
  -- `do_connect`.
  unfoldable pub finish_connect :
      UdpConnectionVars × Result (SocketAddr × List ℕ) NegotiateError
      → Outcome (State × Result (Unit {0}) ConnectError)
  finish_connect (con, ok _) = do con' ← set_state_connected con []; done (running con', ok tt)
  finish_connect (con, err e) = do
    con' ← set_state_connect_failed con
    done (new con'.config, err (negotiation_failed e))

  unfoldable pub do_connect :
      List ℕ
      → Bool
      → Network
      → UdpConnectionConfig
      → Outcome (State × Result (Unit {0}) ConnectError)
  do_connect ip master_side net config =
      negotiate_connection bo xx ip master_side net (new_vars config) >>= finish_connect

  -- `connect`, which binds first where that has not been done.
  unfoldable pub connect :
      State → Option ℕ → List ℕ → Bool → Network → Outcome (State × Result (Unit {0}) ConnectError)
  connect (bound config) port ip master_side net = do_connect ip master_side net config
  connect (new config) (some port) ip master_side net = do_connect ip master_side net config
  connect (new config) none ip master_side net = done (new config, err bind_failed)
  connect state port ip master_side net = done (state, err must_be_new_or_bound)

-- `poll_read` on a running connection that is connected.
unfoldable pub read_connected :
    UdpConnectionVars → Waker → ℕ → Outcome (State × Poll (Result (List ℕ) IoError))
read_connected con waker len =
    if recv_available_bytes con == 0
    then done (running (record con { recv_wakers = con.recv_wakers ++ (waker ∷ []) }), pending)
    else (do (con', bytes) ← recv_drain_bytes con len; done (running con', ready (ok bytes)))

-- `poll_read` with a buffer of `len` bytes.
unfoldable pub poll_read : State → Waker → ℕ → Outcome (State × Poll (Result (List ℕ) IoError))
poll_read (running con) waker len =
    if not (vars_connected con)
    then done (running con, ready (err not_connected))
    else read_connected con waker len
poll_read state waker len = done (state, ready (err not_connected))

-- Sending on the connection's `sender`; `received` is whether the receiver of the channel is there.
unfoldable pub send_on : Bool → UdpConnectionVars → SendEvent → Outcome (UdpConnectionVars × Bool)
send_on true con event = do con' ← send_event con event; done (con', true)
send_on false con event = done (con, false)

module _ (xx : XxHash) where
  unfoldable pub write_connected :
      Bool → UdpConnectionVars → Waker → List ℕ → Outcome (State × Poll (Result ℕ IoError))
  write_connected received con waker buff =
      if is_congested con then done (running (wait_until_decongested con waker), pending) else (do
        let created = create_data_packet xx con buff
        (con', sent) ← send_on received created.0 (send created.1)
        if sent
            then done (running con', ready (ok (length created.1.payload)))
            else done (running con', ready (err broken_pipe)))

  unfoldable pub poll_write :
      Bool → State → Waker → List ℕ → Outcome (State × Poll (Result ℕ IoError))
  poll_write received (running con) waker buff =
      assert (ltb 0 (length buff))
      >> (if not (vars_connected con)
          then done (running con, ready (err not_connected))
          else write_connected received con waker buff)
  poll_write received state waker buff =
      assert (ltb 0 (length buff)) >> done (state, ready (err not_connected))

-- `poll_shutdown`: while disconnecting it asks `self.is_connected()`; elsewhere only a running
-- connection can be shut down.
unfoldable pub poll_shutdown :
    Bool → State → Waker → Outcome (State × Poll (Result (Unit {0}) IoError))
unfolding is_connected
poll_shutdown received (disconnecting con) waker =
    if not (is_connected (disconnecting con))
    then done (disconnected, ready (ok tt))
    else done
        (disconnecting (record con { close_wakers = con.close_wakers ++ (waker ∷ []) }), pending)
poll_shutdown received (running con) waker = do
  (con', sent) ← send_on received con close
  if sent
      then done (
        disconnecting (record con' { close_wakers = con'.close_wakers ++ (waker ∷ []) }),
        pending,
      )
      else done (stopping, ready (err broken_pipe))
poll_shutdown received state waker = panic

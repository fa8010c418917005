-- ===== src/Udp/State/Machine.antt =====
-- The moves of the connection state: which setter succeeds where, and what can be reached.
use tunshell.Prelude.{
  [], ◌++◌, ◌≢◌, Bool, true, false, ◌≤◌, ℕ, ◌≡◌, refl, ◌⊎◌, not, panics, List, done, arith, none,
  some,
}
use tunshell.Udp.State.{
  UdpConnectionVars, UdpConnectionState, SendEvent, new, sent_hello, sent_sync, waiting_for_sync,
  connect_failed, connected, disconnected, set_state_sent_hello, set_state_sent_sync,
  set_state_waiting_for_sync, set_state_connect_failed, set_state_connected, set_state_disconnected,
  try_set_state_disconnected, new_vars, send_event,
}
use tunshell.Udp.Config.{UdpConnectionConfig}

-- One call of a setter that returned.
pub data Step (c d : UdpConnectionVars) : Type 0 where
  hello : set_state_sent_hello c ≡ done d → Step c d
  sync : set_state_sent_sync c ≡ done d → Step c d
  wait : set_state_waiting_for_sync c ≡ done d → Step c d
  fail : set_state_connect_failed c ≡ done d → Step c d
  connect : (channel : List SendEvent) → set_state_connected c channel ≡ done d → Step c d
  disconnect : set_state_disconnected c ≡ done d → Step c d
  try_disconnect : try_set_state_disconnected c ≡ done d → Step c d

pub data Reach (c : UdpConnectionVars) : UdpConnectionVars → Type 0 where
  here : Reach c c
  next : {d e : UdpConnectionVars} → Reach c d → Step d e → Reach c e

-- The order in which a connection goes through its states.
abbrev pub rank : UdpConnectionState → ℕ
rank new = 0
rank sent_hello = 1
rank sent_sync = 2
rank waiting_for_sync = 2
rank connected = 3
rank connect_failed = 4
rank disconnected = 4

-- Whether the connection is up, or has been.
abbrev pub was_up : UdpConnectionState → Bool
was_up connected = true
was_up disconnected = true
was_up _ = false

abbrev pub has_channel : UdpConnectionVars → Bool
has_channel c = elim c.event_sender [ none ↦ false | some ch ↦ true ]

-- `event_sender()` can be unwrapped exactly from the time the connection is up.
abbrev pub IsSound : UdpConnectionVars → Type 0
IsSound c = has_channel c ≡ was_up c.state

Step-IsSound : {c d : UdpConnectionVars} → Step c d → IsSound c → IsSound d
unfolding set_state_sent_hello set_state_sent_sync set_state_waiting_for_sync
    set_state_connect_failed set_state_connected try_set_state_disconnected
Step-IsSound (hello e) h = ground arith
Step-IsSound (sync e) h = ground arith
Step-IsSound (wait e) h = ground arith
Step-IsSound (fail e) h = ground arith
Step-IsSound (connect ch e) h = ground arith
Step-IsSound (disconnect e) h = ground arith
Step-IsSound (try_disconnect e) h = ground arith

Step-rank : {c d : UdpConnectionVars} → Step c d → rank c.state ≤ rank d.state
unfolding set_state_sent_hello set_state_sent_sync set_state_waiting_for_sync
    set_state_connect_failed set_state_connected try_set_state_disconnected
Step-rank (hello e) = ground arith
Step-rank (sync e) = ground arith
Step-rank (wait e) = ground arith
Step-rank (fail e) = ground arith
Step-rank (connect ch e) = ground arith
Step-rank (disconnect e) = ground arith
Step-rank (try_disconnect e) = ground arith

Reach-IsSound : {c d : UdpConnectionVars} → Reach c d → IsSound c → IsSound d
Reach-IsSound here h = h
Reach-IsSound (next r s) h = Step-IsSound s (Reach-IsSound r h)

Reach-rank : {c d : UdpConnectionVars} → Reach c d → rank c.state ≤ rank d.state
Reach-rank here = omega arith
Reach-rank (next r s) = omega (arith, Reach-rank r, Step-rank s)

-- However the setters are called on a new connection, sending an event on its channel panics
-- exactly while the connection has not yet been up.
pub send_event-Reach :
    (config : UdpConnectionConfig) (event : SendEvent) {d : UdpConnectionVars}
    → Reach (new_vars config) d
    → panics (send_event d event) ≡ not (was_up d.state)
unfolding send_event
send_event-Reach config event {d} r = let s : IsSound d = Reach-IsSound r refl in ground arith

-- The connection ends: those who wait for it are woken.
abbrev pub Ends : (c d : UdpConnectionVars) → Type 0
Ends c d =
    (c.state ≡ connected)
    × (d ≡ record c { state = disconnected; close_wakers = []; woken = c.woken ++ c.close_wakers })

-- What a setter that returned has done: the state before, the state after, and what it leaves of the
-- sender's channel and of the tasks that wait for the end.
abbrev pub Moves : {c d : UdpConnectionVars} → Step c d → Type 0
Moves {c} {d} (hello e) = (c.state ≡ new) × (d ≡ record c { state = sent_hello })
Moves {c} {d} (sync e) = (c.state ≡ sent_hello) × (d ≡ record c { state = sent_sync })
Moves {c} {d} (wait e) = (c.state ≡ sent_hello) × (d ≡ record c { state = waiting_for_sync })
Moves {c} {d} (fail e) =
    ((c.state ≡ sent_hello) ⊎ ((c.state ≡ sent_sync) ⊎ (c.state ≡ waiting_for_sync)))
    × (d ≡ record c { state = connect_failed })
Moves {c} {d} (connect channel e) =
    ((c.state ≡ sent_sync) ⊎ (c.state ≡ waiting_for_sync))
    × (d ≡ record c { state = connected; event_sender = some channel })
Moves {c} {d} (disconnect e) = Ends c d
Moves {c} {d} (try_disconnect e) = Ends c d ⊎ ((c.state ≢ connected) × (d ≡ c))

-- ===== src/Udp/Orchestrator/Safety.antt =====
-- Nothing that comes from the network makes the receive loop panic.
use tunshell.Prelude.{◌&&◌, ◌≡◌, Bool, true, false, ◌⊎◌, List, [], ◌∷◌}
use tunshell.Prelude.Crates.{ByteOrder, XxHash}
use tunshell.Udp.State.{UdpConnectionVars, Instant, is_connected}
use tunshell.Udp.State.Machine.{has_channel}
use tunshell.Udp.Orchestrator.{RecvEvent, Round, goes_on}

module _ (bo : ByteOrder) (xx : XxHash) where
  -- Where the loop is left, the connection is down, unless it could not be locked.
  abbrev pub Ended : Bool → UdpConnectionVars × Round → Type 0
  Ended locked out =
      (has_channel out.0 ≡ true)
      × ((out.1 ≡ goes_on) ⊎ ((is_connected out.0 ≡ false) ⊎ (locked ≡ false)))

  -- Whether every attempt to lock the connection succeeds.
  abbrev pub all_locked : List (Bool × Instant × RecvEvent) → Bool
  all_locked [] = true
  all_locked ((lock, now, event) ∷ events) = let rest = all_locked events in lock && rest

-- ===== src/Udp/State/Events.antt =====
-- Sending on the connection's own channel.
use tunshell.Prelude.{
  ◌≡◌, true, List, [], ◌∷◌, ◌++◌, Option-cases, some, inl, inr, done, Returns, arith,
}
use tunshell.Udp.State.{UdpConnectionVars, SendEvent, send_event}
use tunshell.Udp.State.Machine.{has_channel}

pub send_event_lem :
    (con : UdpConnectionVars) (event : SendEvent) (channel : List SendEvent)
    → con.event_sender ≡ some channel
    → send_event con event ≡ done (record con { event_sender = some (channel ++ (event ∷ [])) })
unfolding send_event
send_event_lem con event channel h = ground arith

-- With a channel there, what holds after any event was sent holds after `send_event`.
pub send_event-Returns {ℓ} :
    (P : UdpConnectionVars → Type ℓ) (con : UdpConnectionVars) (event : SendEvent)
    → has_channel con ≡ true
    → ((channel : List SendEvent) → P (record con { event_sender = some channel }))
    → Returns P (send_event con event)
send_event-Returns P con event h all = elim (Option-cases con.event_sender) [
  | inl e ↦ absurd (ground arith)
  | inr (channel, e) ↦ rw (send_event_lem con event channel e) (all (channel ++ (event ∷ [])))
]

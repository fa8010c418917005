-- ===== src/Server/Relay/Control.antt =====
-- When two connections are told to connect directly, and what they are told.
use tunshell.Prelude.{
  ◌⊎◌, arith, ℕ, ◌≡◌, ◌∙◌, ap, refl, Bool, true, false, Bool-cases, inl, inr, [], ◌∷◌, Option, none,
  some, ok, if◌then◌else◌,
}
use tunshell.Shared.Message.{
  ClientMessage, PortBindings, bind_for_direct_connect, attempt_direct_connect,
  direct_connect_bound, direct_connect_failed, direct_connect_succeeded,
}
use tunshell.Server.Relay.{
  both_some, Pair, PairEvents, ◌>>?◌, write_both, read_both, supports_matching_protocols,
  bound_ports, connect_result, command_attempt, attempt_with_ports, attempt_if_bound,
  attempt_direct_connection,
}
use tunshell.Server.Relay.Told.{told, told-told, then-Succeeds, write_both-told, read_both-ok}

connect_result-true :
    (messages : ClientMessage × ClientMessage)
    → connect_result messages ≡ ok true
    → messages ≡ (direct_connect_succeeded, direct_connect_succeeded)
unfolding connect_result
connect_result-true (direct_connect_succeeded, direct_connect_succeeded) h = refl
connect_result-true (direct_connect_failed, direct_connect_failed) h = cc
connect_result-true (m, n) h = cc

bound_ports-some :
    (messages : ClientMessage × ClientMessage) (ports : PortBindings × PortBindings)
    → bound_ports messages ≡ ok (some ports)
    → messages ≡ (direct_connect_bound ports.0, direct_connect_bound ports.1)
unfolding bound_ports
bound_ports-some (direct_connect_bound a, direct_connect_bound b) ports h = cc
bound_ports-some (direct_connect_failed, direct_connect_bound b) ports h = cc
bound_ports-some (direct_connect_failed, direct_connect_failed) ports h = cc
bound_ports-some (direct_connect_bound a, direct_connect_failed) ports h = cc
bound_ports-some (m, n) ports h = cc

-- Both peers have a TCP port, or both have a UDP port.
abbrev pub SharesProtocol : PortBindings → PortBindings → Type 0
SharesProtocol ports1 ports2 =
    ((port1 : ℕ) × (port2 : ℕ) × (ports1.tcp_port ≡ some port1) × (ports2.tcp_port ≡ some port2))
    ⊎ ((port1 : ℕ) × (port2 : ℕ) × (ports1.udp_port ≡ some port1) × (ports2.udp_port ≡ some port2))

both_some-true :
    (a b : Option ℕ)
    → both_some a b ≡ true
    → (port1 : ℕ) × (port2 : ℕ) × (a ≡ some port1) × (b ≡ some port2)
both_some-true (some port1) (some port2) h = (port1, port2, refl, refl)
both_some-true (some port1) none h = cc
both_some-true none b h = cc

supports_matching_protocols-SharesProtocol :
    (ports1 ports2 : PortBindings)
    → supports_matching_protocols ports1 ports2 ≡ true
    → SharesProtocol ports1 ports2
unfolding supports_matching_protocols
supports_matching_protocols-SharesProtocol ports1 ports2 h =
    elim (Bool-cases (both_some ports1.tcp_port ports2.tcp_port)) [
      | inl both ↦ inl (both_some-true ports1.tcp_port ports2.tcp_port both)
      | inr none_tcp ↦ inr (both_some-true ports1.udp_port ports2.udp_port (ground arith))
    ]

-- Both peers have bound ports of a protocol that they share, have been told the other's ports, and
-- have said that they are connected.
pub record ConnectsDirectly (events : PairEvents) (pair out : Pair) : Type 0 where
  pub ports1 : PortBindings
  pub ports2 : PortBindings
  pub bound : events.bound ≡ (ok (direct_connect_bound ports1), ok (direct_connect_bound ports2))
  pub matching : SharesProtocol ports1 ports2
  pub attempted : events.attempted ≡ (ok direct_connect_succeeded, ok direct_connect_succeeded)
  pub sent :
      out
      ≡ told pair
          (bind_for_direct_connect ∷ attempt_direct_connect ports2 ∷ [])
          (bind_for_direct_connect ∷ attempt_direct_connect ports1 ∷ [])

abbrev Succeeded : PairEvents → (pair out : Pair) → (ports1 ports2 : PortBindings) → Type 0
Succeeded events pair out ports1 ports2 =
    (events.attempted ≡ (ok direct_connect_succeeded, ok direct_connect_succeeded))
    × (out ≡ told pair (attempt_direct_connect ports2 ∷ []) (attempt_direct_connect ports1 ∷ []))

command_attempt-true :
    (events : PairEvents) (pair : Pair) (ports1 ports2 : PortBindings)
    → (command_attempt events pair ports1 ports2).1 ≡ ok true
    → Succeeded events pair (command_attempt events pair ports1 ports2).0 ports1 ports2
unfolding command_attempt
command_attempt-true events pair ports1 ports2 h =
    (let w =
        write_both events.attempt pair (attempt_direct_connect ports2)
          (attempt_direct_connect ports1) in
      let second =
        then-Succeeds (w >>? λ p _. read_both p events.attempted)
          (λ p messages. (p, connect_result messages)) true h in
      let first = then-Succeeds w (λ p _. read_both p events.attempted) second.value second.first in
      let (replies, same) = read_both-ok w.0 events.attempted second.value first.second in
      let both = connect_result-true second.value second.second in
      (
        replies ∙ ap (λ m. (ok m.0, ok m.1)) both,
        second.out
            ∙ first.out
            ∙ same
            ∙ write_both-told events.attempt pair (attempt_direct_connect ports2)
                (attempt_direct_connect ports1) first.value first.first,
      ))

attempt_with_ports-true :
    (events : PairEvents) (pair : Pair) (ports1 ports2 : PortBindings)
    → (attempt_with_ports events pair (ports1, ports2)).1 ≡ ok true
    → (supports_matching_protocols ports1 ports2 ≡ true)
      × Succeeded events pair (attempt_with_ports events pair (ports1, ports2)).0 ports1 ports2
unfolding attempt_with_ports
attempt_with_ports-true events pair ports1 ports2 h =
    decided (supports_matching_protocols ports1 ports2) h
  where
    decided :
        (b : Bool)
        → (if b then command_attempt events pair ports1 ports2 else (pair, ok false)).1 ≡ ok true
        → (b ≡ true)
          × Succeeded events pair
              (if b then command_attempt events pair ports1 ports2 else (pair, ok false)).0
              ports1
              ports2
    decided true h = (refl, command_attempt-true events pair ports1 ports2 h)
    decided false h = cc

-- Where the attempt at a direct connection succeeds: both peers have answered with their ports, both
-- with one for TCP or both with one for UDP, each has been told to bind and then the ports of the other one, nothing else, and both
-- have said that they are connected.
pub attempt_direct_connection-ConnectsDirectly :
    (events : PairEvents) (pair : Pair)
    → (attempt_direct_connection events pair).1 ≡ ok true
    → ConnectsDirectly events pair (attempt_direct_connection events pair).0
unfolding attempt_direct_connection
attempt_direct_connection-ConnectsDirectly events pair h =
    (let w = write_both events.bind pair bind_for_direct_connect bind_for_direct_connect in
      let r = w >>? λ p _. read_both p events.bound in
      let third =
        then-Succeeds (r >>? λ p messages. (p, bound_ports messages)) (attempt_if_bound events) true
          h in
      let second =
        then-Succeeds r (λ p messages. (p, bound_ports messages)) third.value third.first in
      let first = then-Succeeds w (λ p _. read_both p events.bound) second.value second.first in
      let (replies, same) = read_both-ok w.0 events.bound second.value first.second in
      let before =
        second.out
        ∙ first.out
        ∙ same
        ∙ write_both-told events.bind pair bind_for_direct_connect bind_for_direct_connect
            first.value first.first in
      with_ports third.value (r >>? λ p messages. (p, bound_ports messages)).0 second.value before
        second.second replies third.second third.out)
  where
    with_ports :
        (ports : Option (PortBindings × PortBindings)) (p : Pair)
        (messages : ClientMessage × ClientMessage) {out : Pair}
        → p ≡ told pair (bind_for_direct_connect ∷ []) (bind_for_direct_connect ∷ [])
        → bound_ports messages ≡ ok ports
        → events.bound ≡ (ok messages.0, ok messages.1)
        → (attempt_if_bound events p ports).1 ≡ ok true
        → out ≡ (attempt_if_bound events p ports).0
        → ConnectsDirectly events pair out
    with_ports none p messages before said replies h out = cc
    with_ports (some (ports1, ports2)) p messages before said replies h out =
        (let (matching, (attempted, sent)) = attempt_with_ports-true events p ports1 ports2 h in
          record {
            ports1 = ports1;
            ports2 = ports2;
            bound =
                replies
                ∙ ap (λ m. (ok m.0, ok m.1)) (bound_ports-some messages (ports1, ports2) said);
            matching = supports_matching_protocols-SharesProtocol ports1 ports2 matching;
            attempted = attempted;
            sent =
                out
                ∙ sent
                ∙ ap
                    (λ z.
                      told z (attempt_direct_connect ports2 ∷ [])
                        (attempt_direct_connect ports1 ∷ []))
                    before
                ∙ told-told pair (bind_for_direct_connect ∷ []) (bind_for_direct_connect ∷ [])
                    (attempt_direct_connect ports2 ∷ []) (attempt_direct_connect ports1 ∷ []);
          })

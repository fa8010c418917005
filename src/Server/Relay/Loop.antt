-- ===== src/Server/Relay/Loop.antt =====
-- The relay hands on the payloads, each to the other connection and in order.
use tunshell.Prelude.{
  ◌≡◌, ◌∙◌, ap, sym, refl, true, false, List, [], ◌∷◌, ◌++◌, append-nil, append_assoc, Result, ok,
  err,
}
use tunshell.Shared.Message.{ServerMessage, relay, client_close, client_relay}
use tunshell.Server.Relay.{
  Pair, RelayError, not_written, unexpected_message, timed_out, Side, from1, from2, RelayEvent,
  next_message, write_if, proxy_payload, proxy_from, relay_loop, Step,
}

-- The specification. What a payload's writer is handed on, up to the first event that is no payload or
-- is not taken; and how that event ends the loop.
abbrev pub handed_on : Side → List RelayEvent → List ServerMessage
handed_on side [] = []
handed_on from1 (next_message from1 (ok (client_relay payload)) true ∷ events) =
    relay payload ∷ handed_on from1 events
handed_on from1 (next_message from2 (ok (client_relay payload)) true ∷ events) =
    handed_on from1 events
handed_on from2 (next_message from1 (ok (client_relay payload)) true ∷ events) =
    handed_on from2 events
handed_on from2 (next_message from2 (ok (client_relay payload)) true ∷ events) =
    relay payload ∷ handed_on from2 events
handed_on side (_ ∷ events) = []

abbrev pub ending : List RelayEvent → Result (Unit {0}) RelayError
ending [] = err timed_out
ending (next_message side (ok (client_relay payload)) true ∷ events) = ending events
ending (next_message side (ok (client_relay payload)) false ∷ events) = err not_written
ending (next_message side (ok client_close) written ∷ events) = ok tt
ending (next_message side (ok message) written ∷ events) = err unexpected_message
ending (next_message side (err e) written ∷ events) = err e

pub record Relays (pair : Pair) (events : List RelayEvent) (out : Step (Unit {0})) : Type 0 where
  pub to2 : out.0.con2.sent ≡ pair.con2.sent ++ handed_on from1 events
  pub to1 : out.0.con1.sent ≡ pair.con1.sent ++ handed_on from2 events
  pub result : out.1 ≡ ending events

ends :
    (pair : Pair) (events : List RelayEvent) (r : Result (Unit {0}) RelayError)
    → handed_on from1 events ≡ []
    → handed_on from2 events ≡ []
    → r ≡ ending events
    → Relays pair events (pair, r)
ends pair events r h k e = record {
  to2 = sym (append-nil pair.con2.sent) ∙ ap (λ z. pair.con2.sent ++ z) (sym h);
  to1 = sym (append-nil pair.con1.sent) ∙ ap (λ z. pair.con1.sent ++ z) (sym k);
  result = e;
}

-- Whatever the two connections send while they are relayed: each has been sent the payloads of the
-- other one, in order, up to the first message that is no payload or that could not be handed on; a
-- close ends the loop well, and anything else, or that nothing more comes, with its error.
pub relay_loop-Relays :
    (pair : Pair) (events : List RelayEvent) → Relays pair events (relay_loop pair events)
unfolding relay_loop proxy_from proxy_payload
relay_loop-Relays pair [] = ends pair [] (err timed_out) refl refl refl
relay_loop-Relays pair (next_message from1 (ok (client_relay payload)) true ∷ events) =
    (let con2 = write_if true pair.con2 (relay payload) in
      let rest = relay_loop-Relays (record pair { con2 = con2 }) events in
      record {
        to2 = rest.to2 ∙ append_assoc pair.con2.sent (relay payload ∷ []) (handed_on from1 events);
        to1 = rest.to1;
        result = rest.result;
      })
relay_loop-Relays pair (next_message from2 (ok (client_relay payload)) true ∷ events) =
    (let con1 = write_if true pair.con1 (relay payload) in
      let rest = relay_loop-Relays (record pair { con1 = con1 }) events in
      record {
        to2 = rest.to2;
        to1 = rest.to1 ∙ append_assoc pair.con1.sent (relay payload ∷ []) (handed_on from2 events);
        result = rest.result;
      })
relay_loop-Relays pair (event ∷ events) = ends pair (event ∷ events) _ refl refl refl

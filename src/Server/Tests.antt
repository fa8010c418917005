-- ===== src/Server/Tests.antt =====
-- Two clients that join, are paired, and connect directly or are relayed.
use tunshell.Prelude.{
  ℕ, ◌≡◌, refl, subst, arith, true, false, Bool, List, [], ◌∷◌, Option, none, some, ok, Returns,
  Result, if◌then◌else◌,
}
use tunshell.Shared.Message.{
  PortBindings, key, client_relay, client_close, direct_connect_bound, direct_connect_succeeded,
}
use tunshell.Server.Session.{Session, key_eq}
use tunshell.Server.Relay.{
  Connection, Pair, PairEvents, Writes, RelayEvent, next_message, from1, from2, relay_loop,
  attempt_direct_connection, supports_matching_protocols, write_both, read_both, bound_ports,
  connect_result, attempt_with_ports, command_attempt,
}
use tunshell.Server.Relay.Loop.{Relays, relay_loop-Relays}
use tunshell.Server.Relay.Control.{ConnectsDirectly, attempt_direct_connection-ConnectsDirectly}
use tunshell.Server.Accept.{
  Server, KeyEvents, KeyError, ServerEvent, joins, leaves, cleans, run_server, lookup_key,
}
use tunshell.Server.Accept.Waiting.{IsStore, AreSeparate, AnswersFrom}
use tunshell.Server.Accept.Joins.{run_server-AreSeparate}

abbrev alice : Connection
alice = record { key = 1 ∷ []; connected_at = 10; remote_ip = 127 ∷ []; sent = [] }

abbrev bob : Connection
bob = record { key = 2 ∷ []; connected_at = 20; remote_ip = 128 ∷ []; sent = [] }

abbrev both : Pair
both = record { con1 = alice; con2 = bob }

abbrev talk : List RelayEvent
talk =
    next_message from1 (ok (client_relay (record { bytes = 7 ∷ [] }))) true
    ∷ next_message from2 (ok (client_relay (record { bytes = 8 ∷ [] }))) true
    ∷ next_message from1 (ok client_close) true
    ∷ []

relay_loop-Relays_example : Relays both talk (relay_loop both talk)
relay_loop-Relays_example = relay_loop-Relays both talk

abbrev udp_only : PortBindings
udp_only = record { udp_port = some 4000; tcp_port = none }

abbrev all_written : Writes
all_written = record { first = true; second = true }

abbrev meeting : PairEvents
meeting = record {
  session_nonce = 5 ∷ [];
  joined = all_written;
  bind = all_written;
  bound = (ok (direct_connect_bound udp_only), ok (direct_connect_bound udp_only));
  attempt = all_written;
  attempted = (ok direct_connect_succeeded, ok direct_connect_succeeded);
  last = ok client_close;
  relay_mode = all_written;
  relayed = [];
}

attempt_direct_connection-ConnectsDirectly_example :
    ConnectsDirectly meeting both (attempt_direct_connection meeting both).0
unfolding attempt_direct_connection attempt_with_ports command_attempt write_both read_both
    bound_ports connect_result supports_matching_protocols
attempt_direct_connection-ConnectsDirectly_example =
    attempt_direct_connection-ConnectsDirectly meeting both refl

abbrev session : Session
session = record {
  id = 9 ∷ [];
  peer1 = record { key = 1 ∷ [] };
  peer2 = record { key = 2 ∷ [] };
  created_at = 0;
}

-- The store has this session only.
abbrev store : List ℕ → Option Session
store k =
    if key_eq (1 ∷ []) k then some session else if key_eq (2 ∷ []) k then some session else none

abbrev find_by_key : List ℕ → Result (Option Session) KeyError
find_by_key k = ok (store k)

-- Someone comes with a key.
abbrev arrival : List ℕ → List ℕ → ℕ → KeyEvents
arrival ip first now = record {
  remote_ip = some ip;
  first_message = some (ok (key (record { key = first })));
  find_by_key = find_by_key;
  written = true;
  now = now;
}

only_session : (k : List ℕ) (s : Session) → store k ≡ some s → session ≡ s
only_session k s h = decided (key_eq (1 ∷ []) k) (key_eq (2 ∷ []) k) h
  where
    decided :
        (b c : Bool)
        → (if b then some session else if c then some session else none) ≡ some s
        → session ≡ s
    decided true c h = cc
    decided false true h = cc
    decided false false h = cc

differ : session.peer1.key ≡ session.peer2.key → ⊥
differ e = ground arith

store-IsStore : IsStore store
unfolding key_eq
store-IsStore = record {
  peers = λ k s h.
      subst (λ t. (store t.peer1.key ≡ some t) × (store t.peer2.key ≡ some t)) (only_session k s h)
        (refl, refl);
  distinct = λ k s h. subst (λ t. t.peer1.key ≡ t.peer2.key → ⊥) (only_session k s h) differ;
}

answers : (ip first : List ℕ) (now : ℕ) → AnswersFrom store (arrival ip first now)
answers ip first now k s h = (let e : ok (store k) ≡ ok (some s) = h in cc)

abbrev evening : List ServerEvent
evening =
    joins 10 (arrival (127 ∷ []) (1 ∷ []) 10)
    ∷ joins 15 (arrival (127 ∷ []) (1 ∷ []) 15)
    ∷ joins 20 (arrival (128 ∷ []) (2 ∷ []) 20)
    ∷ cleans 30
    ∷ leaves (1 ∷ [])
    ∷ []

abbrev empty_server : Server
empty_server = record {
  waiting_expiry = 100;
  paired_expiry = 100;
  waiting = [];
  paired = [];
  turned_away = [];
}

nobody : AreSeparate store empty_server
unfolding lookup_key
nobody k c s p found known other = cc

run_server-AreSeparate_example : Returns (AreSeparate store) (run_server empty_server evening)
run_server-AreSeparate_example =
    run_server-AreSeparate store store-IsStore empty_server evening nobody (
      answers (127 ∷ []) (1 ∷ []) 10,
      (answers (127 ∷ []) (1 ∷ []) 15, (answers (128 ∷ []) (2 ∷ []) 20, tt)),
    )

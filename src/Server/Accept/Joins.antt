-- ===== src/Server/Accept/Joins.antt =====
-- Who joins is known to the store, and so the server does not panic and keeps its table.
use tunshell.Prelude.{
  ◌++◌, ℕ, ◌≡◌, refl, Bool, true, false, inl, inr, List, [], ◌∷◌, Option, none, some, Option-cases,
  Returns, Returns->>=, Result, ok, err, if◌then◌else◌,
}
use tunshell.Server.Session.{Participant, Session, other_participant, is_session_valid_to_join}
use tunshell.Server.Relay.{Connection}
use tunshell.Server.Accept.{
  KeyError, no_address, no_session, session_invalid, Negotiated, AcceptedConnection, KeyEvents,
  wait_for_key, reject, accept_key, check_session, check_found, check_key, negotiate_key, Server,
  lookup_key, remove_key, pair_or_wait, join, handle_accepted_connection,
  handle_closed_waiting_connection, retain_waiting, clean_expired_connections, ServerEvent, joins,
  leaves, cleans, run_server,
}
use tunshell.Server.Accept.Keys.{retain_waiting-none}
use tunshell.Server.Accept.Waiting.{
  IsStore, valid-other_participant, AreSeparate, AnswersFrom, IsKnown, AllAnswerFrom,
  remove-AreSeparate, insert-AreSeparate,
}

module _ (store : List ℕ → Option Session) (is_store : IsStore store) where
  negotiate_key-IsKnown :
      (events : KeyEvents) → AnswersFrom store events → IsKnown store (negotiate_key events).1
  unfolding negotiate_key check_session
  negotiate_key-IsKnown events answers =
      elim events.remote_ip
        as (λ ip.
          IsKnown store
            (elim ip as (λ _. Negotiated) [
              | none ↦ ([], err no_address)
              | some ip ↦ check_key events ip (wait_for_key events.first_message)
            ]).1) [ none ↦ tt | some ip ↦ with_key ip (wait_for_key events.first_message) ]
    where
      rejected : (written : Bool) (e : KeyError) → IsKnown store (reject written e).1
      rejected true e = tt
      rejected false e = tt

      accepted :
          (written : Bool) (ip k : List ℕ) (s : Session)
          → store k ≡ some s
          → ((p : Participant) × (other_participant s k ≡ some p))
          → IsKnown store (accept_key events.now written ip k s).1
      accepted true ip k s known peer = (known, peer)
      accepted false ip k s known peer = tt

      validated :
          (valid : Bool) (ip k : List ℕ) (s : Session)
          → is_session_valid_to_join events.now s k ≡ valid
          → store k ≡ some s
          → IsKnown store
              (if valid
                then accept_key events.now events.written ip k s
                else reject events.written session_invalid).1
      validated true ip k s e known =
          accepted events.written ip k s known (valid-other_participant events.now s k e)
      validated false ip k s e known = rejected events.written session_invalid

      with_found :
          (ip k : List ℕ) (result : Result (Option Session) KeyError)
          → events.find_by_key k ≡ result
          → IsKnown store (check_found events ip k result).1
      with_found ip k (err e) h = tt
      with_found ip k (ok none) h = rejected events.written no_session
      with_found ip k (ok (some s)) h =
          validated (is_session_valid_to_join events.now s k) ip k s refl (answers k s h)

      with_key :
          (ip : List ℕ) (result : Result (List ℕ) KeyError)
          → IsKnown store (check_key events ip result).1
      with_key ip (err e) = tt
      with_key ip (ok k) = with_found ip k (events.find_by_key k) refl

  pair_or_wait-AreSeparate :
      (now : ℕ) (server : Server) (con : Connection) (session : Session) (peer : Participant)
      → AreSeparate store server
      → store con.key ≡ some session
      → other_participant session con.key ≡ some peer
      → AreSeparate store (pair_or_wait now server con peer)
  unfolding pair_or_wait
  pair_or_wait-AreSeparate now server con session peer h known other =
      decided (lookup_key peer.key server.waiting) refl
    where
      decided :
          (o : Option Connection)
          → lookup_key peer.key server.waiting ≡ o
          → AreSeparate store (elim o as (λ _. Server) [
            | some c ↦ record server {
              waiting = remove_key peer.key server.waiting;
              paired = server.paired ++ (record { first = con; second = c; paired_at = now } ∷ []);
            }
            | none ↦ record server { waiting = (con.key, con) ∷ remove_key con.key server.waiting }
          ])
      decided (some c) e = remove-AreSeparate store is_store server peer.key h
      decided none e = insert-AreSeparate store is_store server con session peer h known other e

  join-AreSeparate :
      (now : ℕ) (server : Server) (accepted : AcceptedConnection)
      → AreSeparate store server
      → IsKnown store (ok accepted)
      → Returns (AreSeparate store) (join now server accepted)
  unfolding join
  join-AreSeparate now server accepted h (known, (peer, other)) =
      elim (Option-cases (lookup_key accepted.con.key server.waiting)) [
        | inr (c, e) ↦ rw (e, join) h
        | inl e ↦
            rw (e, join, other)
              (pair_or_wait-AreSeparate now server accepted.con accepted.session peer h known other)
      ]

  accepted-AreSeparate :
      (now : ℕ) (server : Server) (result : Result AcceptedConnection KeyError)
      → AreSeparate store server
      → IsKnown store result
      → Returns (AreSeparate store) (handle_accepted_connection now server result)
  unfolding handle_accepted_connection
  accepted-AreSeparate now server (err e) h known = h
  accepted-AreSeparate now server (ok accepted) h known =
      join-AreSeparate now server accepted h known

  clean-AreSeparate :
      (now : ℕ) (server : Server)
      → AreSeparate store server
      → AreSeparate store (clean_expired_connections now server)
  unfolding clean_expired_connections
  clean-AreSeparate now server h k c s p found known other =
      retain_waiting-none now server.waiting_expiry p.key server.waiting
        (elim (Option-cases (lookup_key k server.waiting)) [
          | inr (d, e) ↦ h k d s p e known other
          | inl e ↦ absurd (
              clash (lookup_key k (retain_waiting now server.waiting_expiry server.waiting))
                (retain_waiting-none now server.waiting_expiry k server.waiting e) found)
        ])
    where
      clash : (o : Option Connection) → o ≡ none → o ≡ some c → ⊥
      clash none e f = cc
      clash (some d) e f = cc

  -- Where both keys of every session find that session, and differ: whoever joins, leaves or expires,
  -- in any order, the server does not panic, and no two connections wait of which each is the other's
  -- peer.
  pub run_server-AreSeparate :
      (server : Server) (events : List ServerEvent)
      → AreSeparate store server
      → AllAnswerFrom store events
      → Returns (AreSeparate store) (run_server server events)
  unfolding run_server handle_closed_waiting_connection
  run_server-AreSeparate server [] h answers = h
  run_server-AreSeparate server (joins now key_events ∷ events) h answers =
      Returns->>= (AreSeparate store) (AreSeparate store)
        (handle_accepted_connection now server (negotiate_key key_events).1)
        (λ next. run_server next events)
        (accepted-AreSeparate now server (negotiate_key key_events).1 h
          (negotiate_key-IsKnown key_events answers.0))
        (λ next k. run_server-AreSeparate next events k answers.1)
  run_server-AreSeparate server (leaves k ∷ events) h answers =
      run_server-AreSeparate (record server { waiting = remove_key k server.waiting }) events
        (remove-AreSeparate store is_store server k h) answers
  run_server-AreSeparate server (cleans now ∷ events) h answers =
      run_server-AreSeparate (clean_expired_connections now server) events
        (clean-AreSeparate now server h) answers

-- ===== src/Server/Accept.antt =====
-- relay/server/mod.rs: who is let in, and which connections are paired. Keys are strings, so the
-- `HashMap` of the waiting connections is an association list of its own; times are in seconds. The
-- tasks that run are not part of the state: what a task gives is an argument of its handler.
pub mod Keys
pub mod Waiting
pub mod Joins
use tunshell.Prelude.{
  ℕ, ◌-◌, ◌≡◌, Bool, true, false, List, [], ◌∷◌, ◌++◌, Option, none, some, Outcome, done, panic,
  ◌>>=◌, unwrap, Result, ok, err, ltb, if◌then◌else◌,
}
use tunshell.Shared.Message.{
  ServerMessage, key_accepted, key_rejected, already_joined, ClientMessage, key,
}
use tunshell.Server.Session.{
  Participant, Session, key_eq, other_participant, is_session_valid_to_join,
}
use tunshell.Server.Relay.{Connection, Reply}

pub data KeyError : Type 0 where
  no_address no_key unexpected_key database_failed no_session session_invalid key_reply_failed :
      KeyError

pub record AcceptedConnection : Type 0 where
  pub con : Connection
  pub session : Session

-- What the task of `negotiate_key` meets: the address of the peer, the first message (none where the
-- timeout comes first), the sessions, whether the answer is written, and the clock.
pub record KeyEvents : Type 0 where
  pub remote_ip : Option (List ℕ)
  pub first_message : Option Reply
  pub find_by_key : List ℕ → Result (Option Session) KeyError
  pub written : Bool
  pub now : ℕ

-- `wait_for_key` of the stream.
abbrev pub wait_for_key : Option Reply → Result (List ℕ) KeyError
wait_for_key none = err no_key
wait_for_key (some (err e)) = err no_key
wait_for_key (some (ok (key payload))) = ok payload.key
wait_for_key (some (ok message)) = err unexpected_key

-- What is written to the stream, and what becomes of the connection.
abbrev pub Negotiated : Type 0
Negotiated = List ServerMessage × Result AcceptedConnection KeyError

-- The answer is written, and then the task ends with an error in any case.
abbrev reject : Bool → KeyError → Negotiated
reject true e = (key_rejected ∷ [], err e)
reject false e = ([], err key_reply_failed)

abbrev pub accept_key : ℕ → Bool → List ℕ → List ℕ → Session → Negotiated
accept_key now true ip k session = (
  key_accepted ∷ [],
  ok (record {
    con = record { key = k; connected_at = now; remote_ip = ip; sent = key_accepted ∷ [] };
    session = session;
  }),
)
accept_key now false ip k session = ([], err key_reply_failed)

unfoldable pub check_session : KeyEvents → List ℕ → List ℕ → Option Session → Negotiated
check_session events ip k none = reject events.written no_session
check_session events ip k (some session) =
    if is_session_valid_to_join events.now session k
    then accept_key events.now events.written ip k session
    else reject events.written session_invalid

abbrev pub check_found : KeyEvents → List ℕ → List ℕ → Result (Option Session) KeyError → Negotiated
check_found events ip k (err e) = ([], err e)
check_found events ip k (ok session) = check_session events ip k session

abbrev pub check_key : KeyEvents → List ℕ → Result (List ℕ) KeyError → Negotiated
check_key events ip (err e) = ([], err e)
check_key events ip (ok k) = check_found events ip k (events.find_by_key k)

unfoldable pub negotiate_key : KeyEvents → Negotiated
negotiate_key events = elim events.remote_ip [
  | none ↦ ([], err no_address)
  | some ip ↦ check_key events ip (wait_for_key events.first_message)
]

pub record PairedConnection : Type 0 where
  pub first : Connection
  pub second : Connection
  pub paired_at : ℕ

-- The configuration's `waiting_connection_expiry` and `paired_connection_expiry`, the connections that
-- wait under their keys, those that are paired, and those that were told that they had joined already.
pub record Server : Type 0 where
  pub waiting_expiry : ℕ
  pub paired_expiry : ℕ
  pub waiting : List (List ℕ × Connection)
  pub paired : List PairedConnection
  pub turned_away : List Connection

unfoldable pub lookup_key : List ℕ → List (List ℕ × Connection) → Option Connection
lookup_key k [] = none
lookup_key k ((j, c) ∷ m) = let rest = lookup_key k m in if key_eq j k then some c else rest

unfoldable pub remove_key : List ℕ → List (List ℕ × Connection) → List (List ℕ × Connection)
remove_key k [] = []
remove_key k ((j, c) ∷ m) = let rest = remove_key k m in if key_eq j k then rest else (j, c) ∷ rest

abbrev tell_already_joined : Connection → Connection
tell_already_joined con = record con { sent = con.sent ++ (already_joined ∷ []) }

-- The connection is paired with the peer's, or waits for it.
unfoldable pub pair_or_wait : ℕ → Server → Connection → Participant → Server
pair_or_wait now server con peer = elim (lookup_key peer.key server.waiting) [
  | some other ↦ record server {
    waiting = remove_key peer.key server.waiting;
    paired = server.paired ++ (record { first = con; second = other; paired_at = now } ∷ []);
  }
  | none ↦ record server { waiting = (con.key, con) ∷ remove_key con.key server.waiting }
]

unfoldable pub join : ℕ → Server → AcceptedConnection → Outcome Server
join now server accepted = elim (lookup_key accepted.con.key server.waiting) [
  | some c ↦ done (record server {
    turned_away = server.turned_away ++ (tell_already_joined accepted.con ∷ []);
  })
  | none ↦ do
    peer ← unwrap (other_participant accepted.session accepted.con.key)
    done (pair_or_wait now server accepted.con peer)
]

-- An error is only logged.
unfoldable pub handle_accepted_connection :
    ℕ → Server → Result AcceptedConnection KeyError → Outcome Server
handle_accepted_connection now server (err e) = done server
handle_accepted_connection now server (ok accepted) = join now server accepted

-- A message from a connection that waits, or its end, takes it from the table.
unfoldable pub handle_closed_waiting_connection : Server → List ℕ → Server
handle_closed_waiting_connection server k = record server { waiting = remove_key k server.waiting }

abbrev retain_waiting : ℕ → ℕ → List (List ℕ × Connection) → List (List ℕ × Connection)
retain_waiting now expiry [] = []
retain_waiting now expiry ((k, c) ∷ m) =
    let rest = retain_waiting now expiry m in
    if ltb (now - c.connected_at) expiry then (k, c) ∷ rest else rest

abbrev retain_paired : ℕ → ℕ → List PairedConnection → List PairedConnection
retain_paired now expiry [] = []
retain_paired now expiry (c ∷ cs) =
    let rest = retain_paired now expiry cs in
    if ltb (now - c.paired_at) expiry then c ∷ rest else rest

unfoldable pub clean_expired_connections : ℕ → Server → Server
clean_expired_connections now server = record server {
  waiting = retain_waiting now server.waiting_expiry server.waiting;
  paired = retain_paired now server.paired_expiry server.paired;
}

-- What the `select!` of `start` meets: the task of a new connection gives its result, a connection that
-- waits is closed, or it is time to clean up.
pub data ServerEvent : Type 0 where
  joins : ℕ → KeyEvents → ServerEvent
  leaves : List ℕ → ServerEvent
  cleans : ℕ → ServerEvent

-- The loop of `start`.
unfoldable pub run_server : Server → List ServerEvent → Outcome Server
run_server server [] = done server
run_server server (joins now events ∷ rest) = do
  next ← handle_accepted_connection now server (negotiate_key events).1
  run_server next rest
run_server server (leaves k ∷ rest) = run_server (handle_closed_waiting_connection server k) rest
run_server server (cleans now ∷ rest) = run_server (clean_expired_connections now server) rest

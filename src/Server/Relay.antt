-- ===== src/Server/Relay.antt =====
-- relay/server/relay.rs: the task of two connections that were paired. What the connections give and
-- whether the writes succeed are arguments; where there is no more to read, the timeout of the task
-- ends the wait.
pub mod Told
pub mod Loop
pub mod Control
use tunshell.Prelude.{
  ℕ, Bool, true, false, ◌&&◌, List, [], ◌∷◌, ◌++◌, Option, none, some, Result, ok, err,
  if◌then◌else◌,
}
use tunshell.Shared.Message.{
  ServerMessage, peer_joined, bind_for_direct_connect, attempt_direct_connect, start_relay_mode,
  relay, ClientMessage, client_close, direct_connect_bound, direct_connect_failed,
  direct_connect_succeeded, client_relay, PortBindings, PeerJoinedPayload, RelayPayload,
}

-- The stream is the list of the messages that were written to it.
pub record Connection : Type 0 where
  pub key : List ℕ
  pub connected_at : ℕ
  pub remote_ip : List ℕ
  pub sent : List ServerMessage

pub record Pair : Type 0 where
  pub con1 : Connection
  pub con2 : Connection

pub data RelayError : Type 0 where
  not_written not_read unexpected_message timed_out : RelayError

-- What `next` of a connection's stream gives: a message, or an error.
abbrev pub Reply : Type 0
Reply = Result ClientMessage RelayError

-- Whether the two writes of a `try_join!` succeed.
pub record Writes : Type 0 where
  pub first : Bool
  pub second : Bool

-- Which connection's message is read first in a `select!`.
pub data Side : Type 0 where
  from1 from2 : Side

-- The next message in `relay_loop`, and whether the other connection takes what is written to it.
pub data RelayEvent : Type 0 where
  next_message : Side → Reply → Bool → RelayEvent

-- All that the task meets.
pub record PairEvents : Type 0 where
  pub session_nonce : List ℕ
  pub joined : Writes
  pub bind : Writes
  pub bound : Reply × Reply
  pub attempt : Writes
  pub attempted : Reply × Reply
  pub last : Reply
  pub relay_mode : Writes
  pub relayed : List RelayEvent

abbrev pub write_if : Bool → Connection → ServerMessage → Connection
write_if true con message = record con { sent = con.sent ++ (message ∷ []) }
write_if false con message = con

-- A fallible step of the task, and its chaining by `?`.
abbrev pub Step : Type 0 → Type 0
Step A = Pair × Result A RelayError

infixl 5 ◌>>?◌
abbrev pub ◌>>?◌ : {A B : Type 0} → Step A → (Pair → A → Step B) → Step B
(pair, ok a) >>? k = k pair a
(pair, err e) >>? k = (pair, err e)

-- `try_join!` of two writes.
unfoldable pub write_both : Writes → Pair → ServerMessage → ServerMessage → Step (Unit {0})
write_both writes pair message1 message2 = (
  record {
    con1 = write_if writes.first pair.con1 message1;
    con2 = write_if writes.second pair.con2 message2;
  },
  if writes.first && writes.second then ok tt else err not_written,
)

-- `try_join!` of two reads.
unfoldable pub read_both : Pair → Reply × Reply → Step (ClientMessage × ClientMessage)
read_both pair (err e, reply2) = (pair, err e)
read_both pair (ok message1, err e) = (pair, err e)
read_both pair (ok message1, ok message2) = (pair, ok (message1, message2))

abbrev both_some : Option ℕ → Option ℕ → Bool
both_some (some a) (some b) = true
both_some _ _ = false

unfoldable pub supports_matching_protocols : PortBindings → PortBindings → Bool
supports_matching_protocols ports1 ports2 =
    if both_some ports1.tcp_port ports2.tcp_port
    then true
    else both_some ports1.udp_port ports2.udp_port

-- What the answers to the command to bind say: the ports, a failure, or nothing that is expected.
unfoldable pub bound_ports :
    ClientMessage × ClientMessage → Result (Option (PortBindings × PortBindings)) RelayError
bound_ports (direct_connect_bound ports1, direct_connect_bound ports2) = ok (some (ports1, ports2))
bound_ports (direct_connect_failed, direct_connect_bound ports2) = ok none
bound_ports (direct_connect_bound ports1, direct_connect_failed) = ok none
bound_ports (direct_connect_failed, direct_connect_failed) = ok none
bound_ports _ = err unexpected_message

unfoldable pub connect_result : ClientMessage × ClientMessage → Result Bool RelayError
connect_result (direct_connect_succeeded, direct_connect_succeeded) = ok true
connect_result (direct_connect_failed, direct_connect_failed) = ok false
connect_result _ = err unexpected_message

unfoldable pub command_attempt : PairEvents → Pair → PortBindings → PortBindings → Step Bool
command_attempt events pair ports1 ports2 =
    write_both events.attempt pair (attempt_direct_connect ports2) (attempt_direct_connect ports1)
    >>? (λ p _. read_both p events.attempted)
    >>? λ p messages. (p, connect_result messages)

-- The second half of `attempt_direct_connection`.
unfoldable pub attempt_with_ports : PairEvents → Pair → PortBindings × PortBindings → Step Bool
attempt_with_ports events pair (ports1, ports2) =
    if supports_matching_protocols ports1 ports2
    then command_attempt events pair ports1 ports2
    else (pair, ok false)

abbrev pub attempt_if_bound : PairEvents → Pair → Option (PortBindings × PortBindings) → Step Bool
attempt_if_bound events pair none = (pair, ok false)
attempt_if_bound events pair (some ports) = attempt_with_ports events pair ports

unfoldable pub attempt_direct_connection : PairEvents → Pair → Step Bool
attempt_direct_connection events pair =
    write_both events.bind pair bind_for_direct_connect bind_for_direct_connect
    >>? (λ p _. read_both p events.bound)
    >>? (λ p messages. (p, bound_ports messages))
    >>? attempt_if_bound events

pub data ProxyResult : Type 0 where
  continue closed : ProxyResult

-- `proxy_payload`: the connection `dest`, and the result.
unfoldable pub proxy_payload :
    Reply → Bool → Connection → Connection × Result ProxyResult RelayError
proxy_payload (ok (client_relay payload)) written dest =
    (write_if written dest (relay payload), if written then ok continue else err not_written)
proxy_payload (ok client_close) written dest = (dest, ok closed)
proxy_payload (ok message) written dest = (dest, err unexpected_message)
proxy_payload (err e) written dest = (dest, err e)

unfoldable pub proxy_from : RelayEvent → Pair → Step ProxyResult
proxy_from (next_message from1 reply written) pair =
    let (con2, result) = proxy_payload reply written pair.con2 in
    (record pair { con2 = con2 }, result)
proxy_from (next_message from2 reply written) pair =
    let (con1, result) = proxy_payload reply written pair.con1 in
    (record pair { con1 = con1 }, result)

unfoldable pub relay_loop : Pair → List RelayEvent → Step (Unit {0})
relay_loop pair [] = (pair, err timed_out)
relay_loop pair (event ∷ events) =
    let (pair', result) = proxy_from event pair in
    elim result [
      | ok continue ↦ relay_loop pair' events
      | ok closed ↦ (pair', ok tt)
      | err e ↦ (pair', err e)
    ]

-- The message that ends a direct connection.
abbrev pub end_direct : Reply → Result (Unit {0}) RelayError
end_direct (ok client_close) = ok tt
end_direct (ok message) = err unexpected_message
end_direct (err e) = err e

abbrev pub after_attempt : PairEvents → Pair → Bool → Step (Unit {0})
after_attempt events pair true = (pair, end_direct events.last)
after_attempt events pair false =
    write_both events.relay_mode pair start_relay_mode start_relay_mode >>? λ p _.
    relay_loop p events.relayed

-- What a connection is told of the other one.
abbrev pub joined_payload : List ℕ → Connection → ServerMessage
joined_payload session_nonce con =
    peer_joined (record {
      peer_key = con.key;
      peer_ip_address = con.remote_ip;
      session_nonce = session_nonce;
    })

-- The task of `pair_connections`.
unfoldable pub pair_connections : PairEvents → Pair → Step (Unit {0})
pair_connections events pair =
    write_both events.joined pair (joined_payload events.session_nonce pair.con2)
      (joined_payload events.session_nonce pair.con1)
    >>? (λ p _. attempt_direct_connection events p)
    >>? after_attempt events

-- ===== src/Shell/Network/Peer.antt =====
-- network.rs: `NetworkPeer`, its handlers and `run`. The `HashMap`s are association lists, the channel
-- `tx` is the list of the messages that were sent on it and whether its receiver is still there.
-- The futures that `run` waits for are fields: whose turn it is, and with what result, is an event.
-- A `ConId` is a `u32`, with the wrapping of a release build.
use tunshell.Prelude.{
  ℕ, zero, suc, ◌+◌, Bool, true, false, ◌||◌, List, [], ◌∷◌, ◌++◌, Option, none, some, ◌==◌,
  if◌then◌else◌, length,
}
use tunshell.Prelude.Maps.{lookup, insert}
use tunshell.Prelude.Words.{u32}
use tunshell.Udp.Config.{SocketAddr}
use tunshell.Shell.Proto.{ConId, NetworkMessage}
use tunshell.Shell.Network.{
  NetworkPeerBinding, NetworkPeerConfig, NetworkPeerRole, client, server, SocketError, NetworkError,
  io_failed, channel_closed, ConnectFailure,
}

-- The texts of the notices, which the code formats.
pub data Notice : Type 0 where
  tcp_not_found udp_not_found : ConId → Notice
  tcp_failed : ConId → List ℕ → Notice
  setup_failed : NetworkPeerBinding → NetworkError → Notice

-- tokio's sockets: what `write_all` and `send_to` leave, and the error if they fail; and how texts are
-- formatted.
pub record Sockets (Stream Sender : Type 0) : Type 0 where
  pub write_all : Stream → List ℕ → Stream × Option SocketError
  pub send_to : Sender → List ℕ → SocketAddr → Sender × Option SocketError
  pub error_text : ConnectFailure → List ℕ
  pub notice_text : Notice → List ℕ

-- The receiver is the flag `receiver`, which `run` takes.
pub record UdpBindingState (Sender : Type 0) : Type 0 where
  pub receiver : Bool
  pub sender : Sender
  pub target_addr : SocketAddr
  pub bound_locally : Bool
  pub last_peer_addr : Option SocketAddr
  pub pending_payloads : List (List ℕ)

pub record NetworkPeer (Stream Sender : Type 0) : Type 0 where
  pub config : NetworkPeerConfig
  pub tx : List NetworkMessage
  pub tx_closed : Bool
  pub tcp_listeners : List NetworkPeerBinding
  pub tcp_pending : List (ℕ × Stream)
  pub tcp_pending_writes : List (ℕ × List (List ℕ))
  pub tcp_connections : List (ℕ × Stream)
  pub udp_bindings : List (ℕ × UdpBindingState Sender)
  pub next_con_id : ConId
  pub tcp_reads : List ConId

abbrev pub contains_key : {V : Type 0} → ConId → List (ℕ × V) → Bool
contains_key con_id m = elim (lookup con_id m) [ none ↦ false | some v ↦ true ]

-- `entry(con_id).or_insert_with(Vec::new).push(payload)`.
abbrev pub push_payload : ConId → List ℕ → List (ℕ × List (List ℕ)) → List (ℕ × List (List ℕ))
push_payload con_id payload m = elim (lookup con_id m) [
  | none ↦ insert con_id (payload ∷ []) m
  | some payloads ↦ insert con_id (payloads ++ (payload ∷ [])) m
]

-- The future that is done leaves its set.
unfoldable pub remove_one : ConId → List ConId → List ConId
remove_one con_id [] = []
remove_one con_id (c ∷ cs) = let rest = remove_one con_id cs in if c == con_id then cs else c ∷ rest

-- The `while` of `next_tcp_con_id`, from a number of rounds.
unfoldable pub first_free : ℕ → (ConId → Bool) → ConId → Option ConId
first_free zero taken con_id = none
first_free (suc fuel) taken con_id =
    let rest = first_free fuel taken (u32 (con_id + 2)) in
    if taken con_id then rest else some con_id

abbrev pub first_con_id : NetworkPeerRole → ConId
first_con_id client = 1
first_con_id server = 2

-- A fallible method of the peer, and its chaining by `?`.
abbrev pub Step : Type 0 → Type 0 → Type 0
Step Stream Sender = NetworkPeer Stream Sender × Option NetworkError

abbrev pub io_error : Option SocketError → Option NetworkError
io_error none = none
io_error (some e) = some (io_failed e)

module _ {Stream Sender : Type 0} where
  infixl 5 ◌>>?◌
  abbrev pub ◌>>?◌ :
      Step Stream Sender → (NetworkPeer Stream Sender → Step Stream Sender) → Step Stream Sender
  (peer, none) >>? k = k peer
  (peer, some e) >>? k = (peer, some e)

  unfoldable pub new_peer : NetworkPeerConfig → NetworkPeerRole → NetworkPeer Stream Sender
  new_peer config role = record {
    config = config;
    tx = [];
    tx_closed = false;
    tcp_listeners = [];
    tcp_pending = [];
    tcp_pending_writes = [];
    tcp_connections = [];
    udp_bindings = [];
    next_con_id = first_con_id role;
    tcp_reads = [];
  }

  -- `self.tx.send(…).await?`; it waits where the channel is full.
  unfoldable pub send : NetworkPeer Stream Sender → NetworkMessage → Step Stream Sender
  send peer message =
      if peer.tx_closed
      then (peer, some channel_closed)
      else (record peer { tx = peer.tx ++ (message ∷ []) }, none)

  abbrev pub is_taken : NetworkPeer Stream Sender → ConId → Bool
  is_taken peer con_id =
      contains_key con_id peer.tcp_pending || contains_key con_id peer.tcp_connections

  -- There are as many rounds as ids in use, and one.
  unfoldable pub next_tcp_con_id :
      NetworkPeer Stream Sender → Option (NetworkPeer Stream Sender × ConId)
  next_tcp_con_id peer =
      elim (first_free (suc (length peer.tcp_pending + length peer.tcp_connections)) (is_taken peer)
        peer.next_con_id) [
          | none ↦ none
          | some con_id ↦ some (record peer { next_con_id = u32 (con_id + 2) }, con_id)
        ]

  -- A stream that was written to goes back to the connections.
  abbrev pub store_stream :
      NetworkPeer Stream Sender → ConId → Stream × Option SocketError → Step Stream Sender
  store_stream peer con_id (stream, result) =
      (record peer { tcp_connections = insert con_id stream peer.tcp_connections }, io_error result)

  abbrev pub push_read : NetworkPeer Stream Sender → ConId → Step Stream Sender
  push_read peer con_id = (record peer { tcp_reads = peer.tcp_reads ++ (con_id ∷ []) }, none)

  -- `send_to` of a binding, whose sender goes back.
  abbrev pub store_sender :
      NetworkPeer Stream Sender
      → ConId
      → UdpBindingState Sender
      → Sender × Option SocketError
      → Step Stream Sender
  store_sender peer con_id binding (sender, result) = (
    record peer {
      udp_bindings = insert con_id (record binding { sender = sender }) peer.udp_bindings;
    },
    io_error result,
  )

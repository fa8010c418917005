-- ===== src/Shell/Network/Run.antt =====
-- network.rs: `run` of `NetworkPeer`. Whose turn it is, and with what result, is an event.
use tunshell.Prelude.{
  ℕ, ◌+◌, Bool, true, false, List, [], ◌∷◌, ◌++◌, Option, none, some, Result, ok, err,
}
use tunshell.Prelude.Maps.{insert}
use tunshell.Udp.Config.{SocketAddr}
use tunshell.Shell.Proto.{ConId, NetworkMessage, tcp_connect, notice}
use tunshell.Shell.Network.{
  NetworkPeerBinding, NetworkPeerBindingDirection, local_to_remote, remote_to_local, tcp, udp,
  SocketError, NetworkError, io_failed, Resolver, BindAddr, resolve_socket_addr,
  udp_addr_preference, udp_bind_addr, udp_unspecified_bind_addr,
}
use tunshell.Shell.Network.Peer.{
  setup_failed, Sockets, UdpBindingState, NetworkPeer, Step, ◌>>?◌, send, next_tcp_con_id,
  remove_one,
}
use tunshell.Shell.Network.Handlers.{handle_message, handle_tcp_read, handle_udp_read}

-- What binding a socket gives, and the resolver with the texts that parse as IPv4 addresses.
pub record Binder (Sender : Type 0) : Type 0 where
  pub resolve : Resolver
  pub parses : List ℕ → Bool
  pub bind_listener : List ℕ → ℕ → Option SocketError
  pub bind_socket : BindAddr → Result Sender SocketError

-- What the `select!` of `run` meets: a message, or the end of the messages, with the connections that
-- can be made; a listener's connection; what was read from a connection or from a socket.
pub data PeerEvent (Stream : Type 0) : Type 0 where
  received : (SocketAddr → Result Stream SocketError) → NetworkMessage → PeerEvent Stream
  no_more_messages : PeerEvent Stream
  accepted : NetworkPeerBinding → Result Stream SocketError → PeerEvent Stream
  tcp_read : ConId → Result (List ℕ) SocketError → PeerEvent Stream
  udp_read : ConId → Result (List ℕ × SocketAddr) SocketError → PeerEvent Stream

-- How a turn of the loop ends: the loop goes on, ends, or returns an error.
pub data Turn : Type 0 where
  goes_on finished : Turn
  failed : NetworkError → Turn

abbrev pub turn : {Stream Sender : Type 0} → Step Stream Sender → NetworkPeer Stream Sender × Turn
turn (peer, none) = (peer, goes_on)
turn (peer, some e) = (peer, failed e)

abbrev pub target : Resolver → (List ℕ → Bool) → NetworkPeerBinding → Result SocketAddr NetworkError
target resolve parses binding = elim binding.direction [
  | local_to_remote ↦
      resolve_socket_addr resolve binding.remote_addr binding.remote_port
        (udp_addr_preference parses binding)
  | remote_to_local ↦
      resolve_socket_addr resolve binding.local_addr binding.local_port
        (udp_addr_preference parses binding)
]

abbrev pub bind_addr_of : NetworkPeerBinding → SocketAddr → BindAddr
bind_addr_of binding target_addr = elim binding.direction [
  | local_to_remote ↦ udp_bind_addr binding.local_addr binding.local_port target_addr
  | remote_to_local ↦ udp_unspecified_bind_addr target_addr
]

abbrev is_local : NetworkPeerBindingDirection → Bool
is_local local_to_remote = true
is_local remote_to_local = false

module _ {Stream Sender : Type 0} where
  abbrev pub add_udp :
      NetworkPeer Stream Sender
      → ConId
      → NetworkPeerBinding
      → SocketAddr
      → Sender
      → Step Stream Sender
  add_udp peer con_id binding target_addr sender = (
    record peer {
      udp_bindings =
          insert con_id
            (record {
              receiver = true;
              sender = sender;
              target_addr = target_addr;
              bound_locally = is_local binding.direction;
              last_peer_addr = none;
              pending_payloads = [];
            })
            peer.udp_bindings;
    },
    none,
  )

  unfoldable pub setup_udp :
      Binder Sender → NetworkPeer Stream Sender → ConId → NetworkPeerBinding → Step Stream Sender
  setup_udp binder peer con_id binding = elim (target binder.resolve binder.parses binding) [
    | err e ↦ (peer, some e)
    | ok target_addr ↦ elim (binder.bind_socket (bind_addr_of binding target_addr)) [
      | err e ↦ (peer, some (io_failed e))
      | ok sender ↦ add_udp peer con_id binding target_addr sender
    ]
  ]

  unfoldable pub setup_tcp :
      Binder Sender → NetworkPeer Stream Sender → NetworkPeerBinding → Step Stream Sender
  setup_tcp binder peer binding = elim binding.direction [
    | remote_to_local ↦ (peer, none)
    | local_to_remote ↦ elim (binder.bind_listener binding.local_addr binding.local_port) [
      | some e ↦ (peer, some (io_failed e))
      | none ↦ (record peer { tcp_listeners = peer.tcp_listeners ++ (binding ∷ []) }, none)
    ]
  ]

  unfoldable pub setup_binding :
      Binder Sender → NetworkPeer Stream Sender → ConId → NetworkPeerBinding → Step Stream Sender
  setup_binding binder peer con_id binding = elim binding.protocol [
    | tcp ↦ setup_tcp binder peer binding
    | udp ↦ setup_udp binder peer con_id binding
  ]

  -- The listener's future is pushed again in any case.
  unfoldable pub accept :
      NetworkPeer Stream Sender
      → NetworkPeerBinding
      → Result Stream SocketError
      → Option (Step Stream Sender)
  accept peer binding (err e) = some (peer, none)
  accept peer binding (ok stream) = elim (next_tcp_con_id peer) [
    | none ↦ none
    | some (peer', con_id) ↦ some (
        send (record peer' { tcp_pending = insert con_id stream peer'.tcp_pending })
          (tcp_connect con_id binding.remote_addr binding.remote_port))
  ]

-- The receivers are taken when the loop starts.
abbrev pub take_receivers :
    {Sender : Type 0} → List (ℕ × UdpBindingState Sender) → List (ℕ × UdpBindingState Sender)
take_receivers [] = []
take_receivers ((con_id, binding) ∷ m) =
    (con_id, record binding { receiver = false }) ∷ take_receivers m

module _ {Stream Sender : Type 0} (sockets : Sockets Stream Sender) where
  -- The error of a binding is told to the other peer, and the next one is set up.
  unfoldable pub setup_bindings :
      Binder Sender
      → NetworkPeer Stream Sender
      → ConId
      → List NetworkPeerBinding
      → Step Stream Sender
  setup_bindings binder peer con_id [] = (peer, none)
  setup_bindings binder peer con_id (binding ∷ bindings) =
      let (peer', result) = setup_binding binder peer con_id binding in
      elim result [
        | none ↦ setup_bindings binder peer' (con_id + 1) bindings
        | some e ↦ send peer' (notice (sockets.notice_text (setup_failed binding e))) >>? λ p.
            setup_bindings binder p (con_id + 1) bindings
      ]

  -- One turn of the loop; nothing, where the search for an id is not over.
  unfoldable pub run_event :
      Resolver
      → NetworkPeer Stream Sender
      → PeerEvent Stream
      → Option (NetworkPeer Stream Sender × Turn)
  run_event resolve peer (received connect message) =
      some ((handle_message sockets connect resolve peer message).0, goes_on)
  run_event resolve peer no_more_messages = some (peer, finished)
  run_event resolve peer (accepted binding result) = elim (accept peer binding result) [
    | none ↦ none
    | some step ↦ some (turn step)
  ]
  run_event resolve peer (tcp_read con_id result) = some (
      turn (
        handle_tcp_read (record peer { tcp_reads = remove_one con_id peer.tcp_reads }) con_id
          result))
  run_event resolve peer (udp_read con_id result) =
      some (turn (handle_udp_read sockets peer con_id result))

  -- The loop of `run`, over the events that happen.
  unfoldable pub run_loop :
      Resolver
      → NetworkPeer Stream Sender
      → List (PeerEvent Stream)
      → Option (NetworkPeer Stream Sender × Turn)
  run_loop resolve peer [] = some (peer, goes_on)
  run_loop resolve peer (event ∷ events) = elim (run_event resolve peer event) [
    | none ↦ none
    | some (peer', goes_on) ↦ run_loop resolve peer' events
    | some (peer', finished) ↦ some (peer', finished)
    | some (peer', failed e) ↦ some (peer', failed e)
  ]

  -- `run` after the bindings, unless a notice could not be sent.
  abbrev pub start :
      Binder Sender
      → List (PeerEvent Stream)
      → Step Stream Sender
      → Option (NetworkPeer Stream Sender × Turn)
  start binder events (peer, some e) = some (peer, failed e)
  start binder events (peer, none) =
      run_loop binder.resolve
        (record peer { tcp_listeners = []; udp_bindings = take_receivers peer.udp_bindings }) events

  unfoldable pub run :
      Binder Sender
      → NetworkPeer Stream Sender
      → List (PeerEvent Stream)
      → Option (NetworkPeer Stream Sender × Turn)
  run binder peer events = start binder events (setup_bindings binder peer 1 peer.config.bindings)

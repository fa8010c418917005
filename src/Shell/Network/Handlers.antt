-- ===== src/Shell/Network/Handlers.antt =====
-- network.rs: the handlers of `NetworkPeer`, for a message of the other peer and for what is read.
use tunshell.Prelude.{ℕ, List, [], ◌∷◌, ◌++◌, Option, none, some, Result, ok, err, if◌then◌else◌}
use tunshell.Prelude.Maps.{lookup, remove, insert}
use tunshell.Udp.Config.{SocketAddr}
use tunshell.Shell.Proto.{
  ConId, NetworkMessage, tcp_connect, tcp_connect_result, tcp_send, tcp_recv, tcp_close, udp_send,
  udp_recv, notice,
}
use tunshell.Shell.Network.{SocketError, ConnectFailure, Resolver, connect_socket_addr}
use tunshell.Shell.Network.Peer.{
  Notice, tcp_not_found, udp_not_found, tcp_failed, Sockets, UdpBindingState, NetworkPeer,
  contains_key, push_payload, Step, ◌>>?◌, send, store_stream, push_read, store_sender,
}

module _ {Stream Sender : Type 0} where
  -- The future that was done has left `tcp_reads`.
  unfoldable pub handle_tcp_read :
      NetworkPeer Stream Sender → ConId → Result (List ℕ) SocketError → Step Stream Sender
  handle_tcp_read peer con_id (ok []) =
      send (record peer { tcp_connections = remove con_id peer.tcp_connections }) (tcp_close con_id)
  handle_tcp_read peer con_id (ok (b ∷ bytes)) =
      push_read peer con_id >>? λ p. send p (tcp_send con_id (b ∷ bytes))
  handle_tcp_read peer con_id (err e) =
      send (record peer { tcp_connections = remove con_id peer.tcp_connections }) (tcp_close con_id)

module _ {Stream Sender : Type 0} (sockets : Sockets Stream Sender) where
  -- The payloads are written one after the other, up to the first that fails.
  unfoldable pub write_payloads : Stream → List (List ℕ) → Stream × Option SocketError
  write_payloads stream [] = (stream, none)
  write_payloads stream (payload ∷ payloads) =
      let (stream', result) = sockets.write_all stream payload in
      elim result [ none ↦ write_payloads stream' payloads | some e ↦ (stream', some e) ]

  unfoldable pub send_payloads : Sender → SocketAddr → List (List ℕ) → Sender × Option SocketError
  send_payloads sender addr [] = (sender, none)
  send_payloads sender addr (payload ∷ payloads) =
      let (sender', result) = sockets.send_to sender payload addr in
      elim result [ none ↦ send_payloads sender' addr payloads | some e ↦ (sender', some e) ]

  abbrev notify : NetworkPeer Stream Sender → Notice → Step Stream Sender
  notify peer text = send peer (notice (sockets.notice_text text))

  unfoldable pub activate_tcp_connection :
      NetworkPeer Stream Sender → ConId → Stream → Step Stream Sender
  activate_tcp_connection peer con_id stream =
      let inserted = record peer { tcp_connections = insert con_id stream peer.tcp_connections } in
      elim (lookup con_id peer.tcp_pending_writes) [
        | none ↦ push_read inserted con_id
        | some pending_writes ↦
            store_stream
              (record inserted { tcp_pending_writes = remove con_id peer.tcp_pending_writes })
              con_id (write_payloads stream pending_writes)
            >>? λ p. push_read p con_id
      ]

  unfoldable pub udp_payload_to :
      NetworkPeer Stream Sender → ConId → List ℕ → UdpBindingState Sender → Step Stream Sender
  udp_payload_to peer con_id payload binding =
      if binding.bound_locally
      then elim binding.last_peer_addr [
        | some peer_addr ↦
            store_sender peer con_id binding (sockets.send_to binding.sender payload peer_addr)
        | none ↦ (
          record peer {
            udp_bindings =
                insert con_id
                  (record binding { pending_payloads = binding.pending_payloads ++ (payload ∷ []) })
                  peer.udp_bindings;
          },
          none,
        )
      ]
      else store_sender peer con_id binding
          (sockets.send_to binding.sender payload binding.target_addr)

  unfoldable pub handle_udp_payload :
      NetworkPeer Stream Sender → ConId → List ℕ → Step Stream Sender
  handle_udp_payload peer con_id payload = elim (lookup con_id peer.udp_bindings) [
    | none ↦ notify peer (udp_not_found con_id)
    | some binding ↦ udp_payload_to peer con_id payload binding
  ]

  -- The pending payloads are taken before they are sent.
  unfoldable pub flush_udp :
      NetworkPeer Stream Sender → ConId → SocketAddr → UdpBindingState Sender → Step Stream Sender
  flush_udp peer con_id peer_addr binding =
      if binding.bound_locally
      then store_sender peer con_id
          (record binding { last_peer_addr = some peer_addr; pending_payloads = [] })
          (send_payloads binding.sender peer_addr binding.pending_payloads)
      else (peer, none)

  unfoldable pub handle_udp_read :
      NetworkPeer Stream Sender
      → ConId
      → Result (List ℕ × SocketAddr) SocketError
      → Step Stream Sender
  handle_udp_read peer con_id result = elim (lookup con_id peer.udp_bindings) [
    | none ↦ (peer, none)
    | some binding ↦ elim result [
      | ok (payload, peer_addr) ↦
          flush_udp peer con_id peer_addr binding >>? λ p. send p (udp_send con_id payload)
      | err e ↦ (peer, none)
    ]
  ]

  -- A payload for a connection that is open, or for one that is not yet.
  unfoldable pub handle_tcp_payload :
      NetworkPeer Stream Sender → ConId → List ℕ → Step Stream Sender
  handle_tcp_payload peer con_id payload = elim (lookup con_id peer.tcp_connections) [
    | some stream ↦ store_stream peer con_id (sockets.write_all stream payload)
    | none ↦
        if contains_key con_id peer.tcp_pending
        then (
          record peer { tcp_pending_writes = push_payload con_id payload peer.tcp_pending_writes },
          none,
        )
        else notify peer (tcp_not_found con_id)
  ]

  unfoldable pub handle_connect_result :
      NetworkPeer Stream Sender → ConId → Option (List ℕ) → Step Stream Sender
  handle_connect_result peer con_id error = elim (lookup con_id peer.tcp_pending) [
    | none ↦ (peer, none)
    | some stream ↦
        (let removed = record peer { tcp_pending = remove con_id peer.tcp_pending } in
          elim error [
            | none ↦ activate_tcp_connection removed con_id stream
            | some text ↦
                notify
                  (record removed { tcp_pending_writes = remove con_id peer.tcp_pending_writes })
                  (tcp_failed con_id text)
          ])
  ]

  -- What `connect_socket_addr` gives is an argument.
  unfoldable pub handle_connect :
      NetworkPeer Stream Sender → ConId → Result Stream ConnectFailure → Step Stream Sender
  handle_connect peer con_id (ok stream) =
      activate_tcp_connection peer con_id stream >>? λ p. send p (tcp_connect_result con_id none)
  handle_connect peer con_id (err e) =
      send peer (tcp_connect_result con_id (some (sockets.error_text e)))

  abbrev close_tcp : NetworkPeer Stream Sender → ConId → Step Stream Sender
  close_tcp peer con_id = (
    record peer {
      tcp_pending = remove con_id peer.tcp_pending;
      tcp_pending_writes = remove con_id peer.tcp_pending_writes;
      tcp_connections = remove con_id peer.tcp_connections;
    },
    none,
  )

  unfoldable pub handle_message :
      (SocketAddr → Result Stream SocketError)
      → Resolver
      → NetworkPeer Stream Sender
      → NetworkMessage
      → Step Stream Sender
  handle_message connect resolve peer (tcp_connect con_id addr port) =
      handle_connect peer con_id (connect_socket_addr connect resolve addr port)
  handle_message connect resolve peer (tcp_connect_result con_id error) =
      handle_connect_result peer con_id error
  handle_message connect resolve peer (tcp_send con_id payload) =
      handle_tcp_payload peer con_id payload
  handle_message connect resolve peer (tcp_recv con_id payload) =
      handle_tcp_payload peer con_id payload
  handle_message connect resolve peer (tcp_close con_id) = close_tcp peer con_id
  handle_message connect resolve peer (udp_send con_id payload) =
      handle_udp_payload peer con_id payload
  handle_message connect resolve peer (udp_recv con_id payload) =
      handle_udp_payload peer con_id payload
  handle_message connect resolve peer (notice text) = (peer, none)

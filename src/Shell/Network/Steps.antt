-- ===== src/Shell/Network/Steps.antt =====
-- What any handler leaves of the pending connections: it adds none, and the number of connections
-- grows by a few at most.
use tunshell.Prelude.{
  sym, ap, ℕ, ◌+◌, ◌≡◌, ◌≤◌, ◌∙◌, refl, List, [], ◌∷◌, Option, none, some, Option-cases, inl, inr,
  Bool-cases, arith, Result, ok, err, length,
}
use tunshell.Prelude.Maps.{lookup, remove, insert, length-remove, length-insert, lookup-remove-some}
use tunshell.Udp.Config.{SocketAddr}
use tunshell.Shell.Proto.{
  ConId, NetworkMessage, tcp_connect, tcp_connect_result, tcp_send, tcp_recv, tcp_close, udp_send,
  udp_recv, notice,
}
use tunshell.Shell.Network.{SocketError, ConnectFailure, Resolver, connect_socket_addr}
use tunshell.Shell.Network.Peer.{
  tcp_not_found, tcp_failed, Sockets, UdpBindingState, NetworkPeer, contains_key, Step, ◌>>?◌, send,
  push_read,
}
use tunshell.Shell.Network.Handlers.{
  write_payloads, activate_tcp_connection, udp_payload_to, handle_udp_payload, handle_tcp_payload,
  handle_connect_result, handle_connect, handle_message, handle_tcp_read, handle_udp_read,
  flush_udp,
}

abbrev pub connection_count : {Stream Sender : Type 0} → NetworkPeer Stream Sender → ℕ
connection_count p = length p.tcp_pending + length p.tcp_connections

pub record Steps {Stream Sender : Type 0} (n : ℕ) (p q : NetworkPeer Stream Sender) : Type 0 where
  pub next : q.next_con_id ≡ p.next_con_id
  pub waiting :
      (c : ConId) (s : Stream) → lookup c q.tcp_pending ≡ some s → lookup c p.tcp_pending ≡ some s
  pub count : connection_count q ≤ connection_count p + n

module _ {Stream Sender : Type 0} where
  pub Steps-then :
      (m n : ℕ) (p q r : NetworkPeer Stream Sender) → Steps m p q → Steps n q r → Steps (m + n) p r
  Steps-then m n p q r h k = record {
    next = k.next ∙ h.next;
    waiting = λ c s e. h.waiting c s (k.waiting c s e);
    count = (let a = h.count in let b = k.count in omega arith);
  }

  pub unchanged-Steps :
      (n : ℕ) (p q : NetworkPeer Stream Sender)
      → q.next_con_id ≡ p.next_con_id
      → q.tcp_pending ≡ p.tcp_pending
      → length q.tcp_connections ≤ length p.tcp_connections + n
      → Steps n p q
  unchanged-Steps n p q next e h = record {
    next = next;
    waiting = λ c s k. ap (lookup c) (sym e) ∙ k;
    count = omega (arith, ap length e);
  }

  pub send-Steps : (p : NetworkPeer Stream Sender) (m : NetworkMessage) → Steps 0 p (send p m).0
  unfolding send
  send-Steps p m = elim (Bool-cases p.tx_closed) [
    | inl e ↦ rw e (record { next = refl; waiting = λ c s k. k; count = omega arith })
    | inr e ↦ rw e (record { next = refl; waiting = λ c s k. k; count = omega arith })
  ]

  pub send_after-Steps :
      (n : ℕ) (p : NetworkPeer Stream Sender) (step : Step Stream Sender) (m : NetworkMessage)
      → Steps n p step.0
      → Steps n p (step >>? λ q. send q m).0
  send_after-Steps n p (q, none) m h =
      (let k = Steps-then n 0 p q (send q m).0 h (send-Steps q m) in
        record { next = k.next; waiting = k.waiting; count = (let c = k.count in omega arith) })
  send_after-Steps n p (q, some e) m h = h

  sent-Steps : (p : NetworkPeer Stream Sender) (m : NetworkMessage) → Steps 2 p (send p m).0
  sent-Steps p m = send_after-Steps 2 p (p, none) m (unchanged-Steps 2 p p refl refl (omega arith))

  closed :
      (p : NetworkPeer Stream Sender) (c : ConId)
      → Steps 2 p (send (record p { tcp_connections = remove c p.tcp_connections }) (tcp_close c)).0
  closed p c =
      (let q = record p { tcp_connections = remove c p.tcp_connections } in
        send_after-Steps 2 p (q, none) (tcp_close c)
          (unchanged-Steps 2 p q refl refl (omega (arith, length-remove c p.tcp_connections))))

  pub handle_tcp_read-Steps :
      (p : NetworkPeer Stream Sender) (c : ConId) (result : Result (List ℕ) SocketError)
      → Steps 2 p (handle_tcp_read p c result).0
  unfolding handle_tcp_read
  handle_tcp_read-Steps p c (ok []) = closed p c
  handle_tcp_read-Steps p c (ok (b ∷ bytes)) =
      send_after-Steps 2 p (push_read p c) (tcp_send c (b ∷ bytes))
        (unchanged-Steps 2 p (push_read p c).0 refl refl (omega arith))
  handle_tcp_read-Steps p c (err e) = closed p c

module _ {Stream Sender : Type 0} (sockets : Sockets Stream Sender) where
  udp_payload_to-Steps :
      (p : NetworkPeer Stream Sender) (c : ConId) (payload : List ℕ) (b : UdpBindingState Sender)
      → Steps 2 p (udp_payload_to sockets p c payload b).0
  unfolding udp_payload_to
  udp_payload_to-Steps p c payload b = elim (Bool-cases b.bound_locally) [
    | inr e ↦ rw e (unchanged-Steps 2 p _ refl refl (omega arith))
    | inl e ↦ elim (Option-cases b.last_peer_addr) [
      | inl n ↦ rw (e, n) (unchanged-Steps 2 p _ refl refl (omega arith))
      | inr (a, n) ↦ rw (e, n) (unchanged-Steps 2 p _ refl refl (omega arith))
    ]
  ]

  handle_udp_payload-Steps :
      (p : NetworkPeer Stream Sender) (c : ConId) (payload : List ℕ)
      → Steps 2 p (handle_udp_payload sockets p c payload).0
  unfolding handle_udp_payload
  handle_udp_payload-Steps p c payload = elim (Option-cases (lookup c p.udp_bindings)) [
    | inl e ↦ rw (e, handle_udp_payload) (sent-Steps p (notice _))
    | inr (b, e) ↦ rw (e, handle_udp_payload) (udp_payload_to-Steps p c payload b)
  ]

  flush_udp-Steps :
      (p : NetworkPeer Stream Sender) (c : ConId) (addr : SocketAddr) (b : UdpBindingState Sender)
      → Steps 2 p (flush_udp sockets p c addr b).0
  unfolding flush_udp
  flush_udp-Steps p c addr b = elim (Bool-cases b.bound_locally) [
    | inl e ↦ rw e (unchanged-Steps 2 p _ refl refl (omega arith))
    | inr e ↦ rw e (unchanged-Steps 2 p _ refl refl (omega arith))
  ]

  pub handle_udp_read-Steps :
      (p : NetworkPeer Stream Sender) (c : ConId)
      (result : Result (List ℕ × SocketAddr) SocketError)
      → Steps 2 p (handle_udp_read sockets p c result).0
  unfolding handle_udp_read
  handle_udp_read-Steps p c result = elim (Option-cases (lookup c p.udp_bindings)) [
    | inl e ↦ rw (e, handle_udp_read) (unchanged-Steps 2 p p refl refl (omega arith))
    | inr (b, e) ↦ rw (e, handle_udp_read) (read b result)
  ]
    where
      read :
          (b : UdpBindingState Sender) (result : Result (List ℕ × SocketAddr) SocketError)
          → Steps 2 p
              (elim result as (λ _. Step Stream Sender) [
                | ok (payload, addr) ↦
                    flush_udp sockets p c addr b >>? λ q. send q (udp_send c payload)
                | err e ↦ (p, none)
              ]).0
      read b (ok (payload, addr)) =
          send_after-Steps 2 p (flush_udp sockets p c addr b) (udp_send c payload)
            (flush_udp-Steps p c addr b)
      read b (err e) = unchanged-Steps 2 p p refl refl (omega arith)

  activate_tcp_connection-Steps :
      (p : NetworkPeer Stream Sender) (c : ConId) (s : Stream)
      → Steps 2 p (activate_tcp_connection sockets p c s).0
  unfolding activate_tcp_connection
  activate_tcp_connection-Steps p c s = elim (Option-cases (lookup c p.tcp_pending_writes)) [
    | inl e ↦
        rw (e, activate_tcp_connection)
          (unchanged-Steps 2 p _ refl refl (omega (arith, length-insert c s p.tcp_connections)))
    | inr (ps, e) ↦ elim (Option-cases (write_payloads sockets s ps).1) [
      | inl w ↦
          rw (e, activate_tcp_connection, w)
            (unchanged-Steps 2 p _ refl refl (twice (write_payloads sockets s ps).0))
      | inr (x, w) ↦
          rw (e, activate_tcp_connection, w)
            (unchanged-Steps 2 p _ refl refl (twice (write_payloads sockets s ps).0))
    ]
  ]
    where
      twice :
          (s' : Stream)
          → length (insert c s' (insert c s p.tcp_connections)) ≤ length p.tcp_connections + 2
      twice s' = omega (
        arith,
        length-insert c s p.tcp_connections,
        length-insert c s' (insert c s p.tcp_connections),
      )

  handle_connect-Steps :
      (p : NetworkPeer Stream Sender) (c : ConId) (result : Result Stream ConnectFailure)
      → Steps 2 p (handle_connect sockets p c result).0
  unfolding handle_connect
  handle_connect-Steps p c (err e) =
      sent-Steps p (tcp_connect_result c (some (sockets.error_text e)))
  handle_connect-Steps p c (ok s) =
      send_after-Steps 2 p (activate_tcp_connection sockets p c s) (tcp_connect_result c none)
        (activate_tcp_connection-Steps p c s)

  handle_tcp_payload-Steps :
      (p : NetworkPeer Stream Sender) (c : ConId) (payload : List ℕ)
      → Steps 2 p (handle_tcp_payload sockets p c payload).0
  unfolding handle_tcp_payload
  handle_tcp_payload-Steps p c payload = elim (Option-cases (lookup c p.tcp_connections)) [
    | inr (s, e) ↦
        rw (e, handle_tcp_payload)
          (unchanged-Steps 2 p _ refl refl
            (omega (arith, length-insert c (sockets.write_all s payload).0 p.tcp_connections)))
    | inl e ↦ elim (Bool-cases (contains_key c p.tcp_pending)) [
      | inr f ↦
          rw (e, handle_tcp_payload, f)
            (sent-Steps p (notice (sockets.notice_text (tcp_not_found c))))
      | inl f ↦ rw (e, handle_tcp_payload, f) (unchanged-Steps 2 p _ refl refl (omega arith))
    ]
  ]

  -- A connection leaves the pending ones.
  removed-Steps :
      (n : ℕ) (p q : NetworkPeer Stream Sender) (c : ConId)
      → Steps n (record p { tcp_pending = remove c p.tcp_pending }) q
      → Steps n p q
  removed-Steps n p q c h = record {
    next = h.next;
    waiting = λ d s e. lookup-remove-some c d p.tcp_pending s (h.waiting d s e);
    count = (let k = h.count in omega (arith, length-remove c p.tcp_pending));
  }

  handle_connect_result-Steps :
      (p : NetworkPeer Stream Sender) (c : ConId) (error : Option (List ℕ))
      → Steps 2 p (handle_connect_result sockets p c error).0
  unfolding handle_connect_result
  handle_connect_result-Steps p c error = elim (Option-cases (lookup c p.tcp_pending)) [
    | inl e ↦ rw (e, handle_connect_result) (unchanged-Steps 2 p p refl refl (omega arith))
    | inr (s, e) ↦ rw (e, handle_connect_result) (settled error s)
  ]
    where
      removed : NetworkPeer Stream Sender
      removed = record p { tcp_pending = remove c p.tcp_pending }

      settled :
          (error : Option (List ℕ)) (s : Stream)
          → Steps 2 p
              (elim error as (λ _. Step Stream Sender) [
                | none ↦ activate_tcp_connection sockets removed c s
                | some text ↦
                    send
                      (record removed { tcp_pending_writes = remove c p.tcp_pending_writes })
                      (notice (sockets.notice_text (tcp_failed c text)))
              ]).0
      settled none s =
          removed-Steps 2 p (activate_tcp_connection sockets removed c s).0 c
            (activate_tcp_connection-Steps removed c s)
      settled (some text) s =
          let dropped = record removed { tcp_pending_writes = remove c p.tcp_pending_writes } in
          let note = notice (sockets.notice_text (tcp_failed c text)) in
          removed-Steps 2 p (send dropped note).0 c (
            send_after-Steps 2 removed (dropped, none) note
              (unchanged-Steps 2 removed dropped refl refl (omega arith)))

  pub handle_message-Steps :
      (connect : SocketAddr → Result Stream SocketError) (resolve : Resolver)
      (p : NetworkPeer Stream Sender) (m : NetworkMessage)
      → Steps 2 p (handle_message sockets connect resolve p m).0
  unfolding handle_message
  handle_message-Steps connect resolve p (tcp_connect c addr port) =
      handle_connect-Steps p c (connect_socket_addr connect resolve addr port)
  handle_message-Steps connect resolve p (tcp_connect_result c error) =
      handle_connect_result-Steps p c error
  handle_message-Steps connect resolve p (tcp_send c payload) = handle_tcp_payload-Steps p c payload
  handle_message-Steps connect resolve p (tcp_recv c payload) = handle_tcp_payload-Steps p c payload
  handle_message-Steps connect resolve p (tcp_close c) =
      removed-Steps 2 p _ c
        (unchanged-Steps 2 _ _ refl refl (omega (arith, length-remove c p.tcp_connections)))
  handle_message-Steps connect resolve p (udp_send c payload) = handle_udp_payload-Steps p c payload
  handle_message-Steps connect resolve p (udp_recv c payload) = handle_udp_payload-Steps p c payload
  handle_message-Steps connect resolve p (notice text) =
      unchanged-Steps 2 p p refl refl (omega arith)

-- ===== src/Shell/Network/Agrees.antt =====
-- What a handler does for one TCP connection leaves the others alone.
use tunshell.Prelude.{
  ℕ, ◌≡◌, ◌≢◌, ◌∙◌, refl, inl, inr, List, [], ◌∷◌, ◌++◌, Option, none, some, Option-cases,
  Bool-cases, Result, ok, err,
}
use tunshell.Prelude.Maps.{lookup, remove, insert, lookup-insert_other, lookup-remove_other}
use tunshell.Shell.Proto.{ConId, NetworkMessage, tcp_connect_result, notice}
use tunshell.Shell.Network.{ConnectFailure}
use tunshell.Shell.Network.Peer.{
  tcp_not_found, tcp_failed, Sockets, UdpBindingState, NetworkPeer, contains_key, Step, ◌>>?◌, send,
}
use tunshell.Shell.Network.Handlers.{
  write_payloads, activate_tcp_connection, udp_payload_to, handle_udp_payload, handle_tcp_payload,
  handle_connect_result, handle_connect,
}

-- The two peers agree about a connection.
pub record Agrees {Stream Sender : Type 0} (con_id : ConId) (p q : NetworkPeer Stream Sender)
    : Type 0 where
  pub connections : lookup con_id q.tcp_connections ≡ lookup con_id p.tcp_connections
  pub waiting : lookup con_id q.tcp_pending ≡ lookup con_id p.tcp_pending
  pub writes : lookup con_id q.tcp_pending_writes ≡ lookup con_id p.tcp_pending_writes

module _ {Stream Sender : Type 0} (con_id : ConId) where
  pub Agrees-then :
      (p q r : NetworkPeer Stream Sender)
      → Agrees con_id p q
      → Agrees con_id q r
      → Agrees con_id p r
  Agrees-then p q r h k = record {
    connections = k.connections ∙ h.connections;
    waiting = k.waiting ∙ h.waiting;
    writes = k.writes ∙ h.writes;
  }

  pub send-Agrees :
      (p : NetworkPeer Stream Sender) (m : NetworkMessage) → Agrees con_id p (send p m).0
  unfolding send
  send-Agrees p m = elim (Bool-cases p.tx_closed) [
    | inl e ↦ rw e (record { connections = refl; waiting = refl; writes = refl })
    | inr e ↦ rw e (record { connections = refl; waiting = refl; writes = refl })
  ]

module _ {Stream Sender : Type 0} (sockets : Sockets Stream Sender) (con_id : ConId) where
  udp_payload_to-Agrees :
      (p : NetworkPeer Stream Sender) (c : ConId) (payload : List ℕ) (b : UdpBindingState Sender)
      → Agrees con_id p (udp_payload_to sockets p c payload b).0
  unfolding udp_payload_to
  udp_payload_to-Agrees p c payload b = elim (Bool-cases b.bound_locally) [
    | inr e ↦ rw e (record { connections = refl; waiting = refl; writes = refl })
    | inl e ↦ elim (Option-cases b.last_peer_addr) [
      | inl n ↦ rw (e, n) (record { connections = refl; waiting = refl; writes = refl })
      | inr (a, n) ↦ rw (e, n) (record { connections = refl; waiting = refl; writes = refl })
    ]
  ]

  pub handle_udp_payload-Agrees :
      (p : NetworkPeer Stream Sender) (c : ConId) (payload : List ℕ)
      → Agrees con_id p (handle_udp_payload sockets p c payload).0
  unfolding handle_udp_payload
  handle_udp_payload-Agrees p c payload = elim (Option-cases (lookup c p.udp_bindings)) [
    | inl e ↦ rw (e, handle_udp_payload) (send-Agrees con_id p (notice _))
    | inr (b, e) ↦ rw (e, handle_udp_payload) (udp_payload_to-Agrees p c payload b)
  ]

  -- Another connection becomes active.
  activate_tcp_connection-Agrees :
      (p : NetworkPeer Stream Sender) (c : ConId) (s : Stream)
      → c ≢ con_id
      → Agrees con_id p (activate_tcp_connection sockets p c s).0
  unfolding activate_tcp_connection
  activate_tcp_connection-Agrees p c s n = elim (Option-cases (lookup c p.tcp_pending_writes)) [
    | inl e ↦
        rw (e, activate_tcp_connection)
          (record {
            connections = lookup-insert_other c con_id s p.tcp_connections n;
            waiting = refl;
            writes = refl;
          })
    | inr (ps, e) ↦ elim (Option-cases (write_payloads sockets s ps).1) [
      | inl w ↦
          rw (e, activate_tcp_connection, w)
            (flushed (write_payloads sockets s ps).0 (p.tcp_reads ++ (c ∷ [])))
      | inr (x, w) ↦
          rw (e, activate_tcp_connection, w) (flushed (write_payloads sockets s ps).0 p.tcp_reads)
    ]
  ]
    where
      flushed :
          (s' : Stream) (reads : List ConId)
          → Agrees con_id p (record p {
            tcp_connections = insert c s' (insert c s p.tcp_connections);
            tcp_pending_writes = remove c p.tcp_pending_writes;
            tcp_reads = reads;
          })
      flushed s' reads = record {
        connections =
            lookup-insert_other c con_id s' (insert c s p.tcp_connections) n
            ∙ lookup-insert_other c con_id s p.tcp_connections n;
        waiting = refl;
        writes = lookup-remove_other c con_id p.tcp_pending_writes n;
      }

  pub handle_connect-Agrees :
      (p : NetworkPeer Stream Sender) (c : ConId) (result : Result Stream ConnectFailure)
      → c ≢ con_id
      → Agrees con_id p (handle_connect sockets p c result).0
  unfolding handle_connect
  handle_connect-Agrees p c (err e) n =
      send-Agrees con_id p (tcp_connect_result c (some (sockets.error_text e)))
  handle_connect-Agrees p c (ok s) n =
      sent (activate_tcp_connection sockets p c s) (activate_tcp_connection-Agrees p c s n)
    where
      sent :
          (step : Step Stream Sender)
          → Agrees con_id p step.0
          → Agrees con_id p (step >>? λ q. send q (tcp_connect_result c none)).0
      sent (q, none) h =
          Agrees-then con_id p q (send q (tcp_connect_result c none)).0 h
            (send-Agrees con_id q (tcp_connect_result c none))
      sent (q, some e) h = h

  pub handle_tcp_payload-Agrees :
      (p : NetworkPeer Stream Sender) (c : ConId) (payload : List ℕ)
      → c ≢ con_id
      → Agrees con_id p (handle_tcp_payload sockets p c payload).0
  unfolding handle_tcp_payload
  handle_tcp_payload-Agrees p c payload n = elim (Option-cases (lookup c p.tcp_connections)) [
    | inr (s, e) ↦
        rw (e, handle_tcp_payload)
          (record {
            connections =
                lookup-insert_other c con_id (sockets.write_all s payload).0 p.tcp_connections n;
            waiting = refl;
            writes = refl;
          })
    | inl e ↦ elim (Bool-cases (contains_key c p.tcp_pending)) [
      | inr f ↦
          rw (e, handle_tcp_payload, f)
            (send-Agrees con_id p (notice (sockets.notice_text (tcp_not_found c))))
      | inl f ↦
          rw (e, handle_tcp_payload, f)
            (record {
              connections = refl;
              waiting = refl;
              writes = pushed (lookup c p.tcp_pending_writes);
            })
    ]
  ]
    where
      pushed :
          (o : Option (List (List ℕ)))
          → lookup con_id (elim o [
            | none ↦ insert c (payload ∷ []) p.tcp_pending_writes
            | some ps ↦ insert c (ps ++ (payload ∷ [])) p.tcp_pending_writes
          ])
            ≡ lookup con_id p.tcp_pending_writes
      pushed none = lookup-insert_other c con_id (payload ∷ []) p.tcp_pending_writes n
      pushed (some ps) = lookup-insert_other c con_id (ps ++ (payload ∷ [])) p.tcp_pending_writes n

  pub handle_connect_result-Agrees :
      (p : NetworkPeer Stream Sender) (c : ConId) (error : Option (List ℕ))
      → c ≢ con_id
      → Agrees con_id p (handle_connect_result sockets p c error).0
  unfolding handle_connect_result
  handle_connect_result-Agrees p c error n = elim (Option-cases (lookup c p.tcp_pending)) [
    | inl e ↦
        rw (e, handle_connect_result) (record { connections = refl; waiting = refl; writes = refl })
    | inr (s, e) ↦ rw (e, handle_connect_result) (settled error s)
  ]
    where
      removed : NetworkPeer Stream Sender
      removed = record p { tcp_pending = remove c p.tcp_pending }

      settled :
          (error : Option (List ℕ)) (s : Stream)
          → Agrees con_id p
              (elim error as (λ _. Step Stream Sender) [
                | none ↦ activate_tcp_connection sockets removed c s
                | some text ↦
                    send
                      (record removed { tcp_pending_writes = remove c p.tcp_pending_writes })
                      (notice (sockets.notice_text (tcp_failed c text)))
              ]).0
      settled none s =
          Agrees-then con_id p removed (activate_tcp_connection sockets removed c s).0
            (record {
              connections = refl;
              waiting = lookup-remove_other c con_id p.tcp_pending n;
              writes = refl;
            })
            (activate_tcp_connection-Agrees removed c s n)
      settled (some text) s =
          let dropped = record removed { tcp_pending_writes = remove c p.tcp_pending_writes } in
          Agrees-then con_id p dropped
            (send dropped (notice (sockets.notice_text (tcp_failed c text)))).0
            (record {
              connections = refl;
              waiting = lookup-remove_other c con_id p.tcp_pending n;
              writes = lookup-remove_other c con_id p.tcp_pending_writes n;
            })
            (send-Agrees con_id dropped (notice (sockets.notice_text (tcp_failed c text))))

-- ===== src/Shell/Network/Tcp.antt =====
-- The bytes of one TCP connection: none is lost and none overtakes another while it is established.
use tunshell.Prelude.{
  ==_cases, subst, ℕ, ◌≡◌, ◌≢◌, ◌∙◌, sym, ap, refl, true, ◌⊎◌, inl, inr, List, [], ◌∷◌, ◌++◌,
  append_assoc, append-nil, Option, none, some, Option-cases, ◌==◌, Result, if◌then◌else◌,
}
use tunshell.Prelude.Maps.{
  lookup, remove, insert, lookup-insert_same, lookup-remove_same, lookup-remove_other,
}
use tunshell.Udp.Config.{SocketAddr}
use tunshell.Shell.Proto.{
  ConId, NetworkMessage, tcp_connect, tcp_connect_result, tcp_send, tcp_recv, tcp_close, udp_send,
  udp_recv, notice,
}
use tunshell.Shell.Network.{SocketError, Resolver, connect_socket_addr}
use tunshell.Shell.Network.Peer.{Sockets, NetworkPeer, contains_key, push_payload}
use tunshell.Shell.Network.Handlers.{
  write_payloads, activate_tcp_connection, handle_udp_payload, handle_tcp_payload,
  handle_connect_result, handle_message,
}
use tunshell.Shell.Network.Agrees.{
  Agrees, handle_udp_payload-Agrees, handle_connect-Agrees, handle_tcp_payload-Agrees,
  handle_connect_result-Agrees,
}

abbrev pub concat : List (List ℕ) → List ℕ
concat [] = []
concat (payload ∷ payloads) = payload ++ concat payloads

concat-append : (ps qs : List (List ℕ)) → concat (ps ++ qs) ≡ concat ps ++ concat qs
concat-append [] qs = refl
concat-append (p ∷ ps) qs =
    ap (λ z. p ++ z) (concat-append ps qs) ∙ sym (append_assoc p (concat ps) (concat qs))

abbrev queued : Option (List (List ℕ)) → List ℕ
queued none = []
queued (some payloads) = concat payloads

-- The other peer's messages that neither open nor end this connection; that it was established does not
-- end it.
abbrev pub IsKept : ConId → NetworkMessage → Type 0
IsKept con_id (tcp_connect c addr port) = c ≢ con_id
IsKept con_id (tcp_connect_result c (some error)) = c ≢ con_id
IsKept con_id (tcp_close c) = c ≢ con_id
IsKept con_id _ = Unit {0}

-- The bytes that a message has for the connection.
abbrev pub payload_for : ConId → NetworkMessage → List ℕ
payload_for con_id (tcp_send c payload) = if c == con_id then payload else []
payload_for con_id (tcp_recv c payload) = if c == con_id then payload else []
payload_for con_id _ = []

abbrev pub payloads_for : ConId → List NetworkMessage → List ℕ
payloads_for con_id [] = []
payloads_for con_id (m ∷ ms) = payload_for con_id m ++ payloads_for con_id ms

abbrev pub AllKept : ConId → List NetworkMessage → Type 0
AllKept con_id [] = Unit {0}
AllKept con_id (m ∷ ms) = IsKept con_id m × AllKept con_id ms

contains_key-some :
    {V : Type 0} (c : ConId) (m : List (ℕ × V)) (v : V)
    → lookup c m ≡ some v
    → contains_key c m ≡ true
contains_key-some c m v h = rw (h, contains_key) refl

queued-push_payload :
    (c : ConId) (payload : List ℕ) (m : List (ℕ × List (List ℕ)))
    → queued (lookup c (push_payload c payload m)) ≡ queued (lookup c m) ++ payload
queued-push_payload c payload m = pushed (lookup c m)
  where
    pushed :
        (o : Option (List (List ℕ)))
        → queued (
            lookup c (elim o as (λ _. List (ℕ × List (List ℕ))) [
              | none ↦ insert c (payload ∷ []) m
              | some ps ↦ insert c (ps ++ (payload ∷ [])) m
            ]))
          ≡ queued o ++ payload
    pushed none = rw (lookup-insert_same c (payload ∷ []) m) (append-nil payload)
    pushed (some ps) =
        rw (lookup-insert_same c (ps ++ (payload ∷ [])) m)
          (concat-append ps (payload ∷ []) ∙ ap (λ z. concat ps ++ z) (append-nil payload))

module _ {Stream Sender : Type 0} (sockets : Sockets Stream Sender)
    (written : Stream → List ℕ) where
  -- Streams on which every write succeeds, and adds its bytes to those that were written.
  abbrev pub IsWriting : Type 0
  IsWriting =
      (s : Stream) (bytes : List ℕ)
      → ((sockets.write_all s bytes).1 ≡ none)
        × (written (sockets.write_all s bytes).0 ≡ written s ++ bytes)

  -- The bytes that were written for a connection or wait for it. A connection is open or pending.
  abbrev view : Option Stream → Option Stream → Option (List (List ℕ)) → Option (List ℕ)
  view (some s) (some t) writes = none
  view (some s) none writes = some (written s)
  view none (some s) writes = some (written s ++ queued writes)
  view none none writes = none

  view_cases :
      (a b : Option Stream) (w : Option (List (List ℕ))) (v : List ℕ)
      → view a b w ≡ some v
      → ((s : Stream) × (a ≡ some s) × (b ≡ none) × (written s ≡ v))
        ⊎ ((s : Stream) × (a ≡ none) × (b ≡ some s) × (written s ++ queued w ≡ v))
  view_cases (some s) (some t) w v h = cc
  view_cases (some s) none w v h = inl (s, refl, refl, cc)
  view_cases none (some s) w v h = inr (s, refl, refl, cc)
  view_cases none none w v h = cc

  abbrev pub bytes_of : ConId → NetworkPeer Stream Sender → Option (List ℕ)
  bytes_of con_id peer =
      view (lookup con_id peer.tcp_connections) (lookup con_id peer.tcp_pending)
        (lookup con_id peer.tcp_pending_writes)

  -- The loop of `run` on these messages, where errors are only logged.
  abbrev pub receive_all :
      (SocketAddr → Result Stream SocketError)
      → Resolver
      → NetworkPeer Stream Sender
      → List NetworkMessage
      → NetworkPeer Stream Sender
  receive_all connect resolve peer [] = peer
  receive_all connect resolve peer (m ∷ ms) =
      receive_all connect resolve (handle_message sockets connect resolve peer m).0 ms

  Agrees-bytes_of :
      (con_id : ConId) (p q : NetworkPeer Stream Sender)
      → Agrees con_id p q
      → bytes_of con_id q ≡ bytes_of con_id p
  Agrees-bytes_of con_id p q h = rw (h.connections, h.waiting, h.writes) refl

  module _ (writing : IsWriting) where
    write_payloads-written :
        (s : Stream) (payloads : List (List ℕ))
        → ((write_payloads sockets s payloads).1 ≡ none)
          × (written (write_payloads sockets s payloads).0 ≡ written s ++ concat payloads)
    unfolding write_payloads
    write_payloads-written s [] = (refl, sym (append-nil (written s)))
    write_payloads-written s (payload ∷ payloads) =
        let (fine, added) = writing s payload in
        let (fine', added') = write_payloads-written (sockets.write_all s payload).0 payloads in
        rw (fine, write_payloads)
          (
            fine',
            added'
                ∙ ap (λ z. z ++ concat payloads) added
                ∙ append_assoc (written s) payload (concat payloads),
          )

    -- A pending connection whose stream leaves `tcp_pending` is opened with all that waited.
    activate-bytes_of :
        (con_id : ConId) (p : NetworkPeer Stream Sender) (s : Stream)
        → lookup con_id p.tcp_pending ≡ none
        → bytes_of con_id (activate_tcp_connection sockets p con_id s).0
          ≡ some (written s ++ queued (lookup con_id p.tcp_pending_writes))
    unfolding activate_tcp_connection
    activate-bytes_of con_id p s free = elim (Option-cases (lookup con_id p.tcp_pending_writes)) [
      | inl e ↦
          rw (e, activate_tcp_connection, free, lookup-insert_same con_id s p.tcp_connections)
            (ap some (sym (append-nil (written s))))
      | inr (ps, e) ↦
          (let (fine, added) = write_payloads-written s ps in
            let s' = (write_payloads sockets s ps).0 in
            rw
              (
                e,
                activate_tcp_connection,
                fine,
                free,
                lookup-insert_same con_id s' (insert con_id s p.tcp_connections),
              )
              (ap some added))
    ]

    payload-bytes_of :
        (con_id : ConId) (p : NetworkPeer Stream Sender) (payload v : List ℕ)
        → bytes_of con_id p ≡ some v
        → bytes_of con_id (handle_tcp_payload sockets p con_id payload).0 ≡ some (v ++ payload)
    unfolding handle_tcp_payload
    payload-bytes_of con_id p payload v h =
        elim (view_cases (lookup con_id p.tcp_connections) (lookup con_id p.tcp_pending)
          (lookup con_id p.tcp_pending_writes) v h) [
            | inl (s, a, b, e) ↦
                rw
                  (
                    a,
                    handle_tcp_payload,
                    b,
                    lookup-insert_same con_id (sockets.write_all s payload).0 p.tcp_connections,
                  )
                  (ap some ((writing s payload).1 ∙ ap (λ z. z ++ payload) e))
            | inr (s, a, b, e) ↦
                rw (a, handle_tcp_payload, contains_key-some con_id p.tcp_pending s b, a, b)
                  (ap some (waits s e))
          ]
      where
        waits :
            (s : Stream)
            → written s ++ queued (lookup con_id p.tcp_pending_writes) ≡ v
            → written s ++ queued (lookup con_id (push_payload con_id payload p.tcp_pending_writes))
              ≡ v ++ payload
        waits s e =
            ap (λ z. written s ++ z) (queued-push_payload con_id payload p.tcp_pending_writes)
            ∙ sym (append_assoc (written s) (queued (lookup con_id p.tcp_pending_writes)) payload)
            ∙ ap (λ z. z ++ payload) e

    established-bytes_of :
        (con_id : ConId) (p : NetworkPeer Stream Sender) (v : List ℕ)
        → bytes_of con_id p ≡ some v
        → bytes_of con_id (handle_connect_result sockets p con_id none).0 ≡ some v
    unfolding handle_connect_result
    established-bytes_of con_id p v h =
        elim (view_cases (lookup con_id p.tcp_connections) (lookup con_id p.tcp_pending)
          (lookup con_id p.tcp_pending_writes) v h) [
            | inl (s, a, b, e) ↦ rw (b, handle_connect_result, a, b) (ap some e)
            | inr (s, a, b, e) ↦
                rw (b, handle_connect_result)
                  (activate-bytes_of con_id (record p { tcp_pending = remove con_id p.tcp_pending })
                      s (lookup-remove_same con_id p.tcp_pending)
                    ∙ ap some e)
          ]

    kept :
        (con_id : ConId) (p q : NetworkPeer Stream Sender) (v : List ℕ)
        → bytes_of con_id p ≡ some v
        → Agrees con_id p q
        → bytes_of con_id q ≡ some (v ++ [])
    kept con_id p q v h agrees =
        Agrees-bytes_of con_id p q agrees ∙ h ∙ ap some (sym (append-nil v))

    any_payload-bytes_of :
        (con_id c : ConId) (p : NetworkPeer Stream Sender) (payload v : List ℕ)
        → bytes_of con_id p ≡ some v
        → bytes_of con_id (handle_tcp_payload sockets p c payload).0
          ≡ some (v ++ (if c == con_id then payload else []))
    any_payload-bytes_of con_id c p payload v h = elim (==_cases c con_id) [
      | inl (same, e) ↦ rw e (
          subst
            (λ k. bytes_of con_id (handle_tcp_payload sockets p k payload).0 ≡ some (v ++ payload))
            (sym same) (payload-bytes_of con_id p payload v h))
      | inr (other, e) ↦ rw e (
          kept con_id p (handle_tcp_payload sockets p c payload).0 v h
            (handle_tcp_payload-Agrees sockets con_id p c payload other))
    ]

    any_established-bytes_of :
        (con_id c : ConId) (p : NetworkPeer Stream Sender) (v : List ℕ)
        → bytes_of con_id p ≡ some v
        → bytes_of con_id (handle_connect_result sockets p c none).0 ≡ some (v ++ [])
    any_established-bytes_of con_id c p v h = elim (==_cases c con_id) [
      | inl (same, e) ↦
          subst (λ k. bytes_of con_id (handle_connect_result sockets p k none).0 ≡ some (v ++ []))
            (sym same) (established-bytes_of con_id p v h ∙ ap some (sym (append-nil v)))
      | inr (other, e) ↦
          kept con_id p (handle_connect_result sockets p c none).0 v h
            (handle_connect_result-Agrees sockets con_id p c none other)
    ]

    handle_message-bytes_of :
        (con_id : ConId) (connect : SocketAddr → Result Stream SocketError) (resolve : Resolver)
        (p : NetworkPeer Stream Sender) (m : NetworkMessage) (v : List ℕ)
        → IsKept con_id m
        → bytes_of con_id p ≡ some v
        → bytes_of con_id (handle_message sockets connect resolve p m).0
          ≡ some (v ++ payload_for con_id m)
    unfolding handle_message
    handle_message-bytes_of con_id connect resolve p (tcp_connect c addr port) v k h =
        kept con_id p (handle_message sockets connect resolve p (tcp_connect c addr port)).0 v h (
          handle_connect-Agrees sockets con_id p c (connect_socket_addr connect resolve addr port)
            k)
    handle_message-bytes_of con_id connect resolve p (tcp_connect_result c none) v k h =
        any_established-bytes_of con_id c p v h
    handle_message-bytes_of con_id connect resolve p (tcp_connect_result c (some error)) v k h =
        kept con_id p (handle_connect_result sockets p c (some error)).0 v h
          (handle_connect_result-Agrees sockets con_id p c (some error) k)
    handle_message-bytes_of con_id connect resolve p (tcp_send c payload) v k h =
        any_payload-bytes_of con_id c p payload v h
    handle_message-bytes_of con_id connect resolve p (tcp_recv c payload) v k h =
        any_payload-bytes_of con_id c p payload v h
    handle_message-bytes_of con_id connect resolve p (tcp_close c) v k h =
        kept con_id p (handle_message sockets connect resolve p (tcp_close c)).0 v h (record {
          connections = lookup-remove_other c con_id p.tcp_connections k;
          waiting = lookup-remove_other c con_id p.tcp_pending k;
          writes = lookup-remove_other c con_id p.tcp_pending_writes k;
        })
    handle_message-bytes_of con_id connect resolve p (udp_send c payload) v k h =
        kept con_id p (handle_udp_payload sockets p c payload).0 v h
          (handle_udp_payload-Agrees sockets con_id p c payload)
    handle_message-bytes_of con_id connect resolve p (udp_recv c payload) v k h =
        kept con_id p (handle_udp_payload sockets p c payload).0 v h
          (handle_udp_payload-Agrees sockets con_id p c payload)
    handle_message-bytes_of con_id connect resolve p (notice text) v k h =
        kept con_id p p v h (record { connections = refl; waiting = refl; writes = refl })

    -- On streams whose writes succeed, whatever messages of the other peer arrive that neither open nor
    -- end a connection which is pending or open here (that it was established may be among them): what
    -- was written for it, followed by what waits, is what it was before, followed by the payloads of
    -- the messages for it, in their order.
    pub receive_all-bytes_of :
        (con_id : ConId) (connect : SocketAddr → Result Stream SocketError) (resolve : Resolver)
        (p : NetworkPeer Stream Sender) (ms : List NetworkMessage) (v : List ℕ)
        → AllKept con_id ms
        → bytes_of con_id p ≡ some v
        → bytes_of con_id (receive_all connect resolve p ms) ≡ some (v ++ payloads_for con_id ms)
    receive_all-bytes_of con_id connect resolve p [] v k h = h ∙ ap some (sym (append-nil v))
    receive_all-bytes_of con_id connect resolve p (m ∷ ms) v k h =
        receive_all-bytes_of con_id connect resolve (handle_message sockets connect resolve p m).0
          ms (v ++ payload_for con_id m) k.1
          (handle_message-bytes_of con_id connect resolve p m v k.0 h)
        ∙ ap some (append_assoc v (payload_for con_id m) (payloads_for con_id ms))

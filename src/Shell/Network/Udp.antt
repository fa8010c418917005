-- ===== src/Shell/Network/Udp.antt =====
-- The datagrams for a program that sends from a port of its own: they wait until it is known where it
-- is, and none is lost.
use tunshell.Prelude.{
  subst, sym, ap, ℕ, inl, inr, Bool-cases, ◌≡◌, ◌∙◌, refl, Bool, true, false, List, [], ◌∷◌, ◌++◌,
  append-nil, append_assoc, none, some, Result, ok, err,
}
use tunshell.Prelude.Maps.{lookup, insert, lookup-insert_same}
use tunshell.Udp.Config.{SocketAddr}
use tunshell.Shell.Proto.{ConId, NetworkMessage, udp_send}
use tunshell.Shell.Network.{SocketError}
use tunshell.Shell.Network.Peer.{Sockets, UdpBindingState, NetworkPeer, send}
use tunshell.Shell.Network.Handlers.{
  send_payloads, udp_payload_to, handle_udp_payload, flush_udp, handle_udp_read,
}

-- What happens to a binding: a payload of the other peer, or something is read from the socket.
pub data UdpOp : Type 0 where
  to_binding : List ℕ → UdpOp
  from_socket : Result (List ℕ × SocketAddr) SocketError → UdpOp

abbrev pub payloads_in : List UdpOp → List (List ℕ)
payloads_in [] = []
payloads_in (to_binding payload ∷ ops) = payload ∷ payloads_in ops
payloads_in (from_socket result ∷ ops) = payloads_in ops

-- Whether something was read from the socket.
abbrev pub is_known : Bool → List UdpOp → Bool
is_known known [] = known
is_known known (to_binding payload ∷ ops) = is_known known ops
is_known known (from_socket (ok read) ∷ ops) = is_known true ops
is_known known (from_socket (err e) ∷ ops) = is_known known ops

module _ {Stream Sender : Type 0} (sockets : Sockets Stream Sender)
    (sent : Sender → List (List ℕ)) where
  -- Sockets on which every datagram is sent.
  abbrev pub IsSending : Type 0
  IsSending =
      (s : Sender) (payload : List ℕ) (addr : SocketAddr)
      → ((sockets.send_to s payload addr).1 ≡ none)
        × (sent (sockets.send_to s payload addr).0 ≡ sent s ++ (payload ∷ []))

  -- The calls in order; the loop of `run` ends with an error, which the state shows no more.
  unfoldable pub run_udp :
      ConId → NetworkPeer Stream Sender → List UdpOp → NetworkPeer Stream Sender
  run_udp c p [] = p
  run_udp c p (to_binding payload ∷ ops) = run_udp c (handle_udp_payload sockets p c payload).0 ops
  run_udp c p (from_socket result ∷ ops) = run_udp c (handle_udp_read sockets p c result).0 ops

  -- The binding has sent the payloads but for those that wait, and none waits if the program is known.
  pub record HasSent (c : ConId) (p : NetworkPeer Stream Sender) (payloads : List (List ℕ))
      (known : Bool) : Type 0 where
    pub binding : UdpBindingState Sender
    pub found : lookup c p.udp_bindings ≡ some binding
    pub local : binding.bound_locally ≡ true
    pub all : sent binding.sender ++ binding.pending_payloads ≡ payloads
    pub peer_addr : known ≡ true → (a : SocketAddr) × (binding.last_peer_addr ≡ some a)
    pub empty : known ≡ true → binding.pending_payloads ≡ []
    pub unknown : known ≡ false → binding.last_peer_addr ≡ none

  module _ (sending : IsSending) where
    send_payloads-sent :
        (s : Sender) (addr : SocketAddr) (payloads : List (List ℕ))
        → ((send_payloads sockets s addr payloads).1 ≡ none)
          × (sent (send_payloads sockets s addr payloads).0 ≡ sent s ++ payloads)
    unfolding send_payloads
    send_payloads-sent s addr [] = (refl, sym (append-nil (sent s)))
    send_payloads-sent s addr (payload ∷ payloads) =
        let (fine, added) = sending s payload addr in
        let (fine', added') = send_payloads-sent (sockets.send_to s payload addr).0 addr payloads in
        rw (fine, send_payloads)
          (
            fine',
            added' ∙ ap (λ z. z ++ payloads) added ∙ append_assoc (sent s) (payload ∷ []) payloads,
          )

    payload-HasSent :
        (c : ConId) (p : NetworkPeer Stream Sender) (payload : List ℕ) (payloads : List (List ℕ))
        (known : Bool)
        → HasSent c p payloads known
        → HasSent c (handle_udp_payload sockets p c payload).0 (payloads ++ (payload ∷ [])) known
    unfolding handle_udp_payload udp_payload_to
    payload-HasSent c p payload payloads true h =
        (let b = h.binding in
          let (a, known) = h.peer_addr refl in
          rw (h.found, handle_udp_payload, h.local, known)
            (record {
              binding = record b { sender = (sockets.send_to b.sender payload a).0 };
              found = lookup-insert_same c _ p.udp_bindings;
              local = h.local;
              all =
                  ap (λ z. sent (sockets.send_to b.sender payload a).0 ++ z) (h.empty refl)
                  ∙ append-nil (sent (sockets.send_to b.sender payload a).0)
                  ∙ (sending b.sender payload a).1
                  ∙ ap (λ z. z ++ (payload ∷ []))
                      (sym (append-nil (sent b.sender))
                        ∙ ap (λ z. sent b.sender ++ z) (sym (h.empty refl))
                        ∙ h.all);
              peer_addr = λ _. (a, known);
              empty = λ _. h.empty refl;
              unknown = λ e. cc;
            }))
    payload-HasSent c p payload payloads false h =
        (let b = h.binding in
          rw (h.found, handle_udp_payload, h.local, h.unknown refl)
            (record {
              binding = record b { pending_payloads = b.pending_payloads ++ (payload ∷ []) };
              found = lookup-insert_same c _ p.udp_bindings;
              local = h.local;
              all =
                  sym (append_assoc (sent b.sender) b.pending_payloads (payload ∷ []))
                  ∙ ap (λ z. z ++ (payload ∷ [])) h.all;
              peer_addr = λ e. cc;
              empty = λ e. cc;
              unknown = λ _. h.unknown refl;
            }))

    send-HasSent :
        (c : ConId) (p : NetworkPeer Stream Sender) (m : NetworkMessage) (payloads : List (List ℕ))
        (known : Bool)
        → HasSent c p payloads known
        → HasSent c (send p m).0 payloads known
    unfolding send
    send-HasSent c p m payloads known h = elim (Bool-cases p.tx_closed) [
      | inl e ↦ rw e (same_bindings _ refl)
      | inr e ↦ rw e (same_bindings _ refl)
    ]
      where
        same_bindings :
            (q : NetworkPeer Stream Sender)
            → q.udp_bindings ≡ p.udp_bindings
            → HasSent c q payloads known
        same_bindings q same = record {
          binding = h.binding;
          found = ap (lookup c) same ∙ h.found;
          local = h.local;
          all = h.all;
          peer_addr = h.peer_addr;
          empty = h.empty;
          unknown = h.unknown;
        }

    read-HasSent :
        (c : ConId) (p : NetworkPeer Stream Sender) (bytes : List ℕ) (addr : SocketAddr)
        (payloads : List (List ℕ)) (known : Bool)
        → HasSent c p payloads known
        → HasSent c (handle_udp_read sockets p c (ok (bytes, addr))).0 payloads true
    unfolding handle_udp_read flush_udp
    read-HasSent c p bytes addr payloads known h =
        (let b = h.binding in
          let (fine, added) = send_payloads-sent b.sender addr b.pending_payloads in
          let s' = (send_payloads sockets b.sender addr b.pending_payloads).0 in
          let b' = record b {
            bound_locally = true;
            sender = s';
            last_peer_addr = some addr;
            pending_payloads = [];
          } in
          rw (h.found, handle_udp_read, h.local, fine)
            (send-HasSent c (record p { udp_bindings = insert c b' p.udp_bindings })
              (udp_send c bytes) payloads true
              (record {
                binding = b';
                found = lookup-insert_same c b' p.udp_bindings;
                local = refl;
                all = append-nil (sent s') ∙ added ∙ h.all;
                peer_addr = λ _. (addr, refl);
                empty = λ _. refl;
                unknown = λ e. cc;
              })))

    failed-HasSent :
        (c : ConId) (p : NetworkPeer Stream Sender) (e : SocketError) (payloads : List (List ℕ))
        (known : Bool)
        → HasSent c p payloads known
        → HasSent c (handle_udp_read sockets p c (err e)).0 payloads known
    unfolding handle_udp_read
    failed-HasSent c p e payloads known h = rw (h.found, handle_udp_read) h

    -- Where every datagram is sent: whatever payloads arrive for a binding of this side and whatever is
    -- read from its socket in between, the binding has sent the payloads in their order, but for those
    -- that wait; and none waits, once the socket was read from, so that it is known where to send to.
    pub run_udp-HasSent :
        (c : ConId) (p : NetworkPeer Stream Sender) (ops : List UdpOp) (payloads : List (List ℕ))
        (known : Bool)
        → HasSent c p payloads known
        → HasSent c (run_udp c p ops) (payloads ++ payloads_in ops) (is_known known ops)
    unfolding run_udp
    run_udp-HasSent c p [] payloads known h =
        subst (λ z. HasSent c p z known) (sym (append-nil payloads)) h
    run_udp-HasSent c p (to_binding payload ∷ ops) payloads known h =
        subst
          (λ z.
            HasSent c (run_udp c (handle_udp_payload sockets p c payload).0 ops) z
              (is_known known ops))
          (append_assoc payloads (payload ∷ []) (payloads_in ops))
          (run_udp-HasSent c (handle_udp_payload sockets p c payload).0 ops
            (payloads ++ (payload ∷ [])) known (payload-HasSent c p payload payloads known h))
    run_udp-HasSent c p (from_socket (ok (bytes, addr)) ∷ ops) payloads known h =
        run_udp-HasSent c (handle_udp_read sockets p c (ok (bytes, addr))).0 ops payloads true
          (read-HasSent c p bytes addr payloads known h)
    run_udp-HasSent c p (from_socket (err e) ∷ ops) payloads known h =
        run_udp-HasSent c (handle_udp_read sockets p c (err e)).0 ops payloads known
          (failed-HasSent c p e payloads known h)

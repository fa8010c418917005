-- ===== src/Shell/Network/Roles.antt =====
-- The ids that a peer gives out are those of its role, in any run; and the run goes on.
use tunshell.Prelude.{
  sym, ap, ℕ, ◌+◌, ◌*◌, ◌%◌, ◌^◌, ◌≡◌, ◌≤◌, ◌<◌, ◌∙◌, refl, List, [], ◌∷◌, Option, none, some, inl,
  inr, ==_cases, arith, Result, ok, err, length,
}
use tunshell.Prelude.Maps.{lookup, insert, length-insert, lookup-insert_other}
use tunshell.Prelude.Words.{IsU32}
use tunshell.Shell.Proto.{ConId, tcp_connect}
use tunshell.Shell.Network.{
  NetworkPeerBinding, NetworkPeerConfig, NetworkPeerRole, client, server, SocketError, Resolver,
}
use tunshell.Shell.Network.Peer.{
  Sockets, NetworkPeer, Step, send, first_con_id, new_peer, remove_one,
}
use tunshell.Shell.Network.Handlers.{handle_message, handle_tcp_read, handle_udp_read}
use tunshell.Shell.Network.Ids.{next_tcp_con_id-FindsFree}
use tunshell.Shell.Network.Steps.{
  connection_count, Steps, handle_message-Steps, handle_tcp_read-Steps, handle_udp_read-Steps,
  unchanged-Steps, send-Steps,
}
use tunshell.Shell.Network.Setup.{setup_bindings-Steps}
use tunshell.Shell.Network.Run.{
  start, Binder, PeerEvent, received, no_more_messages, accepted, tcp_read, udp_read, Turn, turn,
  goes_on, finished, failed, take_receivers, setup_bindings, accept, run_event, run_loop, run,
}

-- The peer's own ids, pending and next, are even or odd as `role`.
pub record HasParity {Stream Sender : Type 0} (role : ℕ) (p : NetworkPeer Stream Sender)
    : Type 0 where
  pub word : IsU32 p.next_con_id
  pub next : p.next_con_id % 2 ≡ role % 2
  pub waiting : (c : ConId) (s : Stream) → lookup c p.tcp_pending ≡ some s → c % 2 ≡ role % 2

module _ {Stream Sender : Type 0} (role : ℕ) where
  Steps-HasParity :
      (n : ℕ) (p q : NetworkPeer Stream Sender) → Steps n p q → HasParity role p → HasParity role q
  Steps-HasParity n p q h k = record {
    word = (let a = h.next in let b = k.word in omega arith);
    next = ap (λ z. z % 2) h.next ∙ k.next;
    waiting = λ c s e. k.waiting c s (h.waiting c s e);
  }

  -- The run goes on, or ends, with the peer's ids as they should be and at most two connections more.
  abbrev Turns : ℕ → NetworkPeer Stream Sender → Option (NetworkPeer Stream Sender × Turn) → Type 0
  Turns n p result =
      (out : NetworkPeer Stream Sender × Turn) × (result ≡ some out)
      × HasParity role out.0
      × (connection_count out.0 ≤ connection_count p + n)

  -- A new id is inserted.
  insert-HasParity :
      (p q : NetworkPeer Stream Sender) (id : ConId) (s : Stream)
      → HasParity role p
      → id % 2 ≡ p.next_con_id % 2
      → q ≡ record p { next_con_id = q.next_con_id }
      → q.next_con_id % 2 ≡ id % 2
      → IsU32 q.next_con_id
      → HasParity role (record q { tcp_pending = insert id s q.tcp_pending })
  insert-HasParity p q id s h parity frame next word = record {
    word = word;
    next = next ∙ parity ∙ h.next;
    waiting = λ c t e. elim (==_cases id c) [
      | inl (same, _) ↦ sym (ap (λ z. z % 2) same) ∙ parity ∙ h.next
      | inr (other, _) ↦ h.waiting c t (
          sym (ap (λ z. lookup c z.tcp_pending) frame)
          ∙ sym (lookup-insert_other id c s q.tcp_pending other)
          ∙ e)
    ];
  }

  turn-Turns :
      (n : ℕ) (p : NetworkPeer Stream Sender) (step : Step Stream Sender)
      → HasParity role step.0
      → connection_count step.0 ≤ connection_count p + n
      → Turns n p (some (turn step))
  turn-Turns n p (q, none) h k = ((q, goes_on), refl, h, k)
  turn-Turns n p (q, some e) h k = ((q, failed e), refl, h, k)

  steps-Turns :
      (p : NetworkPeer Stream Sender) (step : Step Stream Sender)
      → Steps 2 p step.0
      → HasParity role p
      → Turns 2 p (some (turn step))
  steps-Turns p step h k = turn-Turns 2 p step (Steps-HasParity 2 p step.0 h k) h.count

  accept-Turns :
      (p : NetworkPeer Stream Sender) (binding : NetworkPeerBinding)
      (result : Result Stream SocketError)
      → HasParity role p
      → connection_count p < 2 ^ 31
      → (step : Step Stream Sender) × (accept p binding result ≡ some step)
        × HasParity role step.0
        × (connection_count step.0 ≤ connection_count p + 2)
  unfolding accept
  accept-Turns p binding (err e) h few = ((p, none), refl, h, omega arith)
  accept-Turns p binding (ok s) h few =
      let (q, id, found, free, frame, next, word) = next_tcp_con_id-FindsFree p few h.word in
      let (_, parity, _) = free in
      let opened = record q { tcp_pending = insert id s q.tcp_pending } in
      let message = tcp_connect id binding.remote_addr binding.remote_port in
      let sent = send-Steps opened message in
      (
        send opened message,
        rw (found, accept) refl,
        Steps-HasParity 0 opened (send opened message).0 sent
            (insert-HasParity p q id s h parity frame next word),
        count q id sent.count frame,
      )
    where
      count :
          (q : NetworkPeer Stream Sender) (id : ConId) {n : ℕ}
          → n ≤ connection_count (record q { tcp_pending = insert id s q.tcp_pending }) + 0
          → q ≡ record p { next_con_id = q.next_con_id }
          → n ≤ connection_count p + 2
      count q id small frame = omega (
        arith,
        length-insert id s q.tcp_pending,
        ap (λ z. length z.tcp_pending) frame,
        ap (λ z. length z.tcp_connections) frame,
      )

module _ {Stream Sender : Type 0} (sockets : Sockets Stream Sender) (role : ℕ)
    (resolve : Resolver) where
  run_event-Turns :
      (p : NetworkPeer Stream Sender) (event : PeerEvent Stream)
      → HasParity role p
      → connection_count p < 2 ^ 31
      → Turns role 2 p (run_event sockets resolve p event)
  unfolding run_event
  run_event-Turns p (received connect m) h few =
      (let k = handle_message-Steps sockets connect resolve p m in
        (
          ((handle_message sockets connect resolve p m).0, goes_on),
          refl,
          Steps-HasParity role 2 p _ k h,
          k.count,
        ))
  run_event-Turns p no_more_messages h few = ((p, finished), refl, h, omega arith)
  run_event-Turns p (accepted binding result) h few =
      (let (step, done, parity, count) = accept-Turns role p binding result h few in
        rw (done, run_event) (turn-Turns role 2 p step parity count))
  run_event-Turns p (tcp_read c result) h few =
      steps-Turns role p
        (handle_tcp_read (record p { tcp_reads = remove_one c p.tcp_reads }) c result)
        (read-Steps
          (handle_tcp_read-Steps (record p { tcp_reads = remove_one c p.tcp_reads }) c result))
        h
    where
      read-Steps :
          {q : NetworkPeer Stream Sender}
          → Steps 2 (record p { tcp_reads = remove_one c p.tcp_reads }) q
          → Steps 2 p q
      read-Steps k = record { next = k.next; waiting = k.waiting; count = k.count }
  run_event-Turns p (udp_read c result) h few =
      steps-Turns role p (handle_udp_read sockets p c result)
        (handle_udp_read-Steps sockets p c result) h

  run_loop-Turns :
      (p : NetworkPeer Stream Sender) (events : List (PeerEvent Stream))
      → HasParity role p
      → connection_count p + 2 * length events < 2 ^ 31
      → (out : NetworkPeer Stream Sender × Turn) × (run_loop sockets resolve p events ≡ some out)
        × HasParity role out.0
  unfolding run_loop
  run_loop-Turns p [] h few = ((p, goes_on), refl, h)
  run_loop-Turns p (event ∷ events) h few =
      (let (out, one, parity, count) = run_event-Turns p event h (omega arith) in
        rw (one, run_loop)
          (ends out.0 out.1 parity (λ q same parity.
            run_loop-Turns q events parity (omega (arith, ap connection_count same)))))
    where
      Ends : Option (NetworkPeer Stream Sender × Turn) → Type 0
      Ends result =
          (out : NetworkPeer Stream Sender × Turn) × (result ≡ some out) × HasParity role out.0

      ends :
          (q : NetworkPeer Stream Sender) (t : Turn)
          → HasParity role q
          → ((r : NetworkPeer Stream Sender)
              → r ≡ q
              → HasParity role r
              → Ends (run_loop sockets resolve r events))
          → Ends (elim t as (λ _. Option (NetworkPeer Stream Sender × Turn)) [
            | goes_on ↦ run_loop sockets resolve q events
            | finished ↦ some (q, finished)
            | failed e ↦ some (q, failed e)
          ])
      ends q goes_on parity more = more q refl parity
      ends q finished parity more = ((q, finished), refl, parity)
      ends q (failed e) parity more = ((q, failed e), refl, parity)

module _ {Stream Sender : Type 0} (sockets : Sockets Stream Sender) (binder : Binder Sender) where
  new_peer-HasParity :
      (config : NetworkPeerConfig) (role : NetworkPeerRole)
      → HasParity (first_con_id role) (new_peer {Stream = Stream} {Sender = Sender} config role)
  unfolding new_peer lookup
  new_peer-HasParity config client = record {
    word = omega arith;
    next = refl;
    waiting = λ c s e. ground arith;
  }
  new_peer-HasParity config server = record {
    word = omega arith;
    next = refl;
    waiting = λ c s e. ground arith;
  }

  new_peer-count :
      (config : NetworkPeerConfig) (role : NetworkPeerRole)
      → connection_count (new_peer {Stream = Stream} {Sender = Sender} config role) ≡ 0
  unfolding new_peer
  new_peer-count config role = refl

  -- Whatever happens to a new peer in fewer than 2^30 turns, `run` gets through them, or ends before:
  -- no search for an id goes on for ever; and the ids of the connections which the peer has accepted
  -- and not yet opened, with the next id to try, are odd in the client and even in the server.
  pub run-HasParity :
      (config : NetworkPeerConfig) (role : NetworkPeerRole) (events : List (PeerEvent Stream))
      → length events < 2 ^ 30
      → (out : NetworkPeer Stream Sender × Turn) × (run sockets binder (new_peer config role) events
          ≡ some out)
        × HasParity (first_con_id role) out.0
  unfolding run new_peer
  run-HasParity config role events few =
      started (setup_bindings sockets binder (new_peer config role) 1 config.bindings)
        (setup_bindings-Steps sockets binder (new_peer config role) 1 config.bindings)
        (new_peer-HasParity config role) (new_peer-count config role)
    where
      started :
          (step : Step Stream Sender)
          → Steps 0 (new_peer config role) step.0
          → HasParity (first_con_id role) (new_peer {Stream = Stream} {Sender = Sender} config role)
          → connection_count (new_peer {Stream = Stream} {Sender = Sender} config role) ≡ 0
          → (out : NetworkPeer Stream Sender × Turn) × (start sockets binder events step ≡ some out)
            × HasParity (first_con_id role) out.0
      started (q, some e) k parity none_yet = (
        (q, failed e),
        refl,
        Steps-HasParity (first_con_id role) 0 (new_peer config role) q k parity,
      )
      started (q, none) k parity none_yet =
          (let q' = record q { tcp_listeners = []; udp_bindings = take_receivers q.udp_bindings } in
            run_loop-Turns sockets (first_con_id role) binder.resolve q' events
              (Steps-HasParity (first_con_id role) 0 q q'
                (unchanged-Steps 0 q q' refl refl (omega arith))
                (Steps-HasParity (first_con_id role) 0 (new_peer config role) q k parity))
              (let c = k.count in omega arith))

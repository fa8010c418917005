-- ===== src/Shell/Tests/Forwarding.antt =====
-- network.rs: a client's peer, whose streams and sockets keep what is written to them.
use tunshell.Prelude.Maps.{lookup}
use tunshell.Prelude.{
  inl, inr, ℕ, ◌≡◌, refl, arith, true, false, List, [], ◌∷◌, ◌++◌, none, some, Result, ok,
}
use tunshell.Udp.Config.{SocketAddr}
use tunshell.Shell.Proto.{NetworkMessage, tcp_connect_result, tcp_send, tcp_recv, tcp_close}
use tunshell.Shell.Network.{
  NetworkPeerBinding, local_to_remote, tcp, NetworkPeerConfig, client, SocketError, Resolver,
  is_ipv4, connect_socket_addr,
}
use tunshell.Shell.Network.Peer.{Sockets, NetworkPeer, UdpBindingState, new_peer}
use tunshell.Shell.Network.Run.{Binder, PeerEvent, Turn, received, accepted, tcp_read, run}
use tunshell.Shell.Network.Ids.{FindsFree, next_tcp_con_id-FindsFree}
use tunshell.Shell.Network.Tcp.{AllKept, IsWriting, bytes_of, receive_all, receive_all-bytes_of}
use tunshell.Shell.Network.Roles.{HasParity, run-HasParity}
use tunshell.Shell.Network.Addrs.{IsIn, connect_socket_addr-Connects}
use tunshell.Shell.Network.Udp.{
  UdpOp, to_binding, from_socket, HasSent, IsSending, run_udp, run_udp-HasSent,
}

abbrev sockets : Sockets (List ℕ) (List (List ℕ))
sockets = record {
  write_all = λ s bytes. (s ++ bytes, none);
  send_to = λ s payload addr. (s ++ (payload ∷ []), none);
  error_text = λ e. [];
  notice_text = λ n. [];
}

abbrev v4_addr : SocketAddr
v4_addr = record { ip = 10 ∷ 0 ∷ 0 ∷ 1 ∷ []; port = 80 }

abbrev v6_addr : SocketAddr
v6_addr = record {
  ip = 0 ∷ 0 ∷ 0 ∷ 0 ∷ 0 ∷ 0 ∷ 0 ∷ 0 ∷ 0 ∷ 0 ∷ 0 ∷ 0 ∷ 0 ∷ 0 ∷ 0 ∷ 1 ∷ [];
  port = 80;
}

abbrev resolve : Resolver
resolve host port = ok (v4_addr ∷ v6_addr ∷ [])

-- Every address accepts a connection.
abbrev connect : SocketAddr → Result (List ℕ) SocketError
connect addr = ok []

connect_socket_addr-Connects_example :
    (b : SocketAddr) × (t : List ℕ) × (connect_socket_addr connect resolve (b'h' ∷ []) 80 ≡ ok t)
    × (connect b ≡ ok t)
    × IsIn b (v4_addr ∷ v6_addr ∷ [])
    × (is_ipv4 v6_addr ≡ false → is_ipv4 b ≡ false)
connect_socket_addr-Connects_example =
    connect_socket_addr-Connects connect resolve (b'h' ∷ []) 80 (v4_addr ∷ v6_addr ∷ []) v6_addr []
      refl (inr (inl refl)) refl

abbrev empty_config : NetworkPeerConfig
empty_config = record { bindings = [] }

-- Ids 1 and 5 are in use, and 1 is the next to try.
abbrev busy : NetworkPeer (List ℕ) (List (List ℕ))
busy = record {
  config = empty_config;
  tx = [];
  tx_closed = false;
  tcp_listeners = [];
  tcp_pending = (1, []) ∷ [];
  tcp_pending_writes = [];
  tcp_connections = (5, []) ∷ [];
  udp_bindings = [];
  next_con_id = 1;
  tcp_reads = 5 ∷ [];
}

next_tcp_con_id-FindsFree_example : FindsFree busy
next_tcp_con_id-FindsFree_example = next_tcp_con_id-FindsFree busy (omega arith) (omega arith)

abbrev to_one : List NetworkMessage
to_one =
    tcp_recv 1 (b'a' ∷ b'b' ∷ [])
    ∷ tcp_recv 5 (b'x' ∷ [])
    ∷ tcp_close 5
    ∷ tcp_send 1 (b'c' ∷ [])
    ∷ tcp_connect_result 1 none
    ∷ tcp_recv 1 (b'd' ∷ [])
    ∷ []

writing : IsWriting sockets (λ s. s)
writing s bytes = (refl, refl)

kept : AllKept 1 to_one
kept = (tt, (tt, ((λ e. omega arith), (tt, (tt, (tt, tt))))))

receive_all-bytes_of_example :
    bytes_of sockets (λ s. s) 1 (receive_all sockets (λ s. s) connect resolve busy to_one)
    ≡ some (b'a' ∷ b'b' ∷ b'c' ∷ b'd' ∷ [])
unfolding lookup
receive_all-bytes_of_example =
    receive_all-bytes_of sockets (λ s. s) writing 1 connect resolve busy to_one [] kept refl

abbrev web : NetworkPeerBinding
web = record {
  direction = local_to_remote;
  protocol = tcp;
  local_addr = b'l' ∷ [];
  local_port = 8000;
  remote_addr = b'r' ∷ [];
  remote_port = 80;
}

abbrev binder : Binder (List (List ℕ))
binder = record {
  resolve = resolve;
  parses = λ text. false;
  bind_listener = λ host port. none;
  bind_socket = λ addr. ok [];
}

abbrev visits : List (PeerEvent (List ℕ))
visits =
    accepted web (ok [])
    ∷ accepted web (ok [])
    ∷ received connect (tcp_connect_result 1 none)
    ∷ tcp_read 1 (ok [])
    ∷ []

run-HasParity_example :
    (out : NetworkPeer (List ℕ) (List (List ℕ)) × Turn) × (run sockets binder
        (new_peer (record { bindings = web ∷ [] }) client)
        visits
      ≡ some out)
    × HasParity 1 out.0
run-HasParity_example =
    run-HasParity sockets binder (record { bindings = web ∷ [] }) client visits (omega arith)

abbrev game : UdpBindingState (List (List ℕ))
game = record {
  receiver = false;
  sender = [];
  target_addr = v4_addr;
  bound_locally = true;
  last_peer_addr = none;
  pending_payloads = [];
}

abbrev playing : NetworkPeer (List ℕ) (List (List ℕ))
playing = record busy { udp_bindings = (1, game) ∷ [] }

abbrev datagrams : List UdpOp
datagrams =
    to_binding (b'a' ∷ []) ∷ from_socket (ok (b'z' ∷ [], v4_addr)) ∷ to_binding (b'b' ∷ []) ∷ []

sending : IsSending sockets (λ s. s)
sending s payload addr = (refl, refl)

nothing_sent : HasSent sockets (λ s. s) 1 playing [] false
unfolding lookup
nothing_sent = record {
  binding = game;
  found = refl;
  local = refl;
  all = refl;
  peer_addr = λ e. cc;
  empty = λ e. refl;
  unknown = λ e. refl;
}

run_udp-HasSent_example :
    HasSent sockets
      (λ s. s)
      1
      (run_udp sockets (λ s. s) 1 playing datagrams)
      ((b'a' ∷ []) ∷ (b'b' ∷ []) ∷ [])
      true
run_udp-HasSent_example =
    run_udp-HasSent sockets (λ s. s) sending 1 playing datagrams [] false nothing_sent

-- ===== src/Udp/Negotiator.antt =====
-- negotiator.rs: the exchange of hello and sync datagrams that opens a connection. What the socket
-- does, the random sequence number and the time that passes are arguments. The bytes of a datagram
-- are those that the socket stored in the buffer, which bounds their number.
pub mod Safety
pub mod Handshake
use tunshell.Prelude.{
  ℕ, ◌-◌, ◌*◌, ◌≤◌, Bool, true, false, ◌&&◌, not, List, [], ◌∷◌, Outcome, done, panic, ◌>>=◌, ◌>>◌,
  assert, Result, ok, err, ltb, leb, ◌==◌, if◌then◌else◌, length, take, drop,
}
use tunshell.Prelude.Crates.{ByteOrder, XxHash}
use tunshell.Udp.Config.{Duration, SocketAddr}
use tunshell.Udp.Packet.{
  UdpPacket, UdpPacketType, UdpPacketParseError, open_type, parse, slice, to_vec,
}
use tunshell.Udp.Sender.{create_open_packet}
use tunshell.Udp.SeqNumber.{SequenceNumber}
use tunshell.Udp.State.{
  UdpConnectionVars, state_eq, new, set_state_sent_hello, set_state_sent_sync,
  set_state_waiting_for_sync,
}

-- "tunshell::udp::hello" in bytes.
abbrev pub magic_hello : List ℕ
magic_hello =
    116 ∷ 117 ∷ 110 ∷ 115 ∷ 104 ∷ 101 ∷ 108 ∷ 108 ∷ 58 ∷ 58 ∷ 117 ∷ 100 ∷ 112 ∷ 58 ∷ 58 ∷ 104 ∷ 101
    ∷ 108 ∷ 108 ∷ 111 ∷ []

-- `==` of byte slices.
unfoldable pub bytes_eq : List ℕ → List ℕ → Bool
bytes_eq [] [] = true
bytes_eq (x ∷ xs) (y ∷ ys) = let rest = bytes_eq xs ys in (x == y) && rest
bytes_eq _ _ = false

pub data NegotiateError : Type 0 where
  hello_not_sent hello_not_received hello_timed_out not_hello wrong_address not_connected
        sync_not_sent sync_not_received sync_timed_out not_open :
      NegotiateError
  sync_not_parsed : UdpPacketParseError → NegotiateError

-- A fallible call on the variables, and its chaining by `?`.
abbrev pub Attempt : Type 0 → Type 0
Attempt A = Outcome (UdpConnectionVars × Result A NegotiateError)

infixl 5 ◌>>?◌
abbrev pub ◌>>?◌ : {A B : Type 0} → Attempt A → (UdpConnectionVars → A → Attempt B) → Attempt B
done (con, ok a) >>? k = k con a
done (con, err e) >>? k = done (con, err e)
panic >>? k = panic

-- What `recv_from` gives for the first hello, in the `select!` with the timeout.
pub data HelloEvent : Type 0 where
  hello_datagram : List ℕ → SocketAddr → HelloEvent
  hello_failed hello_timeout : HelloEvent

-- What `recv` gives for the sync.
pub data SyncEvent : Type 0 where
  sync_datagram : List ℕ → SyncEvent
  sync_failed : SyncEvent

-- The socket during one negotiation: whether the sends and `connect` succeed, and what arrives.
-- Where `syncs` is used up, the timeout ends the wait. `sequence` is the random number.
pub record Network : Type 0 where
  pub first_hello_sent : Bool
  pub hello : HelloEvent
  pub socket_connected : Bool
  pub second_hello_sent : Bool
  pub sync_sent : Bool
  pub syncs : List SyncEvent
  pub sequence : SequenceNumber
  pub elapsed : Duration

abbrev pub check_sent : Bool → NegotiateError → UdpConnectionVars → Attempt (Unit {0})
check_sent true e con = done (con, ok tt)
check_sent false e con = done (con, err e)

unfoldable pub wait_for_magic_hello : HelloEvent → List ℕ → UdpConnectionVars → Attempt SocketAddr
wait_for_magic_hello hello_failed peer_ip con = done (con, err hello_not_received)
wait_for_magic_hello hello_timeout peer_ip con = done (con, err hello_timed_out)
wait_for_magic_hello (hello_datagram bytes from_addr) peer_ip con =
    if not (bytes_eq bytes magic_hello)
    then done (con, err not_hello)
    else if not (bytes_eq from_addr.ip peer_ip)
    then done (con, err wrong_address)
    else done (con, ok from_addr)

module _ (bo : ByteOrder) (xx : XxHash) where
  -- `send_sync_packet`, with the datagram that the socket was given.
  unfoldable pub send_sync_packet : Network → UdpConnectionVars → Attempt (List ℕ)
  send_sync_packet net con =
      let seeded : UdpConnectionVars = record con {
        sequence_number = net.sequence;
        peer_ack_number = net.sequence;
      } in
      let (con', packet) = create_open_packet xx seeded in
      if net.sync_sent then done (con', ok (to_vec bo packet)) else done (con', err sync_not_sent)

  -- `wait_for_sync_packet` once the bytes of the packet are there.
  unfoldable pub accept_sync : List ℕ → UdpConnectionVars → Attempt (Unit {0})
  accept_sync bytes con = do
    result ← parse bo bytes
    elim result [
      | err e ↦ done (con, err (sync_not_parsed e))
      | ok sync ↦ elim sync.packet_type [
        | open_type ↦
            done
              (record con { peer_window = sync.window; ack_number = sync.sequence_number }, ok tt)
        | _ ↦ done (con, err not_open)
      ]
    ]

  -- The loop: a datagram that is only the hello is passed over.
  unfoldable pub wait_for_sync_packet : List SyncEvent → UdpConnectionVars → Attempt (Unit {0})
  wait_for_sync_packet [] con = done (con, err sync_timed_out)
  wait_for_sync_packet (sync_failed ∷ syncs) con = done (con, err sync_not_received)
  wait_for_sync_packet (sync_datagram bytes ∷ syncs) con =
      let rest = wait_for_sync_packet syncs con in
      if (length bytes == length magic_hello) && bytes_eq bytes magic_hello
      then rest
      else if ltb (length magic_hello) (length bytes)
          && bytes_eq (take (length magic_hello) bytes) magic_hello
      then (do
        packet_buff ← slice (length magic_hello) (length bytes - length magic_hello) bytes
        accept_sync packet_buff con)
      else accept_sync bytes con

  -- The two sides of `negotiate_connection` after the hellos.
  unfoldable pub exchange_syncs : Bool → Network → UdpConnectionVars → Attempt (List ℕ)
  exchange_syncs true net con = send_sync_packet net con >>? λ con1 sync.
      (set_state_sent_sync con1 >>= λ con2.
      (wait_for_sync_packet net.syncs con2 >>? λ con3 u.
      done (record con3 { rtt_estimate = net.elapsed }, ok sync)))
  exchange_syncs false net con = set_state_waiting_for_sync con >>= λ con1.
      (wait_for_sync_packet net.syncs con1 >>? λ con2 u.
      (send_sync_packet net con2 >>? λ con3 sync.
      done (record con3 { rtt_estimate = net.elapsed * 2 }, ok sync)))

  -- `negotiate_connection`: the peer's address, with the sync datagram that was sent.
  unfoldable pub negotiate_connection :
      List ℕ → Bool → Network → UdpConnectionVars → Attempt (SocketAddr × List ℕ)
  negotiate_connection peer_ip master_side net con =
      assert (state_eq con.state new)
      >> (check_sent net.first_hello_sent hello_not_sent con >>? λ con1 u.
          (set_state_sent_hello con1 >>= λ con2.
          (wait_for_magic_hello net.hello peer_ip con2 >>? λ con3 peer_addr.
          (check_sent net.socket_connected not_connected con3 >>? λ con4 v.
          (check_sent net.second_hello_sent hello_not_sent con4 >>? λ con5 w.
          (exchange_syncs master_side net con5 >>? λ con6 sync.
          done (con6, ok (peer_addr, sync))))))))

-- ===== src/Udp/Tests/Connecting.antt =====
-- Two peers that negotiate a connection, and the calls of the owner of one.
use tunshell.Prelude.{
  ℕ, ◌≡◌, ◌⊎◌, refl, true, false, none, some, inl, List, [], ◌∷◌, ◌++◌, done, panic, ok, Returns,
  ready, pending, arith,
}
use tunshell.Udp.Config.{SocketAddr, default_config}
use tunshell.Udp.Congestion.{is_congested}
use tunshell.Udp.Connection.{new, bound, running, connect, poll_write}
use tunshell.Udp.Connection.Calls.{ConnectedOrNew, connect_lem, connect-unsent, poll_write_lem}
use tunshell.Udp.Negotiator.{
  Network, magic_hello, hello_datagram, SyncEvent, sync_datagram, wait_for_sync_packet,
  exchange_syncs, negotiate_connection, bytes_eq,
}
use tunshell.Udp.Negotiator.Handshake.{master_sync, slave_sync, handshake_lem}
use tunshell.Udp.Negotiator.Safety.{
  Settled, negotiate_connection-Settled, wait_for_sync_packet-merged,
}
use tunshell.Udp.Packet.{UdpPacket, end_sequence_number}
use tunshell.Udp.Receiver.{calculate_recv_window, packet_bytes}
use tunshell.Udp.State.{
  UdpConnectionVars, new_vars, sent_hello, sent_sync, waiting_for_sync, send, is_connected,
}
use tunshell.Udp.Tests.{big_endian, sum_hash, end_at}

abbrev peer : SocketAddr
peer = record { ip = 10 ∷ 0 ∷ 0 ∷ 7 ∷ []; port = 4000 }

-- A network in which all is sent, and these syncs arrive.
abbrev network : ℕ → List SyncEvent → Network
network sequence syncs = record {
  first_hello_sent = true;
  hello = hello_datagram magic_hello peer;
  socket_connected = true;
  second_hello_sent = true;
  sync_sent = true;
  syncs = syncs;
  sequence = sequence;
  elapsed = 30;
}

abbrev greeting : UdpConnectionVars
greeting = record (new_vars default_config) { state = sent_hello }

-- A datagram that is a sync with number 8, and one that is too short for a packet.
abbrev sync_bytes : List ℕ
sync_bytes = 0 ∷ 0 ∷ 0 ∷ 0 ∷ 8 ∷ 0 ∷ 0 ∷ 0 ∷ 0 ∷ 0 ∷ 0 ∷ 4 ∷ 0 ∷ 0 ∷ 0 ∷ 0 ∷ 0 ∷ 0 ∷ 12 ∷ []

negotiate_connection-Settled_example :
    Returns (Settled big_endian sum_hash true (new_vars default_config) {A = SocketAddr × List ℕ}) (
      negotiate_connection big_endian sum_hash peer.ip true
        (network 4294967295 (sync_datagram magic_hello ∷ sync_datagram sync_bytes ∷ []))
        (new_vars default_config))
unfolding bytes_eq
negotiate_connection-Settled_example =
    negotiate_connection-Settled big_endian sum_hash peer.ip true
      (network 4294967295 (sync_datagram magic_hello ∷ sync_datagram sync_bytes ∷ []))
      (new_vars default_config) refl (refl, (refl, tt))

wait_for_sync_packet-merged_example :
    wait_for_sync_packet big_endian sum_hash
      (sync_datagram (magic_hello ++ sync_bytes) ∷ [])
      greeting
    ≡ panic
wait_for_sync_packet-merged_example =
    wait_for_sync_packet-merged big_endian sum_hash sync_bytes [] greeting (omega arith)
      (omega arith)

abbrev master_network : Network
master_network = network 4294967295 (
    sync_datagram
      (slave_sync big_endian sum_hash (network 4294967295 []) greeting greeting (network 7 []))
    ∷ [])

abbrev slave_network : Network
slave_network =
    network 7
      (sync_datagram (master_sync big_endian sum_hash (network 4294967295 []) greeting) ∷ [])

handshake_lem_example :
    (m' : UdpConnectionVars) × (s' : UdpConnectionVars) × (exchange_syncs big_endian sum_hash true
        master_network greeting
      ≡ done (m', ok (master_sync big_endian sum_hash master_network greeting)))
    × (exchange_syncs big_endian sum_hash false slave_network greeting
        ≡ done (
          s',
          ok (slave_sync big_endian sum_hash master_network greeting greeting slave_network),
        ))
    × (m'.ack_number ≡ s'.sequence_number)
    × (s'.ack_number ≡ m'.sequence_number)
    × (m'.peer_window ≡ calculate_recv_window s')
    × (s'.peer_window ≡ calculate_recv_window m')
    × (m'.state ≡ sent_sync)
    × (s'.state ≡ waiting_for_sync)
unfolding calculate_recv_window packet_bytes
handshake_lem_example =
    handshake_lem big_endian sum_hash master_network slave_network greeting greeting [] [] refl refl
      refl refl refl refl (omega arith) (omega arith) (omega arith)

connect_lem_example : Returns (ConnectedOrNew big_endian sum_hash default_config) (
    connect big_endian sum_hash
      (new default_config)
      (some 4001)
      peer.ip
      false
      (network 7 (sync_datagram sync_bytes ∷ [])))
unfolding bytes_eq
connect_lem_example =
    connect_lem big_endian sum_hash (new default_config) default_config (some 4001) peer.ip false
      (network 7 (sync_datagram sync_bytes ∷ [])) (inl refl) refl (refl, tt)

abbrev closed_network : Network
closed_network = record (network 7 []) { first_hello_sent = false }

connect-unsent_example :
    connect big_endian sum_hash (bound default_config) none peer.ip true closed_network ≡ panic
connect-unsent_example =
    connect-unsent big_endian sum_hash default_config none peer.ip true closed_network refl

poll_write_lem_example :
    ((is_congested (end_at 7 []) ≡ true)
      × (poll_write sum_hash true (running (end_at 7 [])) 4 (1 ∷ 2 ∷ [])
          ≡ done (running (record (end_at 7 []) { window_wakers = (4, 8) ∷ [] }), pending)))
    ⊎ ((is_congested (end_at 7 []) ≡ false)
        × ((p : UdpPacket) × (p.payload ≡ 1 ∷ 2 ∷ [])
            × (p.sequence_number ≡ 8)
            × (poll_write sum_hash true (running (end_at 7 [])) 4 (1 ∷ 2 ∷ [])
                ≡ done (
                  running (record (end_at 7 []) {
                    sequence_number = end_sequence_number p;
                    event_sender = some (send p ∷ []);
                  }),
                  ready (ok 2),
                ))))
unfolding is_connected
poll_write_lem_example =
    poll_write_lem sum_hash (end_at 7 []) 4 (1 ∷ 2 ∷ []) [] refl refl (omega arith)

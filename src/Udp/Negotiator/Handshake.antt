-- ===== src/Udp/Negotiator/Handshake.antt =====
-- Two peers that receive each other's sync.
use tunshell.Prelude.{
  ℕ, ◌*◌, ◌≡◌, ◌∙◌, refl, sym, ap, true, false, List, [], ◌∷◌, append-nil, done, ok, arith,
}
use tunshell.Prelude.Crates.{ByteOrder, XxHash}
use tunshell.Prelude.Words.{IsU32}
use tunshell.Udp.Negotiator.{
  bytes_eq, Network, SyncEvent, sync_datagram, send_sync_packet, accept_sync, wait_for_sync_packet,
  exchange_syncs,
}
use tunshell.Udp.Packet.{UdpPacket, parse, to_vec, open_packet, open_type, create}
use tunshell.Udp.Packet.Create.{parse-create}
use tunshell.Udp.Receiver.{calculate_recv_window}
use tunshell.Udp.Sender.{create_open_packet}
use tunshell.Udp.SeqNumber
use tunshell.Udp.State.{
  UdpConnectionVars, sent_hello, sent_sync, waiting_for_sync, set_state_sent_sync,
  set_state_waiting_for_sync,
}

add_zero : (n : ℕ) → SeqNumber.add (SeqNumber.add n 1) 0 ≡ SeqNumber.add n 1
add_zero n = omega arith

module _ (bo : ByteOrder) (xx : XxHash) where
  -- The sync packet of `con` for a random number, which is the position before it.
  abbrev pub sync_of : UdpConnectionVars → ℕ → UdpPacket
  sync_of con sequence =
      create xx open_type (SeqNumber.add sequence 1) con.ack_number (calculate_recv_window con) []

  send_sync_packet_lem :
      (net : Network) (con : UdpConnectionVars)
      → net.sync_sent ≡ true
      → send_sync_packet bo xx net con
        ≡ done (
          record con {
            sequence_number = SeqNumber.add net.sequence 1;
            peer_ack_number = net.sequence;
          },
          ok (to_vec bo (sync_of con net.sequence)),
        )
  unfolding send_sync_packet create_open_packet open_packet create calculate_recv_window
  send_sync_packet_lem net con sent = rw sent (
      ap
        (λ z. done (
          record con { sequence_number = z; peer_ack_number = net.sequence },
          ok (to_vec bo (sync_of con net.sequence)),
        ))
        (add_zero net.sequence))

  wait_for_sync_packet-open :
      (bytes : List ℕ) (syncs : List SyncEvent) (con : UdpConnectionVars)
      → wait_for_sync_packet bo xx (sync_datagram (0 ∷ bytes) ∷ syncs) con
        ≡ accept_sync bo xx (0 ∷ bytes) con
  unfolding wait_for_sync_packet bytes_eq
  wait_for_sync_packet-open bytes syncs con = ground arith

  accept_sync_lem :
      (bytes : List ℕ) (p : UdpPacket) (con : UdpConnectionVars)
      → parse bo bytes ≡ done (ok p)
      → p.packet_type ≡ open_type
      → accept_sync bo xx bytes con
        ≡ done (record con { peer_window = p.window; ack_number = p.sequence_number }, ok tt)
  unfolding accept_sync
  accept_sync_lem bytes p con h t = rw (h, t)

  wait_for_sync_packet-sync :
      (from : UdpConnectionVars) (sequence : ℕ) (syncs : List SyncEvent) (con : UdpConnectionVars)
      → IsU32 from.ack_number
      → IsU32 (calculate_recv_window from)
      → wait_for_sync_packet bo xx (sync_datagram (to_vec bo (sync_of from sequence)) ∷ syncs) con
        ≡ done (
          record con {
            peer_window = calculate_recv_window from;
            ack_number = SeqNumber.add sequence 1;
          },
          ok tt,
        )
  unfolding to_vec create
  wait_for_sync_packet-sync from sequence syncs con ha hw =
      let p = sync_of from sequence in
      wait_for_sync_packet-open _ syncs con
      ∙ accept_sync_lem (to_vec bo p) p con
          (ap (parse bo) (sym (append-nil (to_vec bo p)))
            ∙ parse-create xx open_type (SeqNumber.add sequence 1) from.ack_number
                (calculate_recv_window from) [] bo [] (omega arith) ha hw)
          refl

  -- The variables of the two sides after the exchange.
  abbrev master_after :
      Network → UdpConnectionVars → UdpConnectionVars → Network → UdpConnectionVars
  master_after nm m s ns = record m {
    state = sent_sync;
    sequence_number = SeqNumber.add nm.sequence 1;
    peer_ack_number = nm.sequence;
    peer_window = calculate_recv_window s;
    ack_number = SeqNumber.add ns.sequence 1;
    rtt_estimate = nm.elapsed;
  }

  abbrev greeted : Network → UdpConnectionVars → UdpConnectionVars → UdpConnectionVars
  greeted nm m s = record s {
    state = waiting_for_sync;
    peer_window = calculate_recv_window m;
    ack_number = SeqNumber.add nm.sequence 1;
  }

  abbrev slave_after : Network → UdpConnectionVars → UdpConnectionVars → Network → UdpConnectionVars
  slave_after nm m s ns = record (greeted nm m s) {
    sequence_number = SeqNumber.add ns.sequence 1;
    peer_ack_number = ns.sequence;
    rtt_estimate = ns.elapsed * 2;
  }

  -- Each side's sync, as a datagram.
  abbrev pub master_sync : Network → UdpConnectionVars → List ℕ
  master_sync nm m = to_vec bo (sync_of m nm.sequence)

  abbrev pub slave_sync : Network → UdpConnectionVars → UdpConnectionVars → Network → List ℕ
  slave_sync nm m s ns =
      to_vec bo (sync_of (record s { ack_number = SeqNumber.add nm.sequence 1 }) ns.sequence)

  exchange_syncs-master :
      (nm ns : Network) (m s : UdpConnectionVars) (more : List SyncEvent)
      → m.state ≡ sent_hello
      → nm.sync_sent ≡ true
      → nm.syncs ≡ sync_datagram (slave_sync nm m s ns) ∷ more
      → IsU32 (calculate_recv_window s)
      → exchange_syncs bo xx true nm m ≡ done (master_after nm m s ns, ok (master_sync nm m))
  unfolding exchange_syncs set_state_sent_sync calculate_recv_window
  exchange_syncs-master nm ns m s more start sent arrives hw = simp (
    send_sync_packet_lem nm m sent,
    start,
    arrives,
    wait_for_sync_packet-sync (record s { ack_number = SeqNumber.add nm.sequence 1 }) ns.sequence
        more
        (record m {
          state = sent_sync;
          sequence_number = SeqNumber.add nm.sequence 1;
          peer_ack_number = nm.sequence;
        })
        (omega arith) hw,
  )

  exchange_syncs-slave :
      (nm ns : Network) (m s : UdpConnectionVars) (more : List SyncEvent)
      → s.state ≡ sent_hello
      → ns.sync_sent ≡ true
      → ns.syncs ≡ sync_datagram (master_sync nm m) ∷ more
      → IsU32 m.ack_number
      → IsU32 (calculate_recv_window m)
      → exchange_syncs bo xx false ns s ≡ done (slave_after nm m s ns, ok (slave_sync nm m s ns))
  unfolding exchange_syncs set_state_waiting_for_sync calculate_recv_window
  exchange_syncs-slave nm ns m s more start sent arrives ha hw = simp (
    start,
    arrives,
    wait_for_sync_packet-sync m nm.sequence more (record s { state = waiting_for_sync }) ha hw,
    send_sync_packet_lem ns (greeted nm m s) sent,
  )

  -- Where both sides have sent their hellos, their syncs can be sent, the numbers in the syncs fit
  -- 32 bits, and the sync of each side is the first to arrive at the other, the exchange succeeds
  -- on both sides. Each has acknowledged exactly the position from which the other numbers its
  -- data, as a stream needs at its start, knows the receive window of the other, and can be set
  -- connected.
  pub handshake_lem :
      (nm ns : Network) (m s : UdpConnectionVars) (to_master to_slave : List SyncEvent)
      → m.state ≡ sent_hello
      → s.state ≡ sent_hello
      → nm.sync_sent ≡ true
      → ns.sync_sent ≡ true
      → nm.syncs ≡ sync_datagram (slave_sync nm m s ns) ∷ to_master
      → ns.syncs ≡ sync_datagram (master_sync nm m) ∷ to_slave
      → IsU32 m.ack_number
      → IsU32 (calculate_recv_window m)
      → IsU32 (calculate_recv_window s)
      → (m' : UdpConnectionVars) × (s' : UdpConnectionVars) × (exchange_syncs bo xx true nm m
          ≡ done (m', ok (master_sync nm m)))
        × (exchange_syncs bo xx false ns s ≡ done (s', ok (slave_sync nm m s ns)))
        × (m'.ack_number ≡ s'.sequence_number)
        × (s'.ack_number ≡ m'.sequence_number)
        × (m'.peer_window ≡ calculate_recv_window s')
        × (s'.peer_window ≡ calculate_recv_window m')
        × (m'.state ≡ sent_sync)
        × (s'.state ≡ waiting_for_sync)
  unfolding calculate_recv_window
  handshake_lem nm ns m s to_master to_slave hm hs sm ss am at ha wm ws = (
    master_after nm m s ns,
    slave_after nm m s ns,
    exchange_syncs-master nm ns m s to_master hm sm am ws,
    exchange_syncs-slave nm ns m s to_slave hs ss at ha wm,
    refl,
    refl,
    refl,
    refl,
    refl,
    refl,
  )

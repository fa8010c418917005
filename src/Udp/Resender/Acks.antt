-- ===== src/Udp/Resender/Acks.antt =====
-- What an acknowledgement and a loss do to the packets that have been sent.
use native.Mathlib.Decide.{dec_lt}
use tunshell.Prelude.{
  ap, max, ◌*◌, ◌⊎◌, ℕ, ◌+◌, ◌/◌, ◌%◌, ◌^◌, ◌≤◌, ◌<◌, ◌≡◌, refl, ◌∙◌, true, false, Bool-cases, inl,
  inr, List, [], ◌∷◌, ◌++◌, none, some, done, arith, ltb, if◌then◌else◌, ==_refl, ◌==◌,
}
use tunshell.Prelude.Crates.{XxHash}
use tunshell.Prelude.Maps.{lookup, retain, lookup-retain, lookup-remove}
use tunshell.Prelude.Words.{IsU32, u32_max}
use tunshell.Udp.Congestion.{wake_pending_send_events, decrease_transit_window_after_drop}
use tunshell.Udp.Packet.{UdpPacket, is_checksum_valid, calculate_checksum}
use tunshell.Udp.Receiver.{calculate_recv_window}
use tunshell.Udp.SeqNumber
use tunshell.Udp.SeqNumber.Order.{gt-add_window, gt-add_self}
use tunshell.Udp.State.{UdpConnectionVars, SendEvent, is_connected, resend, close}
use tunshell.Udp.State.Events.{send_event_lem}
use tunshell.Udp.Resender.{
  update_peer_ack_number, look_at_packet, ResendTask, taken, resend_packet, update_resending_packet,
}

sent_packets-wake :
    (con : UdpConnectionVars) → (wake_pending_send_events con).sent_packets ≡ con.sent_packets
unfolding wake_pending_send_events
sent_packets-wake con = refl

peer_ack_number-wake :
    (con : UdpConnectionVars) → (wake_pending_send_events con).peer_ack_number ≡ con.peer_ack_number
unfolding wake_pending_send_events
peer_ack_number-wake con = refl

newer_ack :
    (con : UdpConnectionVars) (ack : ℕ)
    → SeqNumber.gt ack con.peer_ack_number ≡ true
    → let d = update_peer_ack_number con ack in
      (d.peer_ack_number ≡ ack)
      × (d.sent_packets ≡ retain (λ k. SeqNumber.gt k ack) con.sent_packets)
unfolding update_peer_ack_number
newer_ack con ack e = rw e (peer_ack_number-wake _, sent_packets-wake _)

older_ack :
    (con : UdpConnectionVars) (ack : ℕ)
    → SeqNumber.gt ack con.peer_ack_number ≡ false
    → update_peer_ack_number con ack ≡ con
unfolding update_peer_ack_number
older_ack con ack e = rw e

-- An acknowledgement of `advance` numbers beyond the last one, less than half the sequence space,
-- moves the acknowledged position there, forgets the packets up to it and keeps those beyond; an
-- acknowledgement of none changes nothing.
pub update_peer_ack_number_lem :
    (con : UdpConnectionVars) (advance j : ℕ)
    → IsU32 con.peer_ack_number
    → advance < u32_max / 2
    → j < u32_max / 2
    → let d = update_peer_ack_number con (SeqNumber.add con.peer_ack_number advance) in
      let key = SeqNumber.add con.peer_ack_number j in
      (d.peer_ack_number ≡ SeqNumber.add con.peer_ack_number advance)
      × (lookup key d.sent_packets ≡ (
          if ltb 0 advance
          then (if ltb advance j then lookup key con.sent_packets else none)
          else lookup key con.sent_packets))
update_peer_ack_number_lem con advance j h ha hj =
    let b = con.peer_ack_number in
    let newer : SeqNumber.gt (SeqNumber.add b advance) b ≡ ltb 0 advance =
      gt-add_self b advance h ha in
    let beyond = gt-add_window b j advance h hj ha in
    elim (Bool-cases (ltb 0 advance)) [
      | inl more ↦
          (let d = newer_ack con (SeqNumber.add b advance) (newer ∙ more) in
            (
              d.0,
              rw (
                d.1,
                lookup-retain (λ k. SeqNumber.gt k (SeqNumber.add b advance)) (SeqNumber.add b j)
                    con.sent_packets,
                beyond,
                more,
              ),
            ))
      | inr same ↦
          rw (older_ack con (SeqNumber.add b advance) (newer ∙ same), same) (ground arith, refl)
    ]

-- `again` is `packet` sent again by `con`.
pub record IsResent (xx : XxHash) (con : UdpConnectionVars) (packet again : UdpPacket)
    : Type 0 where
  pub sequence_number : again.sequence_number ≡ packet.sequence_number
  pub payload : again.payload ≡ packet.payload
  pub resend_count : again.resend_count ≡ packet.resend_count + 1
  pub ack_number : again.ack_number ≡ con.ack_number
  pub window : again.window ≡ calculate_recv_window con
  pub checksum : is_checksum_valid xx again ≡ true

module _ (xx : XxHash) (con : UdpConnectionVars) (packet : UdpPacket) where
  abbrev counted : UdpPacket
  counted = record packet { resend_count = (packet.resend_count + 1) % 2 ^ 8 }

  update_resending_packet-IsResent :
      packet.resend_count + 1 < 2 ^ 8
      → IsResent xx con packet (update_resending_packet xx con counted)
  unfolding update_resending_packet is_checksum_valid calculate_checksum
  update_resending_packet-IsResent small = record {
    sequence_number = refl;
    payload = refl;
    resend_count = omega arith;
    ack_number = refl;
    window = refl;
    checksum = ==_refl (calculate_checksum xx (update_resending_packet xx con counted));
  }

  decrease_transit_window_lem :
      con.transit_window * 3 < 2 ^ 32
      → decrease_transit_window_after_drop con
        ≡ record con { transit_window = max 576 (con.transit_window * 3 / 4) }
  unfolding decrease_transit_window_after_drop
  decrease_transit_window_lem fits =
      ap (λ n. record con { transit_window = max 576 (n / 4) }) (omega arith)

  event_sender-decrease : (decrease_transit_window_after_drop con).event_sender ≡ con.event_sender
  unfolding decrease_transit_window_after_drop
  event_sender-decrease = refl

  -- On a connection with its channel, below 255 resends, where the counter would wrap, and with a
  -- transit window whose triple is below 2^32: a packet that was lost, and that with this resend has
  -- been sent again fewer times than the limit, is sent again with its sequence number and payload,
  -- the acknowledgement and window of now, and a valid checksum, and the transit window becomes three
  -- quarters of what it was, but at least 576; where this resend would be the one that reaches the
  -- limit, the connection is closed instead.
  pub resend_packet_lem :
      (channel : List SendEvent)
      → con.event_sender ≡ some channel
      → packet.resend_count + 1 < 2 ^ 8
      → con.transit_window * 3 < 2 ^ 32
      → ((packet.resend_count + 1 < con.config.packet_resend_limit)
          × ((again : UdpPacket) × IsResent xx con packet again
              × (resend_packet xx con packet
                  ≡ done (record con {
                    transit_window = max 576 (con.transit_window * 3 / 4);
                    event_sender = some (channel ++ (resend again ∷ []));
                  }))))
        ⊎ ((con.config.packet_resend_limit ≤ packet.resend_count + 1)
            × (resend_packet xx con packet
                ≡ done (record con { event_sender = some (channel ++ (close ∷ [])) })))
  unfolding resend_packet
  resend_packet_lem channel h small fits =
      let again = update_resending_packet xx con counted in
      let shrunk = decrease_transit_window_after_drop con in
      elim (dec_lt (packet.resend_count + 1) con.config.packet_resend_limit) [
        | yes below ↦ inl (
          below,
          (
            again,
            update_resending_packet-IsResent small,
            ground (arith, send_event_lem shrunk (resend again) channel (event_sender-decrease ∙ h))
                ∙ ap
                    (λ (c : UdpConnectionVars).
                      done (record c { event_sender = some (channel ++ (resend again ∷ [])) }))
                    (decrease_transit_window_lem fits),
          ),
        )
        | no limit ↦ inr (omega arith, ground (arith, send_event_lem con close channel h))
      ]

-- The resending task takes a packet out of the sent ones only where it is the first that the peer
-- has not acknowledged and the connection is up; nothing else about the sent packets changes.
pub look_at_packet_lem :
    (con con' : UdpConnectionVars) (t : ResendTask) (packet : UdpPacket)
    → look_at_packet con t ≡ done (con', taken (some packet))
    → (is_connected con ≡ true)
      × (t.packet_key ≡ SeqNumber.add con.peer_ack_number 1)
      × (lookup t.packet_key con.sent_packets ≡ some packet)
      × ((k : ℕ)
          → lookup k con'.sent_packets
            ≡ (if t.packet_key == k then none else lookup k con.sent_packets))
unfolding look_at_packet
look_at_packet_lem con con' t packet h = (
  ground arith,
  ground arith,
  ground arith,
  λ k. ground (arith, lookup-remove t.packet_key k con.sent_packets),
)

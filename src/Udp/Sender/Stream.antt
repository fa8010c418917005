-- ===== src/Udp/Sender/Stream.antt =====
-- The stream that a sender's packets carry, and the way from a sender to a receiver.
use tunshell.Prelude.{
  ℕ, ◌+◌, ◌^◌, ◌<◌, ◌≡◌, refl, sym, ap, ◌⊎◌, inl, inr, ◌==◌, if◌then◌else◌, ◌∙◌, true, List, [],
  ◌∷◌, ◌++◌, arith, length as list_length, append_assoc, append-nil, take, All, Returns,
}
use tunshell.Prelude.Crates.{XxHash}
use tunshell.Prelude.Words.{u32}
use tunshell.Udp.Packet.{UdpPacket, end_sequence_number, data_packet, data_type}
use tunshell.Udp.Packet.Create.{create_lem, max_payload}
use tunshell.Udp.Receiver.{calculate_recv_window}
use tunshell.Udp.Receiver.Delivery.{
  RecvOp, arrive, read, run_receiver, CarriesOp, run_receiver-HasPrefix,
}
use tunshell.Udp.Receiver.Stream.{Segments, end_position, end_position-append, Carries, HasPrefix}
use tunshell.Udp.Sender.{create_data_packet}
use tunshell.Udp.SeqNumber
use tunshell.Udp.State.{UdpConnectionVars}
use tunshell.Udp.State.Machine.{has_channel}

-- What one packet takes of each buffer.
abbrev pub segments_of : List (List ℕ) → Segments
segments_of [] = []
segments_of (buff ∷ buffs) = take max_payload buff ∷ segments_of buffs

abbrev pub NonEmpty : List ℕ → Type 0
NonEmpty buff = 0 < list_length buff

module _ (xx : XxHash) where
  -- The calls that a writer's buffers lead to, with the packets in order.
  unfoldable pub run_sender : UdpConnectionVars → List (List ℕ) → UdpConnectionVars × List UdpPacket
  run_sender con [] = (con, [])
  run_sender con (buff ∷ buffs) =
      let (con', packet) = create_data_packet xx con buff in
      let (con'', packets) = run_sender con' buffs in (con'', packet ∷ packets)

  create_data_packet_lem :
      (con : UdpConnectionVars) (buff : List ℕ)
      → NonEmpty buff
      → let (con', p) = create_data_packet xx con buff in
        (p.sequence_number ≡ SeqNumber.add con.sequence_number 1)
        × (p.payload ≡ take max_payload buff)
        × (p.length ≡ list_length p.payload)
        × (p.length < 2 ^ 16)
        × (con'.sequence_number ≡ end_sequence_number p)
  unfolding create_data_packet data_packet
  create_data_packet_lem con buff h =
      let made =
        create_lem xx data_type
          (if list_length buff == 0
            then con.sequence_number
            else SeqNumber.add con.sequence_number 1)
          con.ack_number (calculate_recv_window con) buff in
      (ground arith, made.0, made.1, omega arith, refl)

  run_sender-Carries :
      (con : UdpConnectionVars) (buffs : List (List ℕ)) (base : ℕ) (before segments : Segments)
      → segments ≡ before ++ segments_of buffs
      → con.sequence_number ≡ u32 (end_position base before)
      → All NonEmpty buffs
      → All (Carries base segments) (run_sender con buffs).1
        × ((run_sender con buffs).0.sequence_number ≡ u32 (end_position base segments))
  unfolding run_sender
  run_sender-Carries con [] base before segments e h ne =
      (tt, h ∙ ap (λ z. u32 (end_position base z)) (sym (e ∙ append-nil before)))
  run_sender-Carries con (buff ∷ buffs) base before segments e h ne =
      let p = (create_data_packet xx con buff).1 in
      let made = create_data_packet_lem con buff ne.0 in
      let rest =
        run_sender-Carries (create_data_packet xx con buff).0 buffs base
          (before ++ (take max_payload buff ∷ [])) segments
          (e ∙ sym (append_assoc before (take max_payload buff ∷ []) (segments_of buffs)))
          (made.4
            ∙ omega (
              arith,
              made,
              h,
              ap list_length made.1,
              end_position-append base before (take max_payload buff ∷ []),
            ))
          ne.1 in
      (
        (
          record {
            before = before;
            after = segments_of buffs;
            cut = e ∙ ap (λ z. before ++ (z ∷ segments_of buffs)) (sym made.1);
            position = made.0 ∙ omega (arith, h);
            size = made.2;
            fits = made.3;
          },
          rest.0,
        ),
        rest.1,
      )

-- `p` is `q`, perhaps sent again: its acknowledgement, window and checksum may be newer.
pub record IsCopy (p q : UdpPacket) : Type 0 where
  pub sequence_number : p.sequence_number ≡ q.sequence_number
  pub payload : p.payload ≡ q.payload
  pub length : p.length ≡ q.length

-- Each packet that arrives is a copy of one that was created.
abbrev pub CopyOf : List UdpPacket → UdpPacket → Type 0
CopyOf [] p = ⊥
CopyOf (q ∷ qs) p = IsCopy p q ⊎ CopyOf qs p

abbrev pub ArrivesFrom : List UdpPacket → RecvOp → Type 0
ArrivesFrom packets (arrive p) = CopyOf packets p
ArrivesFrom packets (read len) = Unit {0}

module _ (base : ℕ) (segments : Segments) (short : end_position base segments < base + 2 ^ 32) where
  CopyOf-Carries :
      (packets : List UdpPacket) (p : UdpPacket)
      → All (Carries base segments) packets
      → CopyOf packets p
      → Carries base segments p
  CopyOf-Carries [] p c m = absurd m
  CopyOf-Carries (q ∷ qs) p c (inl same) = record {
    before = c.0.before;
    after = c.0.after;
    cut = c.0.cut ∙ ap (λ z. c.0.before ++ (z ∷ c.0.after)) (sym same.payload);
    position = same.sequence_number ∙ c.0.position;
    size = same.length ∙ c.0.size ∙ ap list_length (sym same.payload);
    fits = omega (arith, same.length, c.0.fits);
  }
  CopyOf-Carries (q ∷ qs) p c (inr m) = CopyOf-Carries qs p c.1 m

  ops-Carry :
      (packets : List UdpPacket) (ops : List RecvOp)
      → All (Carries base segments) packets
      → All (ArrivesFrom packets) ops
      → All (CarriesOp base segments short) ops
  ops-Carry packets [] c a = tt
  ops-Carry packets (arrive p ∷ ops) c a =
      (CopyOf-Carries packets p c a.0, ops-Carry packets ops c a.1)
  ops-Carry packets (read len ∷ ops) c a = (tt, ops-Carry packets ops c a.1)

-- From a sender to a receiver that has its channel, holds nothing and has acknowledged all that was
-- sent before: whatever the network does with the packets of some non-empty writes, whose payload
-- bytes with one more number for each packet are fewer than 2^32 (lose, repeat, reorder or delay
-- them, or resend them later), and whenever the reader reads, the receiver never panics, and the
-- bytes read so far, followed by those in its buffer, are those of the first few writes, each cut to
-- the size of a packet.
pub transport-HasPrefix :
    (xx : XxHash) (sender receiver : UdpConnectionVars) (buffs : List (List ℕ)) (base : ℕ)
    (ops : List RecvOp)
    → end_position base (segments_of buffs) < base + 2 ^ 32
    → All NonEmpty buffs
    → sender.sequence_number ≡ u32 base
    → receiver.ack_number ≡ u32 base
    → receiver.recv_packets ≡ []
    → receiver.reassembled_buffer ≡ []
    → has_channel receiver ≡ true
    → All (ArrivesFrom (run_sender xx sender buffs).1) ops
    → Returns
        (λ (out : UdpConnectionVars × List ℕ).
          HasPrefix base (segments_of buffs) out.0.ack_number (out.1 ++ out.0.reassembled_buffer))
        (run_receiver receiver [] ops)
transport-HasPrefix xx sender receiver buffs base ops short ne hs ha hp hb hc from =
    run_receiver-HasPrefix base (segments_of buffs) short receiver ops ha hp hb hc (
      ops-Carry base (segments_of buffs) short (run_sender xx sender buffs).1 ops
        (run_sender-Carries xx sender buffs base [] (segments_of buffs) refl hs ne).0 from)

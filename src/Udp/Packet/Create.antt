-- ===== src/Udp/Packet/Create.antt =====
-- The packets that `UdpPacket::create` builds, and which packets overlap.
use tunshell.Prelude.{
  ℕ, ◌+◌, ◌-◌, ◌^◌, ◌%◌, ◌≤◌, ◌<◌, ◌≡◌, true, false, List, ◌++◌, done, ok, arith, min,
  length as list_length, take-min, ==_refl, refl, max, ◌↔◌, take, length-take,
}
use tunshell.Prelude.Words.{IsU32}
use tunshell.Prelude.Crates.{ByteOrder, XxHash}
use tunshell.Udp.Packet.{
  UdpPacket, UdpPacketType, max_packet_size, udp_packet_header_size, parse, to_vec, create,
  is_checksum_valid, calculate_checksum, packet_len, overlaps,
}
use tunshell.Udp.Packet.Codec.{IsWire, parse-to_vec}

abbrev pub max_payload : ℕ
max_payload = max_packet_size - udp_packet_header_size

u16-min : (n : ℕ) → min n max_payload % 2 ^ 16 ≡ min n max_payload
u16-min n = omega arith

module _ (xx : XxHash) (t : UdpPacketType) (seq ack window : ℕ) (buff : List ℕ) where
  -- The payload is as much of the buffer as a packet holds, the length is the payload's, the packet
  -- is never longer than `MAX_PACKET_SIZE`, and its checksum is valid.
  pub create_lem :
      let p = create xx t seq ack window buff in
      (p.payload ≡ take max_payload buff)
      × (p.length ≡ list_length p.payload)
      × (packet_len p ≤ max_packet_size)
      × (is_checksum_valid xx p ≡ true)
  unfolding create is_checksum_valid calculate_checksum
  create_lem =
      rw (u16-min (list_length buff), take-min max_payload buff, ==_refl)
        (
          refl,
          omega (arith, length-take max_payload buff),
          omega (arith, length-take max_payload buff),
          refl,
        )

  pub create-IsWire :
      IsU32 seq → IsU32 ack → IsU32 window → IsWire (create xx t seq ack window buff)
  unfolding create calculate_checksum
  create-IsWire hs ha hw = record {
    sequence_number = hs;
    ack_number = ha;
    window = hw;
    length = omega arith;
    checksum = omega arith;
    payload = omega (arith, create_lem);
  }

  -- A packet created from numbers of 32 bits goes over the wire: it is parsed from its bytes,
  -- whatever follows them in the buffer, as the same packet.
  pub parse-create :
      (bo : ByteOrder) (rest : List ℕ)
      → IsU32 seq
      → IsU32 ack
      → IsU32 window
      → let p = create xx t seq ack window buff in parse bo (to_vec bo p ++ rest) ≡ done (ok p)
  unfolding create
  parse-create bo rest hs ha hw =
      parse-to_vec bo (create xx t seq ack window buff) rest (create-IsWire hs ha hw)

-- Overlapping does not depend on which of the two packets is asked.
pub overlaps_comm : (p q : UdpPacket) → overlaps p q ≡ overlaps q p
unfolding overlaps
overlaps_comm p q = ground arith

-- Where neither packet runs past the end of the sequence space, two packets overlap exactly if
-- their closed ranges of sequence numbers share one.
pub overlaps_iff :
    (p q : UdpPacket)
    → p.sequence_number + p.length < 2 ^ 32
    → q.sequence_number + q.length < 2 ^ 32
    → (overlaps p q ≡ true) ↔ (
        (n : ℕ) × (p.sequence_number ≤ n)
        × (n ≤ p.sequence_number + p.length)
        × (q.sequence_number ≤ n)
        × (n ≤ q.sequence_number + q.length))
unfolding overlaps
overlaps_iff p q hp hq = (
  λ h. (
    max p.sequence_number q.sequence_number,
    ground arith,
    ground arith,
    ground arith,
    ground arith,
  ),
  λ (n, a, b, c, d). ground arith,
)

-- A packet that runs past the end of the sequence space does not overlap itself, so a copy of it is
-- not seen as one.
pub overlaps-self_wrapped :
    (p : UdpPacket)
    → p.sequence_number < 2 ^ 32
    → p.length < 2 ^ 16
    → 2 ^ 32 ≤ p.sequence_number + p.length
    → overlaps p p ≡ false
unfolding overlaps
overlaps-self_wrapped p hs hl h = ground arith

-- ===== src/Udp/Packet/Codec.antt =====
-- Reading and writing of a datagram: the two are inverse, and no input makes the reader panic.
use native.Mathlib.Decide.{dec_lt}
use tunshell.Prelude.{
  ℕ, suc, ◌+◌, ◌-◌, ◌*◌, ◌/◌, ◌%◌, ◌^◌, ◌≡◌, refl, take-append, length-append, lt→ltb, le→not-ltb,
  List, ◌∷◌, ◌++◌, done, ok, err, arith, ltb, leb, true, ◌≤◌, if◌then◌else◌, length,
  length as list_length, take, drop,
}
use tunshell.Prelude.Words.{IsU16, IsU32}
use tunshell.Prelude.Crates.{ByteOrder}
use tunshell.Udp.Packet.{
  UdpPacket, UdpPacketType, UdpPacketParseError, payload_length_mismatch, parse, parse_type,
  parse_header, parse_fields, to_vec, to_byte, open_type, data_type, close_type,
}

abbrev pub word16 : ℕ → ℕ → ℕ
word16 a b = a * 256 + b

abbrev pub word32 : ℕ → ℕ → ℕ → ℕ → ℕ
word32 a b c d = ((a * 256 + b) * 256 + c) * 256 + d

-- The length of a datagram with `n` bytes after its header.
abbrev past_header : ℕ → ℕ
past_header n = suc (
    suc (
      suc (
        suc (
          suc (
            suc (suc (suc (suc (suc (suc (suc (suc (suc (suc (suc (suc (suc (suc n))))))))))))))))))

header_skipped : (n : ℕ) → past_header n - n ≡ 19
header_skipped n = omega arith

length_skipped : (n : ℕ) → 19 + n - 19 ≡ n
length_skipped n = omega arith

ltb_skipped : (n l : ℕ) → ltb (past_header n) (19 + l) ≡ ltb n l
ltb_skipped n l = ground arith

start_within : (l : ℕ) → leb 19 (19 + l) ≡ true
start_within l = ground arith

end_within : (n l : ℕ) → l ≤ n → leb (19 + l) (past_header n) ≡ true
end_within n l h = ground arith

module _ (t s0 s1 s2 s3 a0 a1 a2 a3 w0 w1 w2 w3 l0 l1 c0 c1 c2 c3 : ℕ) (rest : List ℕ) where
  abbrev pub datagram : List ℕ
  datagram =
      t ∷ s0 ∷ s1 ∷ s2 ∷ s3 ∷ a0 ∷ a1 ∷ a2 ∷ a3 ∷ w0 ∷ w1 ∷ w2 ∷ w3 ∷ l0 ∷ l1 ∷ c0 ∷ c1 ∷ c2 ∷ c3
      ∷ rest

  abbrev pub fields : UdpPacketType → UdpPacket
  fields ty = record {
    packet_type = ty;
    sequence_number = word32 s0 s1 s2 s3;
    ack_number = word32 a0 a1 a2 a3;
    window = word32 w0 w1 w2 w3;
    length = word16 l0 l1;
    checksum = word32 c0 c1 c2 c3;
    payload = take (word16 l0 l1) rest;
    resend_count = 0;
  }

  parse_fields_lem :
      (bo : ByteOrder) (ty : UdpPacketType)
      → parse_fields bo datagram (drop 1 datagram) ty ≡ (
          if ltb (length rest) (word16 l0 l1)
          then done (err (payload_length_mismatch (word16 l0 l1) (length datagram)))
          else done (ok (fields ty)))
  unfolding parse_fields
  parse_fields_lem bo ty = elim (dec_lt (length rest) (word16 l0 l1)) [
    | yes short ↦ rw (
      bo.read_u32-cons s0 s1 s2 s3,
      bo.read_u32-cons a0 a1 a2 a3,
      bo.read_u32-cons w0 w1 w2 w3,
      bo.read_u16-cons l0 l1,
      bo.read_u32-cons c0 c1 c2 c3,
      header_skipped (length rest),
      ltb_skipped (length rest) (word16 l0 l1),
      lt→ltb (length rest) (word16 l0 l1) short,
    )
    | no fits ↦ rw (
      bo.read_u32-cons s0 s1 s2 s3,
      bo.read_u32-cons a0 a1 a2 a3,
      bo.read_u32-cons w0 w1 w2 w3,
      bo.read_u16-cons l0 l1,
      bo.read_u32-cons c0 c1 c2 c3,
      header_skipped (length rest),
      ltb_skipped (length rest) (word16 l0 l1),
      le→not-ltb (length rest) (word16 l0 l1) (omega arith),
      start_within (word16 l0 l1),
      end_within (length rest) (word16 l0 l1) (omega arith),
      length_skipped (word16 l0 l1),
    )
  ]

  pub parse_lem :
      (bo : ByteOrder) (ty : UdpPacketType)
      → parse_type t ≡ ok ty
      → parse bo datagram ≡ (
          if ltb (length rest) (word16 l0 l1)
          then done (err (payload_length_mismatch (word16 l0 l1) (length datagram)))
          else done (ok (fields ty)))
  unfolding parse parse_header
  parse_lem bo ty h =
      rw (bo.read_u8-cons t (drop 1 datagram)) (ground (arith, parse_fields_lem bo ty))

  pub parse_bad_type :
      (bo : ByteOrder) (e : UdpPacketParseError)
      → parse_type t ≡ err e
      → parse bo datagram ≡ done (err e)
  unfolding parse parse_header
  parse_bad_type bo e h = rw (bo.read_u8-cons t (drop 1 datagram)) (ground arith)

-- A packet whose fields fit their widths and whose length field is that of its payload.
pub record IsWire (p : UdpPacket) : Type 0 where
  pub sequence_number : IsU32 p.sequence_number
  pub ack_number : IsU32 p.ack_number
  pub window : IsU32 p.window
  pub length : IsU16 p.length
  pub checksum : IsU32 p.checksum
  pub payload : p.length ≡ list_length p.payload

parse_type-to_byte : (t : UdpPacketType) → parse_type (to_byte t) ≡ ok t
unfolding parse_type
parse_type-to_byte open_type = refl
parse_type-to_byte data_type = refl
parse_type-to_byte close_type = refl

abbrev pub hi : ℕ → ℕ
hi n = n / 2 ^ 24

abbrev pub upper : ℕ → ℕ
upper n = n / 2 ^ 16 % 256

abbrev pub lower : ℕ → ℕ
lower n = n / 2 ^ 8 % 256

abbrev pub lo : ℕ → ℕ
lo n = n % 256

word32-bytes : (n : ℕ) → IsU32 n → word32 (hi n) (upper n) (lower n) (lo n) ≡ n
word32-bytes n h = omega arith

word16-bytes : (n : ℕ) → word16 (n / 256) (n % 256) ≡ n
word16-bytes n = omega arith

module _ (p : UdpPacket) (rest : List ℕ) where
  open p use {sequence_number as s, ack_number as a, window as w, length as l, checksum as c}

  abbrev pub wire : List ℕ
  wire =
      datagram (to_byte p.packet_type) (hi s) (upper s) (lower s) (lo s) (hi a) (upper a) (lower a)
        (lo a) (hi w) (upper w) (lower w) (lo w) (l / 256) (l % 256) (hi c) (upper c) (lower c)
        (lo c) rest

  parse-wire :
      (bo : ByteOrder)
      → parse bo wire ≡ (
          if ltb (list_length rest) (word16 (l / 256) (l % 256))
          then done (err (payload_length_mismatch (word16 (l / 256) (l % 256)) (list_length wire)))
          else done (
              ok (record {
                packet_type = p.packet_type;
                sequence_number = word32 (hi s) (upper s) (lower s) (lo s);
                ack_number = word32 (hi a) (upper a) (lower a) (lo a);
                window = word32 (hi w) (upper w) (lower w) (lo w);
                length = word16 (l / 256) (l % 256);
                checksum = word32 (hi c) (upper c) (lower c) (lo c);
                payload = take (word16 (l / 256) (l % 256)) rest;
                resend_count = 0;
              })))
  parse-wire bo =
      parse_lem (to_byte p.packet_type) (hi s) (upper s) (lower s) (lo s) (hi a) (upper a) (lower a)
        (lo a) (hi w) (upper w) (lower w) (lo w) (l / 256) (l % 256) (hi c) (upper c) (lower c)
        (lo c) rest bo p.packet_type (parse_type-to_byte p.packet_type)

module _ (bo : ByteOrder) where
  pub to_vec-wire : (p : UdpPacket) → IsWire p → to_vec bo p ≡ wire p p.payload
  unfolding to_vec
  to_vec-wire p v = rw (
    bo.write_u32-bytes p.sequence_number v.sequence_number,
    bo.write_u32-bytes p.ack_number v.ack_number,
    bo.write_u32-bytes p.window v.window,
    bo.write_u16-bytes p.length v.length,
    bo.write_u32-bytes p.checksum v.checksum,
  )

  -- For a packet whose fields fit their widths and whose length is that of its payload: reading
  -- what was written, whatever follows it in the buffer, gives the packet back; only the resend
  -- counter, which is not sent, starts at 0.
  pub parse-to_vec :
      (p : UdpPacket) (rest : List ℕ)
      → IsWire p
      → parse bo (to_vec bo p ++ rest) ≡ done (ok (record p { resend_count = 0 }))
  parse-to_vec p rest v = rw (
    to_vec-wire p v,
    parse-wire p (p.payload ++ rest) bo,
    word32-bytes p.sequence_number v.sequence_number,
    word32-bytes p.ack_number v.ack_number,
    word32-bytes p.window v.window,
    word16-bytes p.length,
    word32-bytes p.checksum v.checksum,
    take-append p.length p.payload rest v.payload,
    le→not-ltb (list_length (p.payload ++ rest)) p.length
        (omega (arith, v.payload, length-append p.payload rest)),
  )

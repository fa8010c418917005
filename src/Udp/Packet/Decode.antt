-- ===== src/Udp/Packet/Decode.antt =====
-- What `UdpPacket::parse` accepts: every input is answered, and an accepted one is a written
-- packet.
use tunshell.Prelude.{
  ℕ, ◌+◌, ◌*◌, ◌^◌, ◌≤◌, ◌<◌, ◌≡◌, refl, subst, ◌⊎◌, inl, inr, ◌≢◌, List, ◌∷◌, ◌++◌, done, panic,
  ok, err, arith, length as list_length, drop, All, take-append-drop, length-take,
}
use tunshell.Prelude.Words.{IsU8, IsU32}
use tunshell.Prelude.Crates.{ByteOrder}
use tunshell.Udp.Packet.{
  UdpPacket, UdpPacketType, invalid_type, parse, parse_type, to_vec, to_byte, buffer_too_small,
}
use tunshell.Udp.Packet.Codec.{
  datagram, fields, parse_lem, parse_bad_type, to_vec-wire, IsWire, word32, hi, upper, lower, lo,
}

parse_type-cases :
    (t : ℕ)
    → ((ty : UdpPacketType) × (parse_type t ≡ ok ty) × (to_byte ty ≡ t))
      ⊎ (parse_type t ≡ err (invalid_type t))
unfolding parse_type
parse_type-cases t = ground arith

hi-word32 : (a b c d : ℕ) → b < 2 ^ 8 → c < 2 ^ 8 → d < 2 ^ 8 → hi (word32 a b c d) ≡ a
hi-word32 a b c d hb hc hd = omega arith

upper-word32 : (a b c d : ℕ) → b < 2 ^ 8 → c < 2 ^ 8 → d < 2 ^ 8 → upper (word32 a b c d) ≡ b
upper-word32 a b c d hb hc hd = omega arith

lower-word32 : (a b c d : ℕ) → c < 2 ^ 8 → d < 2 ^ 8 → lower (word32 a b c d) ≡ c
lower-word32 a b c d hc hd = omega arith

lo-word32 : (a b c d : ℕ) → d < 2 ^ 8 → lo (word32 a b c d) ≡ d
lo-word32 a b c d hd = omega arith

word32-IsU32 :
    (a b c d : ℕ) → a < 2 ^ 8 → b < 2 ^ 8 → c < 2 ^ 8 → d < 2 ^ 8 → IsU32 (word32 a b c d)
word32-IsU32 a b c d ha hb hc hd = omega arith

-- What an accepted packet says of the bytes that it was read from.
abbrev pub Wrote : ByteOrder → List ℕ → UdpPacket → Type 0
Wrote bo bytes p =
    IsWire p × (p.resend_count ≡ 0) × ((rest : List ℕ) × (bytes ≡ to_vec bo p ++ rest))

module _ (bo : ByteOrder) (t s0 s1 s2 s3 a0 a1 a2 a3 w0 w1 w2 w3 l0 l1 c0 c1 c2 c3 : ℕ)
    (rest : List ℕ) where
  abbrev whole : List ℕ
  whole = datagram t s0 s1 s2 s3 a0 a1 a2 a3 w0 w1 w2 w3 l0 l1 c0 c1 c2 c3 rest

  abbrev read : UdpPacketType → UdpPacket
  read = fields t s0 s1 s2 s3 a0 a1 a2 a3 w0 w1 w2 w3 l0 l1 c0 c1 c2 c3 rest

  read-IsWire :
      (ty : UdpPacketType) → All IsU8 whole → l0 * 256 + l1 ≤ list_length rest → IsWire (read ty)
  read-IsWire ty h fits = record {
    sequence_number = omega arith;
    ack_number = omega arith;
    window = omega arith;
    length = omega arith;
    checksum = omega arith;
    payload = omega (arith, length-take (l0 * 256 + l1) rest);
  }

  to_vec-read :
      (ty : UdpPacketType)
      → to_byte ty ≡ t
      → All IsU8 whole
      → l0 * 256 + l1 ≤ list_length rest
      → whole ≡ to_vec bo (read ty) ++ drop (l0 * 256 + l1) rest
  to_vec-read ty e h fits =
      rw (to_vec-wire bo (read ty) (read-IsWire ty h fits), e)
        (ground (arith, take-append-drop (l0 * 256 + l1) rest))

  parse-whole :
      (ty : UdpPacketType)
      → parse_type t ≡ ok ty
      → (p : UdpPacket) → parse bo whole ≡ done (ok p)
      → (l0 * 256 + l1 ≤ list_length rest) × (read ty ≡ p)
  parse-whole ty good p e =
      ground
        (arith, parse_lem t s0 s1 s2 s3 a0 a1 a2 a3 w0 w1 w2 w3 l0 l1 c0 c1 c2 c3 rest bo ty good)

  parse-whole-Wrote :
      (p : UdpPacket) → All IsU8 whole → parse bo whole ≡ done (ok p) → Wrote bo whole p
  parse-whole-Wrote p h e = elim (parse_type-cases t) [
    | inr bad ↦ cc (
        parse_bad_type t s0 s1 s2 s3 a0 a1 a2 a3 w0 w1 w2 w3 l0 l1 c0 c1 c2 c3 rest bo
          (invalid_type t) bad)
    | inl (ty, good, byte) ↦
        (let (fits, same) = parse-whole ty good p e in
          subst (Wrote bo whole) same
            (read-IsWire ty h fits, refl, (drop (l0 * 256 + l1) rest, to_vec-read ty byte h fits)))
  ]

  parse-whole-ne-panic : parse bo whole ≢ panic
  parse-whole-ne-panic e = elim (parse_type-cases t) [
    | inr bad ↦ cc (
        parse_bad_type t s0 s1 s2 s3 a0 a1 a2 a3 w0 w1 w2 w3 l0 l1 c0 c1 c2 c3 rest bo
          (invalid_type t) bad)
    | inl (ty, good, byte) ↦
        ground
          (arith, parse_lem t s0 s1 s2 s3 a0 a1 a2 a3 w0 w1 w2 w3 l0 l1 c0 c1 c2 c3 rest bo ty good)
  ]

parse_short :
    (bo : ByteOrder) (bytes : List ℕ)
    → list_length bytes < 19
    → parse bo bytes ≡ done (err (buffer_too_small (list_length bytes)))
unfolding parse
parse_short bo bytes h = ground arith

-- Of bytes, the parser accepts only what the writer can have produced: the packet's fields fit
-- their widths, its length is that of its payload, it has not been resent, and the input begins
-- with the bytes that `to_vec` writes for it.
pub parse-Wrote :
    (bo : ByteOrder) (bytes : List ℕ) (p : UdpPacket)
    → All IsU8 bytes
    → parse bo bytes ≡ done (ok p)
    → Wrote bo bytes p
parse-Wrote bo
      (t ∷ s0 ∷ s1 ∷ s2 ∷ s3 ∷ a0 ∷ a1 ∷ a2 ∷ a3 ∷ w0 ∷ w1 ∷ w2 ∷ w3 ∷ l0 ∷ l1 ∷ c0 ∷ c1 ∷ c2 ∷ c3
        ∷ rest)
      p h e =
    parse-whole-Wrote bo t s0 s1 s2 s3 a0 a1 a2 a3 w0 w1 w2 w3 l0 l1 c0 c1 c2 c3 rest p h e
parse-Wrote bo bytes p h e = cc (parse_short bo bytes (omega arith))

-- No input of any length makes the parser panic.
pub parse-ne-panic : (bo : ByteOrder) (bytes : List ℕ) → parse bo bytes ≢ panic
parse-ne-panic bo
      (t ∷ s0 ∷ s1 ∷ s2 ∷ s3 ∷ a0 ∷ a1 ∷ a2 ∷ a3 ∷ w0 ∷ w1 ∷ w2 ∷ w3 ∷ l0 ∷ l1 ∷ c0 ∷ c1 ∷ c2 ∷ c3
        ∷ rest) =
    parse-whole-ne-panic bo t s0 s1 s2 s3 a0 a1 a2 a3 w0 w1 w2 w3 l0 l1 c0 c1 c2 c3 rest
parse-ne-panic bo bytes = λ e. cc (parse_short bo bytes (omega arith))

-- ===== src/Udp/Receiver/Stream.antt =====
-- A byte stream cut into segments, and the packets that carry them: each takes one sequence number
-- for itself and one for each byte. `Stream` fixes a stream that starts behind a base position and
-- is shorter than the sequence space.
use tunshell.Prelude.{
  ℕ, ◌+◌, ◌^◌, ◌≤◌, ◌<◌, ◌≡◌, refl, sym, ap, ◌∙◌, List, [], ◌∷◌, ◌++◌, arith, length as list_length,
  append_assoc, append-nil,
}
use tunshell.Prelude.Words.{u32}
use tunshell.Udp.Packet.{UdpPacket, end_sequence_number}

abbrev pub Segments : Type 0
Segments = List (List ℕ)

-- The position of the last byte, before any wrapping.
abbrev pub end_position : ℕ → Segments → ℕ
end_position base [] = base
end_position base (x ∷ xs) = end_position (base + 1 + list_length x) xs

abbrev pub bytes_of : Segments → List ℕ
bytes_of [] = []
bytes_of (x ∷ xs) = x ++ bytes_of xs

pub end_position-append :
    (base : ℕ) (xs ys : Segments)
    → end_position base (xs ++ ys) ≡ end_position (end_position base xs) ys
end_position-append base [] ys = refl
end_position-append base (x ∷ xs) ys = end_position-append (base + 1 + list_length x) xs ys

pub le-end_position : (base : ℕ) (xs : Segments) → base ≤ end_position base xs
le-end_position base [] = omega arith
le-end_position base (x ∷ xs) = omega (arith, le-end_position (base + 1 + list_length x) xs)

pub bytes_of-append : (xs ys : Segments) → bytes_of (xs ++ ys) ≡ bytes_of xs ++ bytes_of ys
bytes_of-append [] ys = refl
bytes_of-append (x ∷ xs) ys =
    rw (bytes_of-append xs ys) (sym (append_assoc x (bytes_of xs) (bytes_of ys)))

-- Two ways to cut one stream at the same position are the same cut.
pub same_cut :
    (base : ℕ) (pre post pre' post' : Segments)
    → pre ++ post ≡ pre' ++ post'
    → end_position base pre ≡ end_position base pre'
    → (pre ≡ pre') × (post ≡ post')
same_cut base [] post [] post' e h = (refl, e)
same_cut base [] post (x ∷ pre') post' e h =
    absurd (omega (arith, le-end_position (base + 1 + list_length x) pre'))
same_cut base (x ∷ pre) post [] post' e h =
    absurd (omega (arith, le-end_position (base + 1 + list_length x) pre))
same_cut base (x ∷ pre) post (y ∷ pre') post' e h =
    let heads : x ≡ y = cc in
    let rest =
      same_cut (base + 1 + list_length x) pre post pre' post' (cc)
        (h ∙ ap (λ z. end_position (base + 1 + list_length z) pre') (sym heads)) in
    (cc (rest.0), rest.1)

-- `p` carries one segment of the stream.
pub record Carries (base : ℕ) (segments : Segments) (p : UdpPacket) : Type 0 where
  pub before : Segments
  pub after : Segments
  pub cut : segments ≡ before ++ (p.payload ∷ after)
  pub position : p.sequence_number ≡ u32 (end_position base before + 1)
  pub size : p.length ≡ list_length p.payload
  pub fits : p.length < 2 ^ 16

-- The receiver has everything up to some cut of the stream.
pub record HasPrefix (base : ℕ) (segments : Segments) (ack : ℕ) (bytes : List ℕ) : Type 0 where
  pub before : Segments
  pub after : Segments
  pub cut : segments ≡ before ++ after
  pub position : ack ≡ u32 (end_position base before)
  pub received : bytes ≡ bytes_of before

module _ (base : ℕ) (segments : Segments) (short : end_position base segments < base + 2 ^ 32) where
  cut_in_range :
      (before after : Segments)
      → segments ≡ before ++ after
      → (base ≤ end_position base before) × (end_position base before < base + 2 ^ 32)
  cut_in_range before after e = (
    le-end_position base before,
    omega (
      arith,
      ap (end_position base) e,
      end_position-append base before after,
      le-end_position (end_position base before) after,
    ),
  )

  -- The packet that follows the acknowledged bytes carries the next segment.
  pub HasPrefix-next :
      {ack : ℕ} {bytes : List ℕ} {p : UdpPacket}
      → HasPrefix base segments ack bytes
      → Carries base segments p
      → u32 (ack + 1) ≡ p.sequence_number
      → HasPrefix base segments (end_sequence_number p) (bytes ++ p.payload)
  HasPrefix-next {ack} {bytes} {p} h c e =
      let here = cut_in_range h.before h.after h.cut in
      let there = cut_in_range c.before (p.payload ∷ c.after) c.cut in
      let meet : end_position base h.before ≡ end_position base c.before =
        omega (arith, h.position, c.position) in
      let same =
        same_cut base h.before h.after c.before (p.payload ∷ c.after) (sym h.cut ∙ c.cut) meet in
      record {
        before = c.before ++ (p.payload ∷ []);
        after = c.after;
        cut = c.cut ∙ sym (append_assoc c.before (p.payload ∷ []) c.after);
        position =
            omega (
              arith,
              c.position,
              c.size,
              c.fits,
              end_position-append base c.before (p.payload ∷ []),
            );
        received =
            rw (bytes_of-append c.before (p.payload ∷ []), append-nil p.payload)
              (ap (λ b. b ++ p.payload) (h.received ∙ ap bytes_of same.0));
      }

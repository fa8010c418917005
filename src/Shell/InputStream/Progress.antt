-- ===== src/Shell/InputStream/Progress.antt =====
-- A poll gives a token unless hardly anything is held.
use tunshell.Prelude.{
  ℕ, ◌≡◌, ◌∙◌, ◌⊎◌, refl, sym, subst, Bool-cases, true, false, inl, inr, ◌&&◌, List, [], ◌∷◌, ◌++◌,
  Option-cases, arith, ◌==◌, if◌then◌else◌, Waker,
}
use tunshell.Shell.InputStream.{
  InputStream, push_tokens, is_empty, Token, esc, arrow, control, push_bytes, Scanned, scan_byte,
  scan, parse_buff, take_token, next_token, poll_next,
}
use tunshell.Shell.InputStream.Lossless.{polled_tokens}

-- An arrow key of which a byte or two are missing.
abbrev pub IsPartial : List ℕ → Type 0
IsPartial left = (left ≡ []) ⊎ ((left ≡ esc ∷ []) ⊎ ((y : ℕ) × (left ≡ esc ∷ y ∷ [])))

scan_byte-IsPartial :
    (x : ℕ) (passed : List ℕ) (more : List ℕ → Scanned)
    → ((p : List ℕ) → IsPartial (more p).1)
    → IsPartial (scan_byte x passed more).1
unfolding scan_byte
scan_byte-IsPartial x passed more h = elim (Option-cases (control x)) [
  | inl e ↦ rw (e, scan_byte) (h (passed ++ (x ∷ [])))
  | inr (t, e) ↦ rw (e, scan_byte) (h [])
]

scan-IsPartial : (rest passed : List ℕ) → IsPartial (scan rest passed).1
unfolding scan
scan-IsPartial [] passed = inl refl
scan-IsPartial (x ∷ []) passed = elim (Bool-cases (x == esc)) [
  | inl e ↦ rw e (inr (inl (ground arith)))
  | inr e ↦ rw e (scan_byte-IsPartial x passed (λ p. (push_bytes p [], [])) (λ p. inl refl))
]
scan-IsPartial (x ∷ y ∷ []) passed = elim (Bool-cases (x == esc)) [
  | inl e ↦ rw e (inr (inr (y, ground arith)))
  | inr e ↦ rw e (scan_byte-IsPartial x passed (scan (y ∷ [])) (scan-IsPartial (y ∷ [])))
]
scan-IsPartial (x ∷ y ∷ z ∷ rest) passed = elim (Option-cases (arrow x y z)) [
  | inl e ↦
      rw (e, scan)
        (scan_byte-IsPartial x passed (scan (y ∷ z ∷ rest)) (scan-IsPartial (y ∷ z ∷ rest)))
  | inr (t, e) ↦ rw (e, scan) (scan-IsPartial rest [])
]

take_token-none :
    (s : InputStream) (waker : Waker) (ts : List Token)
    → let out = take_token s waker ts in
      polled_tokens out.1 ≡ [] → (ts ≡ []) × (out.0.buff ≡ s.buff) × (out.0.tokens ≡ s.tokens)
unfolding take_token
take_token-none s waker (t ∷ ts) h = absurd (ground arith)
take_token-none s waker [] h = ground arith

push_tokens-buff : (s : InputStream) (ts : List Token) → (push_tokens s ts).buff ≡ s.buff
push_tokens-buff s [] = refl
push_tokens-buff s (t ∷ ts) = refl

after_token :
    (s : InputStream) (waker : Waker)
    → polled_tokens (next_token s waker).1 ≡ []
    → ((next_token s waker).0.tokens ≡ [])
      × ((next_token s waker).0.buff ≡ s.buff)
      × (s.tokens ≡ [])
after_token s waker h =
    let (empty, buff, tokens) = take_token-none s waker s.tokens h in (tokens ∙ empty, buff, empty)

nothing_left :
    (ts : List Token) (bs : List ℕ)
    → (is_empty ts && (if is_empty bs then false else true)) ≡ false
    → ts ≡ []
    → bs ≡ []
nothing_left [] [] h e = refl
nothing_left [] (b ∷ bs) h e = absurd (ground arith)
nothing_left (t ∷ ts) bs h e = absurd (ground arith)

parse_buff-buff : (s : InputStream) → (parse_buff s).buff ≡ (scan s.buff []).1
unfolding parse_buff
parse_buff-buff s = push_tokens-buff (record s { buff = (scan s.buff []).1 }) (scan s.buff []).0

-- A poll that gives no token leaves none behind, and of the bytes at most the beginning of an arrow
-- key: an escape with at most one byte behind it.
pub poll_next-IsPartial :
    (s : InputStream) (waker : Waker)
    → let out = poll_next s waker in
      polled_tokens out.1 ≡ [] → (out.0.tokens ≡ []) × IsPartial out.0.buff
unfolding poll_next
poll_next-IsPartial s waker h =
    elim (Bool-cases (is_empty s.tokens && (if is_empty s.buff then false else true))) [
      | inl e ↦
          (let end = after_token (parse_buff s) waker (
              subst
                (λ b.
                  polled_tokens
                    (if b then next_token (parse_buff s) waker else next_token s waker).1
                  ≡ [])
                e h) in
            rw e
              (end.0, subst IsPartial (sym (end.1 ∙ parse_buff-buff s)) (scan-IsPartial s.buff [])))
      | inr e ↦
          (let end = after_token s waker (
              subst
                (λ b.
                  polled_tokens
                    (if b then next_token (parse_buff s) waker else next_token s waker).1
                  ≡ [])
                e h) in
            rw e (end.0, inl (end.1 ∙ nothing_left s.tokens s.buff e end.2)))
    ]

-- ===== src/Shell/InputStream/Lossless.antt =====
-- The tokens are the bytes.
use tunshell.Prelude.{
  ℕ, ◌≡◌, ◌∙◌, refl, sym, ap, Bool-cases, true, false, inl, inr, ◌&&◌, List, [], ◌∷◌, ◌++◌,
  append_assoc, append-nil, Option, Option-cases, none, some, arith, ◌==◌, if◌then◌else◌, Poll,
  ready, pending, Waker,
}
use tunshell.Shell.InputStream.{
  InputStream, new_input, push_tokens, is_empty, Token, esc, to_bytes, arrow, control, push_bytes,
  Scanned, found, scan_byte, scan, parse_buff, take_token, next_token, poll_next, write,
  shut_down_input,
}

abbrev pub all_bytes : List Token → List ℕ
all_bytes [] = []
all_bytes (t ∷ ts) = to_bytes t ++ all_bytes ts

all_bytes-append : (ts us : List Token) → all_bytes (ts ++ us) ≡ all_bytes ts ++ all_bytes us
all_bytes-append [] us = refl
all_bytes-append (t ∷ ts) us =
    ap (λ z. to_bytes t ++ z) (all_bytes-append ts us)
    ∙ sym (append_assoc (to_bytes t) (all_bytes ts) (all_bytes us))

all_bytes-push_bytes :
    (passed : List ℕ) (ts : List Token) → all_bytes (push_bytes passed ts) ≡ passed ++ all_bytes ts
all_bytes-push_bytes [] ts = refl
all_bytes-push_bytes (b ∷ bs) ts = refl

-- What a scan keeps of the bytes.
abbrev scanned_bytes : Scanned → List ℕ
scanned_bytes (tokens, left) = all_bytes tokens ++ left

arrow_lem : (x y z : ℕ) (t : Token) → arrow x y z ≡ some t → to_bytes t ≡ x ∷ y ∷ z ∷ []
unfolding arrow
arrow_lem x y z t h = ground arith

control_lem : (x : ℕ) (t : Token) → control x ≡ some t → to_bytes t ≡ x ∷ []
unfolding control
control_lem x t h = ground arith

found_lem :
    (passed : List ℕ) (t : Token) (s : Scanned)
    → scanned_bytes (found passed t s) ≡ passed ++ (to_bytes t ++ scanned_bytes s)
found_lem passed t (tokens, left) =
    ap (λ z. z ++ left) (all_bytes-push_bytes passed (t ∷ tokens))
    ∙ append_assoc passed (to_bytes t ++ all_bytes tokens) left
    ∙ ap (λ z. passed ++ z) (append_assoc (to_bytes t) (all_bytes tokens) left)

scan_byte_lem :
    (x : ℕ) (passed rest : List ℕ) (more : List ℕ → Scanned)
    → ((p : List ℕ) → scanned_bytes (more p) ≡ p ++ rest)
    → scanned_bytes (scan_byte x passed more) ≡ passed ++ (x ∷ rest)
unfolding scan_byte
scan_byte_lem x passed rest more h = elim (Option-cases (control x)) [
  | inl e ↦ rw (e, scan_byte) (h (passed ++ (x ∷ [])) ∙ append_assoc passed (x ∷ []) rest)
  | inr (t, e) ↦
      rw (e, scan_byte) (found_lem passed t (more []) ∙ rw (control_lem x t e, h []) refl)
]

end_lem : (p left : List ℕ) → scanned_bytes (push_bytes p [], left) ≡ p ++ left
end_lem [] left = refl
end_lem (b ∷ bs) left = ap (λ z. z ++ left) (append-nil (b ∷ bs))

scan-bytes : (rest passed : List ℕ) → scanned_bytes (scan rest passed) ≡ passed ++ rest
unfolding scan
scan-bytes [] passed = end_lem passed []
scan-bytes (x ∷ []) passed = elim (Bool-cases (x == esc)) [
  | inl e ↦ rw e (end_lem passed (x ∷ []))
  | inr e ↦ rw e (scan_byte_lem x passed [] (λ p. (push_bytes p [], [])) (λ p. end_lem p []))
]
scan-bytes (x ∷ y ∷ []) passed = elim (Bool-cases (x == esc)) [
  | inl e ↦ rw e (end_lem passed (x ∷ y ∷ []))
  | inr e ↦ rw e (scan_byte_lem x passed (y ∷ []) (scan (y ∷ [])) (scan-bytes (y ∷ [])))
]
scan-bytes (x ∷ y ∷ z ∷ rest) passed = elim (Option-cases (arrow x y z)) [
  | inl e ↦
      rw (e, scan)
        (scan_byte_lem x passed (y ∷ z ∷ rest) (scan (y ∷ z ∷ rest)) (scan-bytes (y ∷ z ∷ rest)))
  | inr (t, e) ↦
      rw (e, scan)
        (found_lem passed t (scan rest []) ∙ rw (arrow_lem x y z t e, scan-bytes rest []) refl)
]

-- What was written and has not been handed out.
abbrev pub held : InputStream → List ℕ
held s = all_bytes s.tokens ++ s.buff

held-push_tokens :
    (s : InputStream) (ts : List Token)
    → held (push_tokens s ts) ≡ all_bytes s.tokens ++ (all_bytes ts ++ s.buff)
held-push_tokens s [] = refl
held-push_tokens s (t ∷ ts) =
    ap (λ z. z ++ s.buff) (all_bytes-append s.tokens (t ∷ ts))
    ∙ append_assoc (all_bytes s.tokens) (all_bytes (t ∷ ts)) s.buff

held-parse_buff : (s : InputStream) → held (parse_buff s) ≡ held s
unfolding parse_buff
held-parse_buff s =
    held-push_tokens (record s { buff = (scan s.buff []).1 }) (scan s.buff []).0
    ∙ ap (λ z. all_bytes s.tokens ++ z) (scan-bytes s.buff [])

abbrev pub polled_tokens : Poll (Option Token) → List Token
polled_tokens (ready (some t)) = t ∷ []
polled_tokens (ready none) = []
polled_tokens pending = []

held-take_token :
    (s : InputStream) (waker : Waker) (ts : List Token)
    → s.tokens ≡ ts
    → let out = take_token s waker ts in all_bytes (polled_tokens out.1) ++ held out.0 ≡ held s
unfolding take_token
held-take_token s waker (t ∷ ts) e =
    rw (e, append-nil (to_bytes t)) (sym (append_assoc (to_bytes t) (all_bytes ts) s.buff))
held-take_token s waker [] e = ground arith

held-next_token :
    (s : InputStream) (waker : Waker)
    → let out = next_token s waker in all_bytes (polled_tokens out.1) ++ held out.0 ≡ held s
held-next_token s waker = held-take_token s waker s.tokens refl

held-poll_next :
    (s : InputStream) (waker : Waker)
    → let out = poll_next s waker in all_bytes (polled_tokens out.1) ++ held out.0 ≡ held s
unfolding poll_next
held-poll_next s waker =
    elim (Bool-cases (is_empty s.tokens && (if is_empty s.buff then false else true))) [
      | inl e ↦ rw e (held-next_token (parse_buff s) waker ∙ held-parse_buff s)
      | inr e ↦ rw e (held-next_token s waker)
    ]

held-write : (s : InputStream) (bs : List ℕ) → held (write s bs).0 ≡ held s ++ bs
unfolding write
held-write s [] = sym (append-nil (held s))
held-write s (b ∷ bs) = sym (append_assoc (all_bytes s.tokens) s.buff (b ∷ bs))

-- What happens to the stream: bytes arrive, the shell polls, or the stream is shut down.
pub data InputOp : Type 0 where
  put : List ℕ → InputOp
  poll : Waker → InputOp
  shut : InputOp

-- The calls in order, with the tokens that the shell has had.
unfoldable pub run_input : InputStream → List Token → List InputOp → InputStream × List Token
run_input s had [] = (s, had)
run_input s had (put bs ∷ ops) = run_input (write s bs).0 had ops
run_input s had (poll waker ∷ ops) =
    let (s', polled) = poll_next s waker in run_input s' (had ++ polled_tokens polled) ops
run_input s had (shut ∷ ops) = run_input (shut_down_input s) had ops

abbrev pub bytes_put : List InputOp → List ℕ
bytes_put [] = []
bytes_put (put bs ∷ ops) = bs ++ bytes_put ops
bytes_put (poll waker ∷ ops) = bytes_put ops
bytes_put (shut ∷ ops) = bytes_put ops

run_input_lem :
    (s : InputStream) (had : List Token) (ops : List InputOp)
    → let out = run_input s had ops in
      all_bytes out.1 ++ held out.0 ≡ (all_bytes had ++ held s) ++ bytes_put ops
unfolding run_input
run_input_lem s had [] = sym (append-nil (all_bytes had ++ held s))
run_input_lem s had (put bs ∷ ops) =
    run_input_lem (write s bs).0 had ops ∙ rw (held-write s bs) (simp append_assoc)
run_input_lem s had (poll waker ∷ ops) =
    let out = poll_next s waker in
    run_input_lem out.0 (had ++ polled_tokens out.1) ops
    ∙ ap (λ z. z ++ bytes_put ops)
        (ap (λ z. z ++ held out.0) (all_bytes-append had (polled_tokens out.1))
          ∙ append_assoc (all_bytes had) (all_bytes (polled_tokens out.1)) (held out.0)
          ∙ ap (λ z. all_bytes had ++ z) (held-poll_next s waker))
run_input_lem s had (shut ∷ ops) = run_input_lem (shut_down_input s) had ops

-- However the bytes of a terminal arrive at a new input stream, and whenever it is polled or shut
-- down: the bytes of the tokens that it has given, then of those that wait, then those in its
-- buffer, are all that was written, in order.
pub run_input-held :
    (ops : List InputOp)
    → let out = run_input new_input [] ops in
      all_bytes out.1 ++ (all_bytes out.0.tokens ++ out.0.buff) ≡ bytes_put ops
run_input-held ops = run_input_lem new_input [] ops

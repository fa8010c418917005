-- ===== src/Shell/OutputStream/Crlf.antt =====
-- What the output stream writes, against a byte by byte description, and in any cut.
use tunshell.Prelude.{
  ℕ, ◌≡◌, ◌∙◌, refl, sym, ap, Bool-cases, false, inl, inr, not, ◌&&◌, List, [], ◌∷◌, ◌++◌,
  append_assoc, append-nil, Option, some, Result, ok, arith, ◌==◌, if◌then◌else◌, length, Poll,
  ready, pending, Waker, take-append-drop, min,
}
use tunshell.Shell.ByteChannel
use tunshell.Shell.ByteChannel.{ByteChannel as Channel, WriteError, write_all}
use tunshell.Shell.OutputStream.{
  OutputStream, new_output, cr, lf, last_or_zero, last_of, write_both, write_loop, write_first,
  write, poll_read,
}

-- The specification: a line feed that does not follow a carriage return gets one.
abbrev pub crlf : ℕ → List ℕ → List ℕ
crlf last [] = []
crlf last (b ∷ bytes) =
    if (b == lf) && not (last == cr) then cr ∷ lf ∷ crlf b bytes else b ∷ crlf b bytes

-- The bytes went to an open channel.
pub record Wrote {A : Type 0} (c : Channel) (bytes : List ℕ) (a : A)
    (out : Channel × Result A WriteError) : Type 0 where
  pub result : out.1 ≡ ok a
  pub buff : out.0.buff ≡ c.buff ++ bytes
  pub not_shut : out.0.shutdown ≡ false

write_all-Wrote :
    (c : Channel) (bytes : List ℕ) → c.shutdown ≡ false → Wrote c bytes tt (write_all c bytes)
unfolding write_all ByteChannel.write
write_all-Wrote c [] h = record { result = refl; buff = sym (append-nil c.buff); not_shut = h }
write_all-Wrote c (b ∷ bytes) h = record {
  result = rw h refl;
  buff = rw h refl;
  not_shut = rw h refl;
}

Wrote-then :
    {A : Type 0} {c d : Channel} {a : A} (first second : List ℕ) {bytes : List ℕ}
    {out : Channel × Result A WriteError}
    → d.buff ≡ c.buff ++ first
    → bytes ≡ first ++ second
    → Wrote d second a out
    → Wrote c bytes a out
Wrote-then {c = c} first second e cut w = record {
  result = w.result;
  buff =
      w.buff
      ∙ ap (λ z. z ++ second) e
      ∙ append_assoc c.buff first second
      ∙ ap (λ z. c.buff ++ z) (sym cut);
  not_shut = w.not_shut;
}

write_both-Wrote :
    (c : Channel) (first second : List ℕ)
    → c.shutdown ≡ false
    → Wrote c (first ++ second) tt (write_both c first second)
unfolding write_both
write_both-Wrote c first second h =
    let one = write_all-Wrote c first h in
    rw (one.result, write_both)
      (Wrote-then first second one.buff refl
        (write_all-Wrote (write_all c first).0 second one.not_shut))

write_loop-Wrote :
    (c : Channel) (a : ℕ) (unwritten bytes : List ℕ)
    → c.shutdown ≡ false
    → Wrote c (unwritten ++ crlf a bytes) tt (write_loop c (some a) unwritten bytes)
unfolding write_loop
write_loop-Wrote c a unwritten [] h = rw (append-nil unwritten) (write_all-Wrote c unwritten h)
write_loop-Wrote c a unwritten (b ∷ bytes) h = elim (Bool-cases ((b == lf) && not (a == cr))) [
  | inl feed ↦
      (let both = write_both-Wrote c unwritten (cr ∷ lf ∷ []) h in
        rw (feed, both.result)
          (Wrote-then (unwritten ++ (cr ∷ lf ∷ [])) (crlf b bytes) both.buff
            (sym (append_assoc unwritten (cr ∷ lf ∷ []) (crlf b bytes)))
            (write_loop-Wrote (write_both c unwritten (cr ∷ lf ∷ [])).0 b [] bytes both.not_shut)))
  | inr other ↦
      rw (other, ← append_assoc unwritten (b ∷ []) (crlf b bytes))
        (write_loop-Wrote c b (unwritten ++ (b ∷ [])) bytes h)
]

write_first-Wrote :
    (c : Channel) (last_byte : Option ℕ) (b : ℕ) (bytes : List ℕ)
    → c.shutdown ≡ false
    → Wrote c (crlf (last_or_zero last_byte) (b ∷ bytes)) tt (write_first c last_byte b bytes)
unfolding write_first write_loop
write_first-Wrote c last_byte b bytes h =
    elim (Bool-cases ((b == lf) && not (last_or_zero last_byte == cr))) [
      | inl feed ↦
          (let one = write_all-Wrote c (cr ∷ lf ∷ []) h in
            rw (feed, one.result)
              (Wrote-then (cr ∷ lf ∷ []) (crlf b bytes) one.buff refl
                (write_loop-Wrote (write_all c (cr ∷ lf ∷ [])).0 b [] bytes one.not_shut)))
      | inr other ↦ rw other (write_loop-Wrote c b (b ∷ []) bytes h)
    ]

crlf-append :
    (last : ℕ) (bytes more : List ℕ)
    → crlf last (bytes ++ more) ≡ crlf last bytes ++ crlf (last_of last bytes) more
crlf-append last [] more = refl
crlf-append last (b ∷ bytes) more = elim (Bool-cases ((b == lf) && not (last == cr))) [
  | inl feed ↦ rw (feed, crlf-append b bytes more) refl
  | inr other ↦ rw (other, crlf-append b bytes more) refl
]

-- One write of the output stream.
pub record Written (s : OutputStream) (bytes : List ℕ) (out : OutputStream × Result ℕ WriteError)
    : Type 0 where
  pub result : out.1 ≡ ok (length bytes)
  pub buff : out.0.inner.buff ≡ s.inner.buff ++ crlf (last_or_zero s.last_byte) bytes
  pub not_shut : out.0.inner.shutdown ≡ false
  pub last :
      (more : List ℕ)
      → crlf (last_or_zero s.last_byte) (bytes ++ more)
        ≡ crlf (last_or_zero s.last_byte) bytes ++ crlf (last_or_zero out.0.last_byte) more

write-Written :
    (s : OutputStream) (bytes : List ℕ) → s.inner.shutdown ≡ false → Written s bytes (write s bytes)
unfolding write
write-Written s [] h = record {
  result = refl;
  buff = sym (append-nil s.inner.buff);
  not_shut = h;
  last = λ more. refl;
}
write-Written s (b ∷ bytes) h =
    let w = write_first-Wrote s.inner s.last_byte b bytes h in
    record {
      result = rw (w.result, write) refl;
      buff = rw (w.result, write) w.buff;
      not_shut = rw (w.result, write) w.not_shut;
      last = λ more. rw (w.result, write) (crlf-append (last_or_zero s.last_byte) (b ∷ bytes) more);
    }

-- What happens to the stream: the shell writes, or the reader polls.
pub data OutputOp : Type 0 where
  put : List ℕ → OutputOp
  get : Waker → ℕ → OutputOp

abbrev bytes_read : Poll (List ℕ) → List ℕ
bytes_read (ready bytes) = bytes
bytes_read pending = []

-- The calls in order, with the bytes that the reader has had.
unfoldable pub run_output : OutputStream → List ℕ → List OutputOp → OutputStream × List ℕ
run_output s taken [] = (s, taken)
run_output s taken (put bytes ∷ ops) = run_output (write s bytes).0 taken ops
run_output s taken (get waker len ∷ ops) =
    let (s', polled) = poll_read s waker len in run_output s' (taken ++ bytes_read polled) ops

abbrev pub bytes_put : List OutputOp → List ℕ
bytes_put [] = []
bytes_put (put bytes ∷ ops) = bytes ++ bytes_put ops
bytes_put (get waker len ∷ ops) = bytes_put ops

-- A poll moves bytes from the channel to the reader, and nothing else that matters.
poll_read_lem :
    (s : OutputStream) (waker : Waker) (len : ℕ)
    → let out = poll_read s waker len in
      (bytes_read out.1 ++ out.0.inner.buff ≡ s.inner.buff)
      × (out.0.inner.shutdown ≡ s.inner.shutdown)
      × (out.0.last_byte ≡ s.last_byte)
unfolding poll_read ByteChannel.poll_read
poll_read_lem s waker len =
    ground (arith, take-append-drop (min len (length s.inner.buff)) s.inner.buff)

run_output_lem :
    (s : OutputStream) (taken : List ℕ) (ops : List OutputOp)
    → s.inner.shutdown ≡ false
    → let out = run_output s taken ops in
      out.1 ++ out.0.inner.buff
      ≡ (taken ++ s.inner.buff) ++ crlf (last_or_zero s.last_byte) (bytes_put ops)
unfolding run_output
run_output_lem s taken [] h = sym (append-nil (taken ++ s.inner.buff))
run_output_lem s taken (put bytes ∷ ops) h =
    let w = write-Written s bytes h in
    run_output_lem (write s bytes).0 taken ops w.not_shut
    ∙ rw (w.buff, w.last (bytes_put ops)) (simp append_assoc)
run_output_lem s taken (get waker len ∷ ops) h =
    let p = poll_read_lem s waker len in
    let out = poll_read s waker len in
    run_output_lem out.0 (taken ++ bytes_read out.1) ops (p.1 ∙ h)
    ∙ rw (append_assoc taken (bytes_read out.1) out.0.inner.buff, p.0, p.2) refl

-- Whatever is written to a new output stream, in whatever cut, and however it is polled in between:
-- what the reader has had, followed by what the channel holds, is all that was written, with a
-- carriage return before each line feed that had none.
pub run_output-crlf :
    (ops : List OutputOp)
    → let out = run_output new_output [] ops in out.1 ++ out.0.inner.buff ≡ crlf 0 (bytes_put ops)
run_output-crlf ops = run_output_lem new_output [] ops refl

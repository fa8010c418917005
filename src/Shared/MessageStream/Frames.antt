-- ===== src/Shared/MessageStream/Frames.antt =====
-- Reading is independent of how the inner stream cuts the bytes.
use native.Mathlib.Decide.{dec_le}
use tunshell.Prelude.{
  ℕ, suc, ◌+◌, ◌*◌, ◌/◌, ◌%◌, ◌≡◌, ◌≤◌, ◌<◌, ◌⊎◌, refl, sym, ap, inl, inr, ◌∙◌, Bool, true, false,
  List, [], ◌∷◌, ◌++◌, append-nil, append_assoc, some, done, Returns, Result, ok, ready, Poll,
  Option, arith, drop, length-append, take-append, drop-append, length as list_length,
}
use tunshell.Shared.Message.{RawMessage, MessageError, new_raw, raw_to_vec, i16_max}
use tunshell.Shared.MessageStream.{
  MessageStream, ReadEvent, chunk, ended, failed, StreamError, parse_buffer, is_complete,
  take_message, read_message, poll_next, finish_message,
}

-- The bytes that the inner stream still gives before its end.
abbrev pub stream_bytes : List ReadEvent → List ℕ
stream_bytes [] = []
stream_bytes (chunk bytes ∷ events) = bytes ++ stream_bytes events
stream_bytes (ended ∷ events) = []
stream_bytes (failed ∷ events) = []

split_append :
    (xs tail body rest : List ℕ)
    → xs ++ tail ≡ body ++ rest
    → list_length body ≤ list_length xs
    → (r : List ℕ) × (xs ≡ body ++ r) × (r ++ tail ≡ rest)
split_append xs tail [] rest e h = (xs, refl, e)
split_append [] tail (b ∷ body) rest e h = absurd (omega arith)
split_append (x ∷ xs) tail (b ∷ body) rest e h =
    let (r, same, left) = split_append xs tail body rest (cc) (omega arith) in
    let heads : x ≡ b = cc in (r, cc (same, heads), left)

three_more : (n : ℕ) → 3 + n ≡ suc (suc (suc n))
three_more n = omega arith

module _ (t upper lower : ℕ) (body : List ℕ) (fits : upper * 256 + lower ≡ list_length body) where
  abbrev frame : List ℕ → List ℕ
  frame rest = t ∷ upper ∷ lower ∷ (body ++ rest)

  is_complete-frame : (r : List ℕ) → is_complete (frame r) ≡ true
  unfolding is_complete parse_buffer
  is_complete-frame r = rw (fits, length-append body r) (ground arith)

  drop-frame : (r : List ℕ) → drop (3 + (upper * 256 + lower)) (frame r) ≡ r
  drop-frame r =
      ap (λ n. drop n (frame r)) (three_more (upper * 256 + lower))
      ∙ drop-append (upper * 256 + lower) body r fits

  -- The buffer holds the whole frame and what follows it, or it is not complete.
  buffered :
      (buff tail rest : List ℕ)
      → buff ++ tail ≡ frame rest
      → ((r : List ℕ) × (buff ≡ frame r) × (r ++ tail ≡ rest))
        ⊎ ((is_complete buff ≡ false) × (list_length buff < 3 + list_length body))
  unfolding is_complete parse_buffer
  buffered [] tail rest e = inr (refl, omega arith)
  buffered (a ∷ []) tail rest e = inr (refl, omega arith)
  buffered (a ∷ b ∷ []) tail rest e = inr (refl, omega arith)
  buffered (a ∷ b ∷ c ∷ xs) tail rest e = elim (dec_le (list_length body) (list_length xs)) [
    | yes whole ↦
        (let (r, same, left) = split_append xs tail body rest (cc) whole in
          inl (r, cc (same), left))
    | no part ↦
        (let hb : b ≡ upper = cc in
          let hc : c ≡ lower = cc in inr (rw (hb, hc, fits) (ground arith), omega arith))
  ]

  module _ {M : Type 0} (deserialise : RawMessage → Result M MessageError) (raw : RawMessage)
      (m : M) (made : new_raw t body ≡ done (ok raw)) (reads : deserialise raw ≡ ok m) where
    take_message-frame :
        (closed : Bool) (events : List ReadEvent) (r : List ℕ)
        → take_message deserialise (record { read_buff = frame r; closed = closed }) events
          ≡ done (record { read_buff = r; closed = closed }, events, ready (some (ok m)))
    unfolding take_message parse_buffer finish_message
    take_message-frame closed events r =
        rw (fits, take-append (list_length body) body r refl, made, drop-frame r, reads)

    -- What a poll that found the message leaves.
    abbrev Found :
        Bool
        → List ℕ
        → MessageStream × List ReadEvent × Poll (Option (Result M StreamError))
        → Type 0
    Found closed rest out =
        (out.2 ≡ ready (some (ok m)))
        × (out.0.closed ≡ closed)
        × (out.0.read_buff ++ stream_bytes out.1 ≡ rest)

    take_message-Found :
        (closed : Bool) (buff : List ℕ) (events : List ReadEvent) (r rest : List ℕ)
        → buff ≡ frame r
        → r ++ stream_bytes events ≡ rest
        → Returns
            (Found closed rest)
            (take_message deserialise (record { read_buff = buff; closed = closed }) events)
    take_message-Found closed buff events r rest e left =
        rw (e, take_message-frame closed events r) (refl, refl, left)

    too_short :
        (buff rest : List ℕ) → buff ++ [] ≡ frame rest → list_length buff < 3 + list_length body → ⊥
    too_short buff rest e h =
        omega (arith, ap list_length (sym (append-nil buff) ∙ e), length-append body rest)

    read_message-frame :
        (closed : Bool) (buff : List ℕ) (events : List ReadEvent) (rest : List ℕ)
        → buff ++ stream_bytes events ≡ frame rest
        → Returns
            (Found closed rest)
            (read_message deserialise (record { read_buff = buff; closed = closed }) events)
    unfolding read_message
    read_message-frame closed buff [] rest e = elim (buffered buff [] rest e) [
      | inl (r, same, left) ↦
          rw (ap is_complete same ∙ is_complete-frame r)
            (take_message-Found closed buff [] r rest same left)
      | inr (part, short) ↦ absurd (too_short buff rest e short)
    ]
    read_message-frame closed buff (ended ∷ events) rest e = elim (buffered buff [] rest e) [
      | inl (r, same, left) ↦
          rw (ap is_complete same ∙ is_complete-frame r)
            (take_message-Found closed buff (ended ∷ events) r rest same left)
      | inr (part, short) ↦ absurd (too_short buff rest e short)
    ]
    read_message-frame closed buff (failed ∷ events) rest e = elim (buffered buff [] rest e) [
      | inl (r, same, left) ↦
          rw (ap is_complete same ∙ is_complete-frame r)
            (take_message-Found closed buff (failed ∷ events) r rest same left)
      | inr (part, short) ↦ absurd (too_short buff rest e short)
    ]
    read_message-frame closed buff (chunk bytes ∷ events) rest e =
        elim (buffered buff (bytes ++ stream_bytes events) rest e) [
          | inl (r, same, left) ↦
              rw (ap is_complete same ∙ is_complete-frame r)
                (take_message-Found closed buff (chunk bytes ∷ events) r rest same left)
          | inr (part, short) ↦ rw part (
              read_message-frame closed (buff ++ bytes) events rest
                (append_assoc buff bytes (stream_bytes events) ∙ e))
        ]

new_raw-fits :
    (t : ℕ) (bytes : List ℕ) (raw : RawMessage)
    → new_raw t bytes ≡ done (ok raw)
    → list_length bytes ≤ i16_max
unfolding new_raw
new_raw-fits t bytes raw h = ground arith

header_length : (n : ℕ) → n ≤ i16_max → n / 256 % 256 * 256 + n % 256 ≡ n
header_length n h = omega arith

-- A message that was made by `RawMessage::new` and written is read back: if the buffer of an open
-- stream, followed by what the inner stream gives before its end, begins with the message's bytes,
-- then however these are cut the poll gives the message as it is deserialised, the stream stays
-- open, and the bytes behind the message are still there, in the buffer or to come.
pub poll_next-frame :
    {M : Type 0} (deserialise : RawMessage → Result M MessageError) (s : MessageStream)
    (events : List ReadEvent) (raw : RawMessage) (m : M) (rest : List ℕ)
    → s.closed ≡ false
    → new_raw raw.type_id raw.bytes ≡ done (ok raw)
    → deserialise raw ≡ ok m
    → s.read_buff ++ stream_bytes events ≡ raw_to_vec raw ++ rest
    → Returns
        (λ (out : MessageStream × List ReadEvent × Poll (Option (Result M StreamError))).
          (out.2 ≡ ready (some (ok m)))
          × (out.0.closed ≡ false)
          × (out.0.read_buff ++ stream_bytes out.1 ≡ rest))
        (poll_next deserialise s events)
unfolding poll_next raw_to_vec
poll_next-frame deserialise s events raw m rest not_closed made reads e = rw not_closed (
    read_message-frame raw.type_id (list_length raw.bytes / 256 % 256) (list_length raw.bytes % 256)
      raw.bytes
      (header_length (list_length raw.bytes) (new_raw-fits raw.type_id raw.bytes raw made))
      deserialise raw m made reads false s.read_buff events rest e)

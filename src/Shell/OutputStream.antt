-- ===== src/Shell/OutputStream.antt =====
-- output_stream.rs of the fallback shell: line feeds become carriage return and line feed.
pub mod Crlf
use tunshell.Prelude.{
  ℕ, Bool, true, false, not, ◌&&◌, List, [], ◌∷◌, ◌++◌, Waker, Option, none, some, Result, ok, err,
  Poll, ◌==◌, if◌then◌else◌, length,
}
use tunshell.Shell.ByteChannel
use tunshell.Shell.ByteChannel.{
  ByteChannel as Channel, WriteError, empty_channel, write_all, shut_down,
}

abbrev pub cr : ℕ
cr = 13

abbrev pub lf : ℕ
lf = 10

pub record OutputStream : Type 0 where
  pub inner : Channel
  pub last_byte : Option ℕ

-- `OutputStream::new`.
abbrev pub new_output : OutputStream
new_output = record { inner = empty_channel; last_byte = none }

-- `last_byte.unwrap_or(0)`.
abbrev pub last_or_zero : Option ℕ → ℕ
last_or_zero none = 0
last_or_zero (some b) = b

-- Two `write_all`s with `?` between them.
unfoldable pub write_both : Channel → List ℕ → List ℕ → Channel × Result (Unit {0}) WriteError
write_both c first second =
    let (c', result) = write_all c first in
    elim result [ err e ↦ (c', err e) | ok u ↦ write_all c' second ]

-- The `for`, with the last `write_all` behind it: `bytes` is `buf[i..]`, `before` is `buf[i - 1]`,
-- where there is one, and `unwritten` is `buf[written..i]`.
unfoldable pub write_loop :
    Channel → Option ℕ → (unwritten bytes : List ℕ) → Channel × Result (Unit {0}) WriteError
write_loop c before unwritten [] = write_all c unwritten
write_loop c before unwritten (b ∷ bytes) =
    let kept = write_loop c (some b) (unwritten ++ (b ∷ [])) bytes in
    elim before [
      | none ↦ kept
      | some a ↦
          if (b == lf) && not (a == cr)
          then (let (c', result) = write_both c unwritten (cr ∷ lf ∷ []) in
              elim result [ err e ↦ (c', err e) | ok u ↦ write_loop c' (some b) [] bytes ])
          else kept
    ]

-- The test of the first byte, before the `for`.
unfoldable pub write_first :
    Channel → Option ℕ → ℕ → List ℕ → Channel × Result (Unit {0}) WriteError
unfolding write_loop
write_first c last_byte b bytes =
    if (b == lf) && not (last_or_zero last_byte == cr)
    then (let (c', result) = write_all c (cr ∷ lf ∷ []) in
        elim result [ err e ↦ (c', err e) | ok u ↦ write_loop c' (some b) [] bytes ])
    else write_loop c none [] (b ∷ bytes)

-- The last byte of a buffer that is not empty.
abbrev pub last_of : ℕ → List ℕ → ℕ
last_of b [] = b
last_of b (x ∷ xs) = last_of x xs

-- `Write::write`.
unfoldable pub write : OutputStream → List ℕ → OutputStream × Result ℕ WriteError
unfolding write_first
write s [] = (s, ok 0)
write s (b ∷ bytes) =
    let (inner, result) = write_first s.inner s.last_byte b bytes in
    elim result [
      | err e ↦ (record s { inner = inner }, err e)
      | ok u ↦
          (record { inner = inner; last_byte = some (last_of b bytes) }, ok (length (b ∷ bytes)))
    ]

unfoldable pub poll_read : OutputStream → Waker → ℕ → OutputStream × Poll (List ℕ)
poll_read s waker len =
    let (inner, bytes) = ByteChannel.poll_read s.inner waker len in
    (record s { inner = inner }, bytes)

unfoldable pub shut_down_output : OutputStream → OutputStream
shut_down_output s = record s { inner = shut_down s.inner }

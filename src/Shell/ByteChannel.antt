-- ===== src/Shell/ByteChannel.antt =====
-- byte_channel.rs of the fallback shell: a buffer that is written at once and read by polling.
use tunshell.Prelude.{
  ℕ, Bool, true, false, List, [], ◌∷◌, ◌++◌, Waker, Result, ok, err, Poll, ready, pending, min,
  ◌==◌, if◌then◌else◌, length, take, drop,
}

-- `woken` records the wakers that were woken, as in the variables of a connection.
pub record ByteChannel : Type 0 where
  pub buff : List ℕ
  pub read_wakers : List Waker
  pub shutdown : Bool
  pub woken : List Waker

-- The one kind of `io::Error` that a write gives.
pub data WriteError : Type 0 where
  broken_pipe : WriteError

-- `ByteChannel::new`.
abbrev pub empty_channel : ByteChannel
empty_channel = record { buff = []; read_wakers = []; shutdown = false; woken = [] }

abbrev wake_readers : ByteChannel → ByteChannel
wake_readers c = record c { read_wakers = []; woken = c.woken ++ c.read_wakers }

-- `poll_read` into a buffer of `len` bytes; no bytes mean the end.
unfoldable pub poll_read : ByteChannel → Waker → ℕ → ByteChannel × Poll (List ℕ)
poll_read c waker len =
    if length c.buff == 0
    then (if c.shutdown
        then (c, ready [])
        else (record c { read_wakers = c.read_wakers ++ (waker ∷ []) }, pending))
    else (let n = min len (length c.buff) in
        (record c { buff = drop n c.buff }, ready (take n c.buff)))

-- `Write::write`.
unfoldable pub write : ByteChannel → List ℕ → ByteChannel × Result ℕ WriteError
write c [] = (c, ok 0)
write c (b ∷ bytes) =
    if c.shutdown
    then (c, err broken_pipe)
    else (wake_readers (record c { buff = c.buff ++ (b ∷ bytes) }), ok (length (b ∷ bytes)))

-- `Write::write_all` of the standard library on this `write`, which takes all bytes at once.
unfoldable pub write_all : ByteChannel → List ℕ → ByteChannel × Result (Unit {0}) WriteError
unfolding write
write_all c bytes =
    let (c', result) = write c bytes in elim result [ ok _ ↦ (c', ok tt) | err e ↦ (c', err e) ]

unfoldable pub shut_down : ByteChannel → ByteChannel
shut_down c = wake_readers (record c { shutdown = true })

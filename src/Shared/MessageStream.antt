-- ===== src/Shared/MessageStream.antt =====
-- message_stream.rs: reading messages from a byte stream (`poll_next`). What the inner stream gives
-- to one poll after the other is a list; where it is used up the inner stream is pending.
pub mod Frames
use tunshell.Prelude.{
  ℕ, ◌+◌, ◌*◌, Bool, true, false, not, ◌||◌, List, [], ◌∷◌, ◌++◌, Option, none, some, Outcome, done,
  ◌>>=◌, Result, ok, err, Poll, ready, pending, ltb, if◌then◌else◌, length, take, drop,
}
use tunshell.Shared.Message.{RawMessage, MessageError, new_raw}

-- The fields that reading uses.
pub record MessageStream : Type 0 where
  pub read_buff : List ℕ
  pub closed : Bool

-- A result of the inner `poll_read`: at least one byte, the end (no byte), or an error.
pub data ReadEvent : Type 0 where
  chunk : List ℕ → ReadEvent
  ended failed : ReadEvent

pub data StreamError : Type 0 where
  partial_message inner_failed : StreamError
  message_failed : MessageError → StreamError

-- The type, the length and the bytes available behind the header; a shift by 8 and an `or` of bytes
-- are a multiplication and a sum.
unfoldable pub parse_buffer : List ℕ → ℕ × ℕ × ℕ
parse_buffer (type_id ∷ upper ∷ lower ∷ rest) = (type_id, upper * 256 + lower, length rest)
parse_buffer _ = (0, 0, 0)

-- The negation of the condition of the `while`.
unfoldable pub is_complete : List ℕ → Bool
unfolding parse_buffer
is_complete read_buff =
    let (type_id, message_length, bytes_available) = parse_buffer read_buff in
    not (ltb (length read_buff) 3 || ltb bytes_available message_length)

module _ {M : Type 0} (deserialise : RawMessage → Result M MessageError) where
  -- A poll leaves the stream and what the inner stream still has, with the item.
  abbrev pub Polled : Type 0
  Polled = MessageStream × List ReadEvent × Poll (Option (Result M StreamError))

  unfoldable pub finish_message :
      MessageStream → Result M MessageError → MessageStream × Result M StreamError
  finish_message s (ok message) = (s, ok message)
  finish_message s (err e) = (record s { closed = true }, err (message_failed e))

  -- `poll_next` after the `while`.
  unfoldable pub take_message : MessageStream → List ReadEvent → Outcome Polled
  unfolding finish_message parse_buffer
  take_message s events = do
    let (type_id, message_length, bytes_available) = parse_buffer s.read_buff
    result ← new_raw type_id (take message_length (drop 3 s.read_buff))
    elim result [
      | err e ↦ done (record s { closed = true }, events, ready (some (err (message_failed e))))
      | ok raw ↦
          (let drained = record s { read_buff = drop (3 + message_length) s.read_buff } in
            let (s', item) = finish_message drained (deserialise raw) in
            done (s', events, ready (some item)))
    ]

  abbrev end_of_stream : MessageStream → List ReadEvent → Outcome Polled
  end_of_stream s events = elim s.read_buff [
    | [] ↦ done (record s { closed = true }, events, ready none)
    | x ∷ xs ↦ done (record s { closed = true }, events, ready (some (err partial_message)))
  ]

  -- The `while` and what follows it.
  unfoldable pub read_message : MessageStream → List ReadEvent → Outcome Polled
  read_message s [] = if is_complete s.read_buff then take_message s [] else done (s, [], pending)
  read_message s (ended ∷ events) =
      if is_complete s.read_buff then take_message s (ended ∷ events) else end_of_stream s events
  read_message s (failed ∷ events) =
      if is_complete s.read_buff
      then take_message s (failed ∷ events)
      else done (record s { closed = true }, events, ready (some (err inner_failed)))
  read_message s (chunk bytes ∷ events) =
      let more = read_message (record s { read_buff = s.read_buff ++ bytes }) events in
      if is_complete s.read_buff then take_message s (chunk bytes ∷ events) else more

  unfoldable pub poll_next : MessageStream → List ReadEvent → Outcome Polled
  poll_next s events = if s.closed then done (s, events, ready none) else read_message s events

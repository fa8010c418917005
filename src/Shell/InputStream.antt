-- ===== src/Shell/InputStream.antt =====
-- input_stream.rs of the fallback shell: the keys among the bytes of a terminal.
pub mod Lossless
pub mod Progress
use tunshell.Prelude.{
  ℕ, Bool, true, false, ◌&&◌, List, [], ◌∷◌, ◌++◌, Waker, Option, none, some, Poll, ready, pending,
  ◌==◌, if◌then◌else◌, length,
}

abbrev pub esc : ℕ
esc = 27

abbrev pub carriage_return : ℕ
carriage_return = 13

abbrev pub del : ℕ
del = 127

abbrev pub eot : ℕ
eot = 3

pub data Token : Type 0 where
  bytes : List ℕ → Token
  enter up_arrow left_arrow right_arrow down_arrow backspace control_c : Token

-- `woken` records the wakers that were woken, as in the variables of a connection.
pub record InputStream : Type 0 where
  pub buff : List ℕ
  pub tokens : List Token
  pub next_wakers : List Waker
  pub shutdown : Bool
  pub woken : List Waker

-- `InputStream::new`.
abbrev pub new_input : InputStream
new_input = record { buff = []; tokens = []; next_wakers = []; shutdown = false; woken = [] }

-- `Token::to_bytes`.
abbrev pub to_bytes : Token → List ℕ
to_bytes (bytes bs) = bs
to_bytes enter = carriage_return ∷ []
to_bytes up_arrow = esc ∷ b'[' ∷ b'A' ∷ []
to_bytes left_arrow = esc ∷ b'[' ∷ b'D' ∷ []
to_bytes right_arrow = esc ∷ b'[' ∷ b'C' ∷ []
to_bytes down_arrow = esc ∷ b'[' ∷ b'B' ∷ []
to_bytes backspace = del ∷ []
to_bytes control_c = eot ∷ []

-- The first four arms of the `match`.
unfoldable pub arrow : ℕ → ℕ → ℕ → Option Token
arrow x y z =
    if (x == esc) && (y == b'[')
    then (if z == b'A'
        then some up_arrow
        else if z == b'B'
        then some down_arrow
        else if z == b'C'
        then some right_arrow
        else if z == b'D'
        then some left_arrow
        else none)
    else none

-- The arms that look at one byte.
unfoldable pub control : ℕ → Option Token
control x =
    if x == carriage_return
    then some enter
    else if x == del
    then some backspace
    else if x == eot
    then some control_c
    else none

-- The bytes that have been passed over, as a token, before those behind it.
abbrev pub push_bytes : List ℕ → List Token → List Token
push_bytes [] tokens = tokens
push_bytes (b ∷ bs) tokens = bytes (b ∷ bs) ∷ tokens

-- The tokens of a scan, and the bytes that stay in the buffer.
abbrev pub Scanned : Type 0
Scanned = List Token × List ℕ

abbrev pub found : List ℕ → Token → Scanned → Scanned
found passed token (tokens, left) = (push_bytes passed (token ∷ tokens), left)

-- A round at a byte that begins no arrow: `more` is the loop behind it.
unfoldable pub scan_byte : ℕ → List ℕ → (List ℕ → Scanned) → Scanned
scan_byte x passed more = elim (control x) [
  | some token ↦ found passed token (more [])
  | none ↦ more (passed ++ (x ∷ []))
]

-- The `while` of `parse_buff`, from `buff[i..]`; `passed` is `buff[bytes_start..i]`, whose length is
-- `bytes_len`. The loop breaks at an escape with fewer than two bytes behind it.
unfoldable pub scan : List ℕ → List ℕ → Scanned
scan [] passed = (push_bytes passed [], [])
scan (x ∷ []) passed =
    if x == esc
    then (push_bytes passed [], x ∷ [])
    else scan_byte x passed (λ p. (push_bytes p [], []))
scan (x ∷ y ∷ []) passed =
    let more = scan (y ∷ []) in
    if x == esc then (push_bytes passed [], x ∷ y ∷ []) else scan_byte x passed more
scan (x ∷ y ∷ z ∷ rest) passed =
    let behind = scan rest in
    let more = scan (y ∷ z ∷ rest) in
    elim (arrow x y z) [
      | some token ↦ found passed token (behind [])
      | none ↦ scan_byte x passed more
    ]

abbrev wake_next : InputStream → InputStream
wake_next s = record s { next_wakers = []; woken = s.woken ++ s.next_wakers }

-- `push_token` for each token in order; the first wakes everybody.
abbrev pub push_tokens : InputStream → List Token → InputStream
push_tokens s [] = s
push_tokens s (token ∷ tokens) = wake_next (record s { tokens = s.tokens ++ (token ∷ tokens) })

unfoldable pub parse_buff : InputStream → InputStream
parse_buff s = let (tokens, left) = scan s.buff [] in push_tokens (record s { buff = left }) tokens

abbrev pub shut_down_input : InputStream → InputStream
shut_down_input s = wake_next (record s { shutdown = true })

-- `Stream::poll_next` once the buffer has been parsed, on the tokens of the stream.
unfoldable pub take_token : InputStream → Waker → List Token → InputStream × Poll (Option Token)
take_token s waker (token ∷ tokens) = (record s { tokens = tokens }, ready (some token))
take_token s waker [] =
    if s.shutdown
    then (s, ready none)
    else (record s { next_wakers = s.next_wakers ++ (waker ∷ []) }, pending)

abbrev pub next_token : InputStream → Waker → InputStream × Poll (Option Token)
next_token s waker = take_token s waker s.tokens

abbrev pub is_empty {ℓ} : {A : Type ℓ} → List A → Bool
is_empty [] = true
is_empty (x ∷ xs) = false

unfoldable pub poll_next : InputStream → Waker → InputStream × Poll (Option Token)
poll_next s waker =
    let parsed = parse_buff s in
    if is_empty s.tokens && (if is_empty s.buff then false else true)
    then next_token parsed waker
    else next_token s waker

-- `Write::write`, with the number of bytes that it reports.
unfoldable pub write : InputStream → List ℕ → InputStream × ℕ
write s [] = (s, 0)
write s (b ∷ bs) = (wake_next (record s { buff = s.buff ++ (b ∷ bs) }), length (b ∷ bs))

-- ===== src/Shell/Interpreter.antt =====
-- interpreter.rs of the fallback shell: the editing of the command line. What is written to the output
-- stream is a list of bytes; a `String` is the list of its bytes. A subtraction below 0 is a panic, as
-- in a debug build; a release build wraps round, to a position that is in no line and no history.
pub mod Shows
pub mod Editing
pub mod History
use tunshell.Prelude.{
  ℕ, zero, suc, ◌+◌, ◌-◌, min, max, Bool, true, false, List, [], ◌∷◌, ◌++◌, Option, none, some,
  Outcome, done, panic, ◌>>=◌, ◌>>◌, assert, unwrap, Result, ok, err, ltb, leb, ◌==◌, ◌||◌,
  if◌then◌else◌, length, take, drop, get_elem?,
}
use tunshell.Shell.InputStream.{
  Token, bytes, up_arrow, down_arrow, left_arrow, right_arrow, enter, backspace, control_c,
  to_bytes,
}

-- The fields that editing uses; of the shared state, the output stream and whether it was shut down.
pub record Interpreter : Type 0 where
  pub line_buff : List ℕ
  pub history : List (List ℕ)
  pub cursor_pos : ℕ
  pub history_pos : ℕ
  pub output : List ℕ
  pub output_closed : Bool

-- A step leaves the interpreter, and whether it succeeded; what ends otherwise is the shell.
abbrev pub Step : Type 0
Step = Outcome (Interpreter × Bool)

infixl 5 ◌>>?◌
abbrev pub ◌>>?◌ : Step → (Interpreter → Step) → Step
done (i, true) >>? k = k i
done (i, false) >>? k = done (i, false)
panic >>? k = panic

-- `write_all` of the output.
unfoldable pub print : Interpreter → List ℕ → Step
print i [] = done (i, true)
print i (b ∷ bs) =
    if i.output_closed
    then done (i, false)
    else done (record i { output = i.output ++ (b ∷ bs) }, true)

-- `repeat`.
abbrev pub repeat : ℕ → List ℕ → List ℕ
repeat zero bs = []
repeat (suc n) bs = bs ++ repeat n bs

-- A subtraction of sizes.
unfoldable pub checked_sub : ℕ → ℕ → Outcome ℕ
checked_sub m n = assert (leb n m) >> done (m - n)

-- The new line with blanks, of which `n` bytes are taken.
abbrev pub padded : ℕ → List ℕ → List ℕ
padded n [] = repeat n (b' ' ∷ [])
padded zero (b ∷ bs) = []
padded (suc n) (b ∷ bs) = b ∷ padded n bs

-- `refresh_line`: the call of `update_cb` gives `update`.
unfoldable pub refresh_line : Interpreter → Outcome Interpreter → Step
refresh_line i update = do
  i' ← update
  let refresh_len = max (length i.line_buff) (length i'.line_buff)
  back ← checked_sub refresh_len i'.cursor_pos
  print i' (repeat i.cursor_pos (to_bytes left_arrow))
      >>? (λ p. print p (padded refresh_len p.line_buff))
      >>? λ p. print p (repeat back (to_bytes left_arrow))

abbrev pub move_cursor : ℕ → Interpreter → Step
move_cursor cursor_pos i = done (record i { cursor_pos = cursor_pos }, true)

-- The two slices of the line, with the bytes between them.
unfoldable pub insert_at_cursor : Interpreter → List ℕ → Outcome Interpreter
insert_at_cursor i bs = do
  assert (leb i.cursor_pos (length i.line_buff))
  done (record i {
    line_buff = take i.cursor_pos i.line_buff ++ (bs ++ drop i.cursor_pos i.line_buff);
    cursor_pos = i.cursor_pos + length bs;
  })

unfoldable pub insert_bytes : Interpreter → List ℕ → Step
insert_bytes i bs =
    if i.cursor_pos == length i.line_buff
    then (print (record i { line_buff = i.line_buff ++ bs }) bs >>? λ p.
        move_cursor (p.cursor_pos + length bs) p)
    else refresh_line i (insert_at_cursor i bs)

unfoldable pub advance_cursor : Interpreter → ℕ → Step
advance_cursor i offset = do
  left ← checked_sub (length i.line_buff) i.cursor_pos
  print i (repeat (min offset left) (to_bytes right_arrow)) >>? λ p.
      move_cursor (p.cursor_pos + min offset left) p

unfoldable pub retract_cursor : Interpreter → ℕ → Step
retract_cursor i offset =
    let retract_chars = min offset i.cursor_pos in
    (print i (repeat retract_chars (to_bytes left_arrow)) >>? λ p. (do
      cursor_pos ← checked_sub p.cursor_pos retract_chars
      move_cursor cursor_pos p))

-- `write_prompt`, for the name of the directory.
abbrev pub write_prompt : List ℕ → Interpreter → Step
write_prompt name i = print i name >>? λ p. print p (b'>' ∷ b' ' ∷ [])

unfoldable pub interrupt_line : List ℕ → Interpreter → Step
interrupt_line name i = print i (13 ∷ 10 ∷ []) >>? write_prompt name >>? λ p.
    done (record p { line_buff = []; cursor_pos = 0 }, true)

-- `remove` of a `Vec`.
unfoldable pub remove_at : ℕ → List ℕ → Outcome (List ℕ)
remove_at n bs = assert (ltb n (length bs)) >> done (take n bs ++ drop (suc n) bs)

-- `pop().unwrap()`.
unfoldable pub pop : List ℕ → Outcome (List ℕ)
pop bs = assert (ltb 0 (length bs)) >> done (take (length bs - 1) bs)

unfoldable pub remove_before_cursor : Interpreter → Outcome Interpreter
remove_before_cursor i = do
  before ← checked_sub i.cursor_pos 1
  line ← remove_at before i.line_buff
  cursor_pos ← checked_sub i.cursor_pos 1
  done (record i { line_buff = line; cursor_pos = cursor_pos })

unfoldable pub backspace_last : Interpreter → Step
backspace_last i = do
  line ← pop i.line_buff
  print (record i { line_buff = line }) (to_bytes left_arrow ++ (b' ' ∷ to_bytes left_arrow))
      >>? λ p. (do cursor_pos ← checked_sub p.cursor_pos 1; move_cursor cursor_pos p)

unfoldable pub delete_back : Interpreter → Step
delete_back i =
    if i.cursor_pos == 0
    then done (i, true)
    else if i.cursor_pos == length i.line_buff
    then backspace_last i
    else refresh_line i (remove_before_cursor i)

-- The line at a position of the history.
unfoldable pub recall : Interpreter → ℕ → Outcome Interpreter
recall i position = do
  line ← unwrap (get_elem? i.history position)
  done (record i { history_pos = position; line_buff = line; cursor_pos = length line })

unfoldable pub recall_previous : Interpreter → Outcome Interpreter
recall_previous i = do position ← checked_sub i.history_pos 1; recall i position

unfoldable pub previous_in_history : Interpreter → Step
previous_in_history i =
    if (i.history_pos == 0) || (length i.history == 0)
    then done (i, true)
    else refresh_line i (recall_previous i)

unfoldable pub recall_next : Interpreter → Outcome Interpreter
recall_next i =
    if suc i.history_pos == length i.history
    then done (record i { history_pos = suc i.history_pos; line_buff = []; cursor_pos = 0 })
    else recall i (suc i.history_pos)

unfoldable pub next_in_history : Interpreter → Step
next_in_history i =
    if leb (length i.history) i.history_pos then done (i, true) else refresh_line i (recall_next i)

-- `handle_new_line` and the rest of `read_line`. A line that is not UTF-8 is taken from the buffer, and
-- ends the shell.
unfoldable pub finish_line : (List ℕ → Bool) → Interpreter → Step
finish_line utf8 i = print i (13 ∷ 10 ∷ []) >>? λ p.
    if utf8 p.line_buff
    then done (
      record p {
        line_buff = [];
        history = p.history ++ (p.line_buff ∷ []);
        cursor_pos = 0;
        history_pos = length p.history + 1;
      },
      true,
    )
    else done (record p { line_buff = [] }, false)

-- One token in the loop of `read_line`; after `enter` the next line is read.
unfoldable pub edit : (List ℕ → Bool) → List ℕ → Interpreter → Token → Step
edit utf8 name i (bytes bs) = insert_bytes i bs
edit utf8 name i up_arrow = previous_in_history i
edit utf8 name i left_arrow = retract_cursor i 1
edit utf8 name i right_arrow = advance_cursor i 1
edit utf8 name i down_arrow = next_in_history i
edit utf8 name i backspace = delete_back i
edit utf8 name i control_c = interrupt_line name i
edit utf8 name i enter = finish_line utf8 i

-- The tokens of a session, without the commands that are run between the lines.
unfoldable pub edit_all : (List ℕ → Bool) → List ℕ → Interpreter → List Token → Step
edit_all utf8 name i [] = done (i, true)
edit_all utf8 name i (token ∷ tokens) = edit utf8 name i token >>? λ p. edit_all utf8 name p tokens

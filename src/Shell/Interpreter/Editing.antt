-- ===== src/Shell/Interpreter/Editing.antt =====
-- The line editor does not panic: the cursor stays in the line, and the position in the history.
use tunshell.Prelude.{
  ℕ, suc, ◌+◌, ◌-◌, ◌≡◌, ◌≤◌, ◌<◌, ap, min, true, false, Bool-cases, inl, inr, List, [], ◌∷◌, ◌++◌,
  Bool, ◌>>=◌, Returns, arith, ltb, leb, ◌==◌, length, take, drop, length-append, length-take,
  length-drop,
}
use tunshell.Shell.InputStream.{
  Token, bytes, up_arrow, down_arrow, left_arrow, right_arrow, enter, backspace, control_c,
  to_bytes,
}
use tunshell.Shell.Interpreter.{
  Interpreter, ◌>>?◌, print, repeat, move_cursor, insert_at_cursor, insert_bytes, advance_cursor,
  retract_cursor, write_prompt, interrupt_line, remove_at, pop, remove_before_cursor,
  backspace_last, delete_back, checked_sub, finish_line, edit, edit_all,
}
use tunshell.Shell.Interpreter.History.{previous_in_history-IsEditing, next_in_history-IsEditing}
use tunshell.Shell.Interpreter.Shows.{
  IsEditing, Leaves, then-Leaves, Shows, print-Shows, self, checked_sub_lem, refresh_line-IsEditing,
}

within : (m n : ℕ) → m ≤ n → leb m n ≡ true
within m n h = ground arith

below : (m n : ℕ) → m < n → ltb m n ≡ true
below m n h = ground arith

insert_at_cursor-IsEditing :
    (i : Interpreter) (bs : List ℕ) → IsEditing i → Returns IsEditing (insert_at_cursor i bs)
unfolding insert_at_cursor
insert_at_cursor-IsEditing i bs h =
    (let cursor = h.cursor in
      rw (within i.cursor_pos (length i.line_buff) cursor) (record {
        cursor = omega (
          arith,
          length-append (take i.cursor_pos i.line_buff) (bs ++ drop i.cursor_pos i.line_buff),
          length-append bs (drop i.cursor_pos i.line_buff),
          length-take i.cursor_pos i.line_buff,
          length-drop i.cursor_pos i.line_buff,
        );
        position = h.position;
      }))

insert_bytes-IsEditing :
    (i : Interpreter) (bs : List ℕ) → IsEditing i → Leaves IsEditing (insert_bytes i bs)
unfolding insert_bytes
insert_bytes-IsEditing i bs h = elim (Bool-cases (i.cursor_pos == length i.line_buff)) [
  | inr e ↦
      rw e (refresh_line-IsEditing i (insert_at_cursor i bs) (insert_at_cursor-IsEditing i bs h))
  | inl e ↦
      (let longer = record i { line_buff = i.line_buff ++ bs } in
        rw e (
          then-Leaves (Shows longer) IsEditing (print longer bs)
            (λ p. move_cursor (p.cursor_pos + length bs) p)
            (print-Shows longer longer bs (self longer))
            (λ p k.
              (let cursor = h.cursor in
                let position = h.position in
                record {
                  cursor = omega (arith, length-append i.line_buff bs, ap length k.line, k.cursor);
                  position = omega (arith, k.position, ap length k.old);
                }))))
]

advance_cursor-IsEditing :
    (i : Interpreter) (offset : ℕ) → IsEditing i → Leaves IsEditing (advance_cursor i offset)
unfolding advance_cursor
advance_cursor-IsEditing i offset h =
    (let cursor = h.cursor in
      let position = h.position in
      let n = min offset (length i.line_buff - i.cursor_pos) in
      rw (checked_sub_lem (length i.line_buff) i.cursor_pos cursor, advance_cursor)
        (then-Leaves (Shows i) IsEditing (print i (repeat n (to_bytes right_arrow)))
          (λ p. move_cursor (p.cursor_pos + n) p)
          (print-Shows i i (repeat n (to_bytes right_arrow)) (self i))
          (λ p k. record {
            cursor = omega (arith, ap length k.line, k.cursor);
            position = omega (arith, k.position, ap length k.old);
          })))

retract_cursor-IsEditing :
    (i : Interpreter) (offset : ℕ) → IsEditing i → Leaves IsEditing (retract_cursor i offset)
unfolding retract_cursor
retract_cursor-IsEditing i offset h =
    (let cursor = h.cursor in
      let position = h.position in
      let n = min offset i.cursor_pos in
      let bs = repeat n (to_bytes left_arrow) in
      then-Leaves (Shows i) IsEditing (print i bs)
        (λ p. checked_sub p.cursor_pos n >>= λ cursor_pos. move_cursor cursor_pos p)
        (print-Shows i i bs (self i))
        (λ p k.
          rw (checked_sub_lem p.cursor_pos n (omega (arith, k.cursor)), move_cursor)
            (record {
              cursor = omega (arith, ap length k.line, k.cursor);
              position = omega (arith, k.position, ap length k.old);
            })))

interrupt_line-IsEditing :
    (name : List ℕ) (i : Interpreter) → IsEditing i → Leaves IsEditing (interrupt_line name i)
unfolding interrupt_line
interrupt_line-IsEditing name i h =
    (let position = h.position in
      then-Leaves (Shows i) IsEditing (print i (13 ∷ 10 ∷ []) >>? write_prompt name) _
        (then-Leaves (Shows i) (Shows i) (print i (13 ∷ 10 ∷ [])) (write_prompt name)
          (print-Shows i i (13 ∷ 10 ∷ []) (self i))
          (λ p k.
            then-Leaves (Shows i) (Shows i) (print p name) (λ q. print q (b'>' ∷ b' ' ∷ []))
              (print-Shows i p name k) (λ q l. print-Shows i q (b'>' ∷ b' ' ∷ []) l)))
        (λ p k. record {
          cursor = omega arith;
          position = omega (arith, k.position, ap length k.old);
        }))

finish_line-IsEditing :
    (utf8 : List ℕ → Bool) (i : Interpreter) → IsEditing i → Leaves IsEditing (finish_line utf8 i)
unfolding finish_line
finish_line-IsEditing utf8 i h =
    then-Leaves (Shows i) IsEditing (print i (13 ∷ 10 ∷ [])) _
      (print-Shows i i (13 ∷ 10 ∷ []) (self i))
      (λ p k. elim (Bool-cases (utf8 p.line_buff)) [
        | inl e ↦ rw e (record {
          cursor = omega arith;
          position = omega (arith, length-append p.history (p.line_buff ∷ []));
        })
        | inr e ↦ rw e tt
      ])

remove_before_cursor-IsEditing :
    (i : Interpreter)
    → IsEditing i
    → (i.cursor_pos == 0) ≡ false
    → Returns IsEditing (remove_before_cursor i)
unfolding remove_before_cursor remove_at
remove_before_cursor-IsEditing i h e =
    (let cursor = h.cursor in
      rw
        (
          checked_sub_lem i.cursor_pos 1 (ground arith),
          below (i.cursor_pos - 1) (length i.line_buff) (ground arith),
          remove_before_cursor,
        )
        (record {
          cursor = omega (
            arith,
            length-append (take (i.cursor_pos - 1) i.line_buff)
                (drop (suc (i.cursor_pos - 1)) i.line_buff),
            length-take (i.cursor_pos - 1) i.line_buff,
            length-drop (suc (i.cursor_pos - 1)) i.line_buff,
          );
          position = h.position;
        }))

backspace_last-IsEditing :
    (i : Interpreter)
    → IsEditing i
    → i.cursor_pos ≡ length i.line_buff
    → 0 < i.cursor_pos
    → Leaves IsEditing (backspace_last i)
unfolding backspace_last pop
backspace_last-IsEditing i h at_end some_left =
    (let position = h.position in
      let shorter = record i { line_buff = take (length i.line_buff - 1) i.line_buff } in
      let bs = to_bytes left_arrow ++ (b' ' ∷ to_bytes left_arrow) in
      rw (below 0 (length i.line_buff) (omega arith), backspace_last)
        (then-Leaves (Shows shorter) IsEditing (print shorter bs)
          (λ p. checked_sub p.cursor_pos 1 >>= λ cursor_pos. move_cursor cursor_pos p)
          (print-Shows shorter shorter bs (self shorter))
          (λ p k.
            rw (checked_sub_lem p.cursor_pos 1 (omega (arith, k.cursor)), move_cursor)
              (record {
                cursor = omega (
                  arith,
                  ap length k.line,
                  k.cursor,
                  length-take (length i.line_buff - 1) i.line_buff,
                );
                position = omega (arith, k.position, ap length k.old);
              }))))

delete_back-IsEditing : (i : Interpreter) → IsEditing i → Leaves IsEditing (delete_back i)
unfolding delete_back
delete_back-IsEditing i h = elim (Bool-cases (i.cursor_pos == 0)) [
  | inl e ↦ rw e h
  | inr e ↦ elim (Bool-cases (i.cursor_pos == length i.line_buff)) [
    | inl f ↦ rw (e, f) (backspace_last-IsEditing i h (ground arith) (ground arith))
    | inr f ↦
        rw (e, f)
          (refresh_line-IsEditing i (remove_before_cursor i) (remove_before_cursor-IsEditing i h e))
  ]
]

edit-IsEditing :
    (utf8 : List ℕ → Bool) (name : List ℕ) (i : Interpreter) (token : Token)
    → IsEditing i
    → Leaves IsEditing (edit utf8 name i token)
unfolding edit
edit-IsEditing utf8 name i (bytes bs) h = insert_bytes-IsEditing i bs h
edit-IsEditing utf8 name i up_arrow h = previous_in_history-IsEditing i h
edit-IsEditing utf8 name i left_arrow h = retract_cursor-IsEditing i 1 h
edit-IsEditing utf8 name i right_arrow h = advance_cursor-IsEditing i 1 h
edit-IsEditing utf8 name i down_arrow h = next_in_history-IsEditing i h
edit-IsEditing utf8 name i backspace h = delete_back-IsEditing i h
edit-IsEditing utf8 name i control_c h = interrupt_line-IsEditing name i h
edit-IsEditing utf8 name i enter h = finish_line-IsEditing utf8 i h

-- Whatever keys are pressed while lines are edited, nothing panics: no index, slice or subtraction is
-- out of range; and as long as the output takes what is written and the lines that are entered are
-- UTF-8, the cursor stays in the line, and the position in the history within it or behind its last
-- line.
pub edit_all-IsEditing :
    (utf8 : List ℕ → Bool) (name : List ℕ) (i : Interpreter) (tokens : List Token)
    → IsEditing i
    → Leaves IsEditing (edit_all utf8 name i tokens)
unfolding edit_all
edit_all-IsEditing utf8 name i [] h = h
edit_all-IsEditing utf8 name i (token ∷ tokens) h =
    then-Leaves IsEditing IsEditing (edit utf8 name i token) (λ p. edit_all utf8 name p tokens)
      (edit-IsEditing utf8 name i token h) (λ p k. edit_all-IsEditing utf8 name p tokens k)

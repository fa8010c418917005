-- ===== src/Shell/Interpreter/History.antt =====
-- Recalling a line of the history leaves the cursor in the line, and does not panic.
use tunshell.Prelude.{
  ℕ, zero, suc, ◌-◌, ◌≡◌, ◌<◌, refl, Bool-cases, inl, inr, List, [], ◌∷◌, some, Returns, arith, leb,
  ◌==◌, length, get_elem?,
}
use tunshell.Shell.Interpreter.{
  Interpreter, recall, recall_previous, previous_in_history, recall_next, next_in_history,
}
use tunshell.Shell.Interpreter.Shows.{IsEditing, Leaves, checked_sub_lem, refresh_line-IsEditing}

get_elem_lem :
    (lines : List (List ℕ)) (n : ℕ)
    → n < length lines
    → (line : List ℕ) × (get_elem? lines n ≡ some line)
get_elem_lem [] n h = absurd (omega arith)
get_elem_lem (line ∷ lines) zero h = (line, refl)
get_elem_lem (line ∷ lines) (suc n) h = get_elem_lem lines n (omega arith)

recall-IsEditing :
    (i : Interpreter) (position : ℕ)
    → position < length i.history
    → Returns IsEditing (recall i position)
unfolding recall
recall-IsEditing i position h =
    (let (line, e) = get_elem_lem i.history position h in
      rw (e, recall) (record { cursor = omega arith; position = omega arith }))

recall_next-IsEditing :
    (i : Interpreter) → i.history_pos < length i.history → Returns IsEditing (recall_next i)
unfolding recall_next
recall_next-IsEditing i h = elim (Bool-cases (suc i.history_pos == length i.history)) [
  | inl e ↦ rw e (record { cursor = omega arith; position = omega arith })
  | inr e ↦ rw e (recall-IsEditing i (suc i.history_pos) (ground arith))
]

recall_previous-IsEditing :
    (i : Interpreter) → IsEditing i → 0 < i.history_pos → Returns IsEditing (recall_previous i)
unfolding recall_previous
recall_previous-IsEditing i h some_left =
    (let position = h.position in
      rw (checked_sub_lem i.history_pos 1 (omega arith), recall_previous)
        (recall-IsEditing i (i.history_pos - 1) (omega arith)))

pub previous_in_history-IsEditing :
    (i : Interpreter) → IsEditing i → Leaves IsEditing (previous_in_history i)
unfolding previous_in_history
previous_in_history-IsEditing i h = elim (Bool-cases (i.history_pos == 0)) [
  | inl e ↦ rw e h
  | inr e ↦ elim (Bool-cases (length i.history == 0)) [
    | inl f ↦ rw (e, f) h
    | inr f ↦
        rw (e, f)
          (refresh_line-IsEditing i (recall_previous i)
            (recall_previous-IsEditing i h (ground arith)))
  ]
]

pub next_in_history-IsEditing :
    (i : Interpreter) → IsEditing i → Leaves IsEditing (next_in_history i)
unfolding next_in_history
next_in_history-IsEditing i h = elim (Bool-cases (leb (length i.history) i.history_pos)) [
  | inl e ↦ rw e h
  | inr e ↦ rw e (refresh_line-IsEditing i (recall_next i) (recall_next-IsEditing i (ground arith)))
]

-- ===== src/Shell/Interpreter/Shows.antt =====
-- The invariant of the line editor, and what printing and refreshing leave of it.
use tunshell.Prelude.{
  ℕ, ◌-◌, ◌≡◌, ◌≤◌, ap, refl, max, Bool, true, false, Bool-cases, inl, inr, List, [], ◌∷◌, Outcome,
  done, panic, Returns, arith, length,
}
use tunshell.Shell.InputStream.{left_arrow, to_bytes}
use tunshell.Shell.Interpreter.{
  Interpreter, Step, ◌>>?◌, print, repeat, checked_sub, padded, refresh_line,
}

-- The cursor is in the line, and the position is in the history or behind its end.
pub record IsEditing (i : Interpreter) : Type 0 where
  pub cursor : i.cursor_pos ≤ length i.line_buff
  pub position : i.history_pos ≤ length i.history

-- A step that succeeds leaves what has the property.
abbrev pub OnSuccess : (Interpreter → Type 0) → Interpreter × Bool → Type 0
OnSuccess P (i, true) = P i
OnSuccess P (i, false) = Unit {0}

abbrev pub Leaves : (Interpreter → Type 0) → Step → Type 0
Leaves P step = Returns (OnSuccess P) step

pub then-Leaves :
    (P Q : Interpreter → Type 0) (step : Step) (k : Interpreter → Step)
    → Leaves P step
    → ((i : Interpreter) → P i → Leaves Q (k i))
    → Leaves Q (step >>? k)
then-Leaves P Q (done (i, true)) k h f = f i h
then-Leaves P Q (done (i, false)) k h f = tt
then-Leaves P Q panic k h f = elim h [ ]

-- Only the output is another one.
pub record Shows (i p : Interpreter) : Type 0 where
  pub line : p.line_buff ≡ i.line_buff
  pub old : p.history ≡ i.history
  pub cursor : p.cursor_pos ≡ i.cursor_pos
  pub position : p.history_pos ≡ i.history_pos

pub print-Shows : (i p : Interpreter) (bs : List ℕ) → Shows i p → Leaves (Shows i) (print p bs)
unfolding print
print-Shows i p [] h = h
print-Shows i p (b ∷ bs) h = elim (Bool-cases p.output_closed) [
  | inl e ↦ rw e tt
  | inr e ↦ rw e (record { line = h.line; old = h.old; cursor = h.cursor; position = h.position })
]

pub self : (i : Interpreter) → Shows i i
self i = record { line = refl; old = refl; cursor = refl; position = refl }

Shows-IsEditing : (i p : Interpreter) → Shows i p → IsEditing i → IsEditing p
Shows-IsEditing i p h k =
    (let cursor = k.cursor in
      let position = k.position in
      record {
        cursor = omega (arith, h.cursor, ap length h.line);
        position = omega (arith, h.position, ap length h.old);
      })

pub checked_sub_lem : (m n : ℕ) → n ≤ m → checked_sub m n ≡ done (m - n)
unfolding checked_sub
checked_sub_lem m n h = ground arith

pub refresh_line-IsEditing :
    (i : Interpreter) (update : Outcome Interpreter)
    → Returns IsEditing update
    → Leaves IsEditing (refresh_line i update)
unfolding refresh_line
refresh_line-IsEditing i panic h = elim h [ ]
refresh_line-IsEditing i (done i') h =
    (let cursor = h.cursor in
      let refresh_len = max (length i.line_buff) (length i'.line_buff) in
      let back = refresh_len - i'.cursor_pos in
      rw (checked_sub_lem refresh_len i'.cursor_pos (omega arith), refresh_line)
        (then-Leaves (Shows i') IsEditing
          (print i' (repeat i.cursor_pos (to_bytes left_arrow))
            >>? (λ p. print p (padded refresh_len p.line_buff)))
          (λ p. print p (repeat back (to_bytes left_arrow)))
          (then-Leaves (Shows i') (Shows i') (print i' (repeat i.cursor_pos (to_bytes left_arrow)))
            (λ p. print p (padded refresh_len p.line_buff))
            (print-Shows i' i' (repeat i.cursor_pos (to_bytes left_arrow)) (self i'))
            (λ p k. print-Shows i' p (padded refresh_len p.line_buff) k))
          (λ p k. shown p (repeat back (to_bytes left_arrow)) k)))
  where
    shown : (p : Interpreter) (bs : List ℕ) → Shows i' p → Leaves IsEditing (print p bs)
    shown p bs k = weaken (print p bs) (print-Shows i' p bs k)
      where
        weaken : (step : Step) → Leaves (Shows i') step → Leaves IsEditing step
        weaken (done (q, true)) l = Shows-IsEditing i' q l h
        weaken (done (q, false)) l = tt
        weaken panic l = elim l [ ]

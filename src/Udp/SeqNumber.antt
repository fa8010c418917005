-- ===== src/Udp/SeqNumber.antt =====
-- seq_number.rs: a wrapping 32-bit position in the byte stream.
pub mod Order
use Prim.Native.Nat.{compare, Ordering}
use tunshell.Prelude.{
  ℕ, ◌+◌, ◌-◌, ◌/◌, ◌%◌, ◌^◌, Bool, true, false, Option, none, some, ltb, ◌==◌, if◌then◌else◌,
}
use tunshell.Prelude.Words.{u32, u32_max}

-- The tuple struct `SequenceNumber(u32)`.
abbrev pub SequenceNumber : Type 0
SequenceNumber = ℕ

-- `ops::Add`, by `u32::wrapping_add`.
abbrev pub add : SequenceNumber → SequenceNumber → SequenceNumber
add a b = u32 (a + b)

-- `cmp::PartialOrd::partial_cmp`.
unfoldable pub partial_cmp : SequenceNumber → SequenceNumber → Option Ordering
partial_cmp a b =
    if a == b
    then some Ordering.eq
    else if ltb b a
    then (if ltb (a - b) (u32_max / 2) then some Ordering.gt else some Ordering.lt)
    else (if ltb (b - a) (u32_max / 2) then some Ordering.lt else some Ordering.gt)

-- The operators `<`, `<=`, `>`, `>=` that Rust derives from `partial_cmp`.
unfoldable pub lt : SequenceNumber → SequenceNumber → Bool
unfolding partial_cmp
lt a b = elim (partial_cmp a b) [ some Ordering.lt ↦ true | _ ↦ false ]

unfoldable pub le : SequenceNumber → SequenceNumber → Bool
unfolding partial_cmp
le a b = elim (partial_cmp a b) [ some Ordering.lt ↦ true | some Ordering.eq ↦ true | _ ↦ false ]

unfoldable pub gt : SequenceNumber → SequenceNumber → Bool
unfolding partial_cmp
gt a b = elim (partial_cmp a b) [ some Ordering.gt ↦ true | _ ↦ false ]

unfoldable pub ge : SequenceNumber → SequenceNumber → Bool
unfolding partial_cmp
ge a b = elim (partial_cmp a b) [ some Ordering.gt ↦ true | some Ordering.eq ↦ true | _ ↦ false ]

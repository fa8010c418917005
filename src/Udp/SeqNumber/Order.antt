-- ===== src/Udp/SeqNumber/Order.antt =====
-- The order of sequence numbers: what it decides inside a window, and where it stops being one.
use Prim.Native.Nat.{compare}
use tunshell.Prelude.{ℕ, ◌/◌, ◌<◌, ◌≡◌, true, some, not, arith, ltb}
use tunshell.Prelude.Words.{IsU32, u32_max}
use tunshell.Udp.SeqNumber.{add, partial_cmp, lt, le, gt, ge}

pub lt-gt : (a b : ℕ) → lt a b ≡ gt b a
unfolding lt gt
lt-gt a b = ground arith

pub le-not-gt : (a b : ℕ) → le a b ≡ not (gt a b)
unfolding le gt
le-not-gt a b = ground arith

pub ge-not-lt : (a b : ℕ) → ge a b ≡ not (lt a b)
unfolding ge lt
ge-not-lt a b = ground arith

-- Two positions at offsets below `u32::MAX / 2` from a base compare as their offsets do, also where
-- the numbers have wrapped past `u32::MAX` between the base, the one and the other.
pub partial_cmp-add_window :
    (base i j : ℕ)
    → IsU32 base
    → i < u32_max / 2
    → j < u32_max / 2
    → partial_cmp (add base i) (add base j) ≡ some (compare i j)
unfolding partial_cmp
partial_cmp-add_window base i j hb hi hj = ground arith

-- The same for the operator `<`.
pub lt-add_window :
    (base i j : ℕ)
    → IsU32 base
    → i < u32_max / 2
    → j < u32_max / 2
    → lt (add base i) (add base j) ≡ ltb i j
unfolding lt
lt-add_window base i j hb hi hj = ground arith

pub gt-add_window :
    (base i j : ℕ)
    → IsU32 base
    → i < u32_max / 2
    → j < u32_max / 2
    → gt (add base i) (add base j) ≡ ltb j i
unfolding gt
gt-add_window base i j hb hi hj = ground arith

pub gt-add : (a k : ℕ) → IsU32 a → 0 < k → k < u32_max / 2 → gt (add a k) a ≡ true
unfolding gt
gt-add a k ha hk hm = ground arith

pub gt-add_self : (a k : ℕ) → IsU32 a → k < u32_max / 2 → gt (add a k) a ≡ ltb 0 k
unfolding gt
gt-add_self a k ha hk = ground arith

-- At a distance of exactly `u32::MAX / 2`, which is below `2 ^ 31`, the advanced number counts as
-- greater where the addition has wrapped, and as less where it has not.
pub gt-add_half :
    (a : ℕ) → IsU32 a → let b = add a (u32_max / 2) in (gt b a ≡ ltb b a) × (lt b a ≡ ltb a b)
unfolding gt lt
gt-add_half a ha = (ground arith, ground arith)

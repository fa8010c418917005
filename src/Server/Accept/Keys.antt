-- ===== src/Server/Accept/Keys.antt =====
-- Keys, and the table of connections under them.
use tunshell.Prelude.{
  ℕ, ◌≡◌, ◌≢◌, ◌∙◌, ap, subst, sym, refl, Bool, true, false, Bool-cases, ◌⊎◌, inl, inr, List, [],
  ◌∷◌, none, some, ltb, ◌-◌, if◌then◌else◌, arith,
}
use tunshell.Server.Session.{key_eq}
use tunshell.Server.Relay.{Connection}
use tunshell.Server.Accept.{lookup_key, remove_key, retain_waiting}

key_eq_refl : (k : List ℕ) → key_eq k k ≡ true
unfolding key_eq
key_eq_refl [] = refl
key_eq_refl (x ∷ k) = ground (arith, key_eq_refl k)

pub key_eq-true : (j k : List ℕ) → key_eq j k ≡ true → j ≡ k
unfolding key_eq
key_eq-true [] [] h = refl
key_eq-true [] (y ∷ k) h = cc
key_eq-true (x ∷ j) [] h = cc
key_eq-true (x ∷ j) (y ∷ k) h = ground (arith, key_eq-true j k)

pub key_eq_cases :
    (j k : List ℕ) → ((j ≡ k) × (key_eq j k ≡ true)) ⊎ ((j ≢ k) × (key_eq j k ≡ false))
key_eq_cases j k = elim (Bool-cases (key_eq j k)) [
  | inl e ↦ inl (key_eq-true j k e, e)
  | inr e ↦
      inr (λ same. differ (ap (key_eq j) (sym same) ∙ sym (ap (λ z. z) (sym (key_eq_refl j)))) e, e)
]
  where
    differ : key_eq j k ≡ true → key_eq j k ≡ false → ⊥
    differ a b = cc

lookup-remove_key :
    (k j : List ℕ) (m : List (List ℕ × Connection))
    → lookup_key j (remove_key k m) ≡ (if key_eq k j then none else lookup_key j m)
unfolding lookup_key remove_key
lookup-remove_key k j [] = ground arith
lookup-remove_key k j ((i, c) ∷ m) = elim (key_eq_cases i k) [
  | inl (same, e) ↦ rw (e, lookup-remove_key k j m, ap (λ z. key_eq z j) same) (twice (key_eq k j))
  | inr (other, e) ↦ elim (key_eq_cases i j) [
    | inl (here, f) ↦ rw (e, f, not_same other here) refl
    | inr (there, f) ↦ rw (e, f, lookup-remove_key k j m) refl
  ]
]
  where
    twice :
        (b : Bool)
        → (if b then none else lookup_key j m)
          ≡ (if b then none else if b then some c else lookup_key j m)
    twice true = refl
    twice false = refl

    not_same : i ≢ k → i ≡ j → key_eq k j ≡ false
    not_same other here = elim (key_eq_cases k j) [
      | inl (same, g) ↦ absurd (other (here ∙ sym same))
      | inr (apart, g) ↦ g
    ]

pub lookup-remove_key-some :
    (k j : List ℕ) (m : List (List ℕ × Connection)) (c : Connection)
    → lookup_key j (remove_key k m) ≡ some c
    → lookup_key j m ≡ some c
lookup-remove_key-some k j m c h = decided (key_eq k j) (sym (lookup-remove_key k j m) ∙ h)
  where
    decided : (b : Bool) → (if b then none else lookup_key j m) ≡ some c → lookup_key j m ≡ some c
    decided true h = cc
    decided false h = h

pub lookup-remove_key-none :
    (k j : List ℕ) (m : List (List ℕ × Connection))
    → lookup_key j m ≡ none
    → lookup_key j (remove_key k m) ≡ none
lookup-remove_key-none k j m h = lookup-remove_key k j m ∙ decided (key_eq k j)
  where
    decided : (b : Bool) → (if b then none else lookup_key j m) ≡ none
    decided true = refl
    decided false = h

pub retain_waiting-none :
    (now expiry : ℕ) (j : List ℕ) (m : List (List ℕ × Connection))
    → lookup_key j m ≡ none
    → lookup_key j (retain_waiting now expiry m) ≡ none
unfolding lookup_key
retain_waiting-none now expiry j [] h = refl
retain_waiting-none now expiry j ((i, c) ∷ m) h = elim (key_eq_cases i j) [
  | inl (_, e) ↦ absurd (clash c (subst (λ b. (if b then some c else lookup_key j m) ≡ none) e h))
  | inr (_, e) ↦
      (let rest =
          retain_waiting-none now expiry j m
            (subst (λ b. (if b then some c else lookup_key j m) ≡ none) e h) in
        elim (Bool-cases (ltb (now - c.connected_at) expiry)) [
          | inl f ↦ rw (f, retain_waiting, e) rest
          | inr f ↦ rw (f, retain_waiting) rest
        ])
]
  where
    clash : (c : Connection) → some c ≡ none → ⊥
    clash c e = cc

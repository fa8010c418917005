-- ===== src/Shell/Network/Addrs.antt =====
-- Which address is connected to, or sent to.
use tunshell.Prelude.{
  ℕ, ◌≡◌, ◌∙◌, sym, ap, subst, refl, Bool, true, false, not, ◌⊎◌, inl, inr, List, [], ◌∷◌, ◌++◌,
  append-nil, Option, none, some, Bool-cases, arith, Result, ok, err, keep_if, keep_if-true,
  keep_if-false,
}
use tunshell.Udp.Config.{SocketAddr}
use tunshell.Shell.Network.{
  SocketError, ConnectFailure, Resolver, is_ipv4, sort_by_is_ipv4, resolve_socket_addrs_for_connect,
  connect_first, connect_socket_addr,
}

Result-cases : {A E : Type 0} (r : Result A E) → ((a : A) × (r ≡ ok a)) ⊎ ((e : E) × (r ≡ err e))
Result-cases (ok a) = inl (a, refl)
Result-cases (err e) = inr (e, refl)

abbrev pub IsIn : SocketAddr → List SocketAddr → Type 0
IsIn a [] = ⊥
IsIn a (x ∷ xs) = (x ≡ a) ⊎ IsIn a xs

IsIn-append : (a : SocketAddr) (xs ys : List SocketAddr) → IsIn a xs ⊎ IsIn a ys → IsIn a (xs ++ ys)
IsIn-append a [] ys (inl h) = absurd h
IsIn-append a [] ys (inr h) = h
IsIn-append a (x ∷ xs) ys (inl (inl e)) = inl e
IsIn-append a (x ∷ xs) ys (inl (inr h)) = inr (IsIn-append a xs ys (inl h))
IsIn-append a (x ∷ xs) ys (inr h) = inr (IsIn-append a xs ys (inr h))

append-IsIn : (a : SocketAddr) (xs ys : List SocketAddr) → IsIn a (xs ++ ys) → IsIn a xs ⊎ IsIn a ys
append-IsIn a [] ys h = inr h
append-IsIn a (x ∷ xs) ys (inl e) = inl (inl e)
append-IsIn a (x ∷ xs) ys (inr h) = elim (append-IsIn a xs ys h) [
  | inl k ↦ inl (inr k)
  | inr k ↦ inr k
]

IsIn-keep_if :
    (p : SocketAddr → Bool) (a : SocketAddr) (xs : List SocketAddr)
    → IsIn a xs
    → p a ≡ true
    → IsIn a (keep_if p xs)
IsIn-keep_if p a [] h e = h
IsIn-keep_if p a (x ∷ xs) (inl same) e = rw (ap p same ∙ e) (inl same)
IsIn-keep_if p a (x ∷ xs) (inr h) e = elim (Bool-cases (p x)) [
  | inl k ↦ rw k (inr (IsIn-keep_if p a xs h e))
  | inr k ↦ rw k (IsIn-keep_if p a xs h e)
]

keep_if-IsIn :
    (p : SocketAddr → Bool) (a : SocketAddr) (xs : List SocketAddr)
    → IsIn a (keep_if p xs)
    → IsIn a xs × (p a ≡ true)
keep_if-IsIn p a [] h = absurd h
keep_if-IsIn p a (x ∷ xs) h = elim (Bool-cases (p x)) [
  | inl k ↦ kept k (keep_if-IsIn p a xs) (subst (IsIn a) (keep_if-true p x xs k) h)
  | inr k ↦
      (let (inside, e) = keep_if-IsIn p a xs (subst (IsIn a) (keep_if-false p x xs k) h) in
        (inr inside, e))
]
  where
    kept :
        p x ≡ true
        → (IsIn a (keep_if p xs) → IsIn a xs × (p a ≡ true))
        → IsIn a (x ∷ keep_if p xs)
        → IsIn a (x ∷ xs) × (p a ≡ true)
    kept k more (inl same) = (inl same, ap p (sym same) ∙ k)
    kept k more (inr h) = (let (inside, e) = more h in (inr inside, e))

sort-IsIn :
    (a : SocketAddr) (addrs : List SocketAddr) → IsIn a addrs → IsIn a (sort_by_is_ipv4 addrs)
sort-IsIn a addrs h = elim (Bool-cases (is_ipv4 a)) [
  | inl e ↦
      IsIn-append a (keep_if (λ x. not (is_ipv4 x)) addrs) (keep_if is_ipv4 addrs)
        (inr (IsIn-keep_if is_ipv4 a addrs h e))
  | inr e ↦
      IsIn-append a (keep_if (λ x. not (is_ipv4 x)) addrs) (keep_if is_ipv4 addrs)
        (inl (IsIn-keep_if (λ x. not (is_ipv4 x)) a addrs h (ap not e)))
]

IsIn-sort :
    (a : SocketAddr) (addrs : List SocketAddr) → IsIn a (sort_by_is_ipv4 addrs) → IsIn a addrs
IsIn-sort a addrs h =
    elim (append-IsIn a (keep_if (λ x. not (is_ipv4 x)) addrs) (keep_if is_ipv4 addrs) h) [
      | inl k ↦ (keep_if-IsIn (λ x. not (is_ipv4 x)) a addrs k).0
      | inr k ↦ (keep_if-IsIn is_ipv4 a addrs k).0
    ]

module _ {Stream : Type 0} (connect : SocketAddr → Result Stream SocketError) where
  -- One of the addresses was connected to.
  abbrev pub Connects : List SocketAddr → Result Stream ConnectFailure → Type 0
  Connects addrs result =
      (b : SocketAddr) × (s : Stream) × (result ≡ ok s) × (connect b ≡ ok s) × IsIn b addrs

  later :
      (x : SocketAddr) (xs : List SocketAddr) (result : Result Stream ConnectFailure)
      → Connects xs result
      → Connects (x ∷ xs) result
  later x xs result (b, s, e, f, inside) = (b, s, e, f, inr inside)

  connect_first-Connects :
      (last : Option SocketError) (a : SocketAddr) (s : Stream) (xs ys : List SocketAddr)
      → IsIn a xs
      → connect a ≡ ok s
      → Connects xs (connect_first connect last (xs ++ ys))
  unfolding connect_first
  connect_first-Connects last a s [] ys h e = absurd h
  connect_first-Connects last a s (x ∷ xs) ys h e = elim (Result-cases (connect x)) [
    | inl (t, f) ↦ rw (f, connect_first) (x, t, refl, f, inl refl)
    | inr (y, f) ↦
        rw (f, connect_first)
          (later x xs (connect_first connect (some y) (xs ++ ys))
            (connect_first-Connects (some y) a s xs ys (elsewhere y f h) e))
  ]
    where
      elsewhere : (y : SocketError) → connect x ≡ err y → IsIn a (x ∷ xs) → IsIn a xs
      elsewhere y f (inl same) =
          (let clash : ok s ≡ err y = sym e ∙ sym (ap connect same) ∙ f in cc)
      elsewhere y f (inr h) = h

  connect_socket_addr_lem :
      (resolve : Resolver) (addr : List ℕ) (port : ℕ) (x : SocketAddr) (xs : List SocketAddr)
      → resolve addr port ≡ ok (x ∷ xs)
      → connect_socket_addr connect resolve addr port
        ≡ connect_first connect none (sort_by_is_ipv4 (x ∷ xs))
  unfolding connect_socket_addr resolve_socket_addrs_for_connect
  connect_socket_addr_lem resolve addr port x xs r =
      rw (connect_socket_addr, resolve_socket_addrs_for_connect, r) refl

  -- Where one of the addresses that a name resolves to accepts a connection, a connection is made, to
  -- one of these addresses; and to an IPv6 address, if one of those that accept is an IPv6 address.
  pub connect_socket_addr-Connects :
      (resolve : Resolver) (addr : List ℕ) (port : ℕ) (addrs : List SocketAddr) (a : SocketAddr)
      (s : Stream)
      → resolve addr port ≡ ok addrs
      → IsIn a addrs
      → connect a ≡ ok s
      → (b : SocketAddr) × (t : Stream) × (connect_socket_addr connect resolve addr port ≡ ok t)
        × (connect b ≡ ok t)
        × IsIn b addrs
        × (is_ipv4 a ≡ false → is_ipv4 b ≡ false)
  connect_socket_addr-Connects resolve addr port [] a s r h e = absurd h
  connect_socket_addr-Connects resolve addr port (x ∷ xs) a s r h e =
      elim (Bool-cases (is_ipv4 a)) [
        | inr v6 ↦
            (let (b, t, found, f, inside) =
                connect_first-Connects none a s (keep_if (λ z. not (is_ipv4 z)) (x ∷ xs))
                  (keep_if is_ipv4 (x ∷ xs))
                  (IsIn-keep_if (λ z. not (is_ipv4 z)) a (x ∷ xs) h (ap not v6)) e in
              let (kept, is_v6) = keep_if-IsIn (λ z. not (is_ipv4 z)) b (x ∷ xs) inside in
              (
                b,
                t,
                connect_socket_addr_lem resolve addr port x xs r ∙ found,
                f,
                kept,
                λ _. ground arith,
              ))
        | inl v4 ↦
            (let (b, t, found, f, inside) =
                connect_first-Connects none a s (sort_by_is_ipv4 (x ∷ xs)) []
                  (sort-IsIn a (x ∷ xs) h) e in
              (
                b,
                t,
                connect_socket_addr_lem resolve addr port x xs r
                    ∙ ap (connect_first connect none) (sym (append-nil (sort_by_is_ipv4 (x ∷ xs))))
                    ∙ found,
                f,
                IsIn-sort b (x ∷ xs) inside,
                λ v6. absurd (clash v4 v6),
              ))
      ]
    where
      clash : is_ipv4 a ≡ true → is_ipv4 a ≡ false → ⊥
      clash p q = (let k : true ≡ false = sym p ∙ q in cc)

-- ===== src/Shell/Network/Ids.antt =====
-- The ids of the accepted connections: the search for one ends, and the two peers never give the same.
use tunshell.Prelude.{
  ℕ, zero, suc, ◌+◌, ◌*◌, ◌%◌, ◌^◌, ◌≡◌, ◌≢◌, ◌≤◌, ◌<◌, ◌∙◌, sym, ap, refl, Bool, true, false, inl,
  inr, List, [], ◌∷◌, ◌++◌, some, Bool-cases, arith, length, length-append,
}
use tunshell.Prelude.Maps.{lookup}
use tunshell.Prelude.Words.{u32, IsU32}
use tunshell.Shell.Proto.{ConId}
use tunshell.Shell.Network.{contains}
use tunshell.Shell.Network.Peer.{
  NetworkPeer, contains_key, remove_one, first_free, is_taken, next_tcp_con_id,
}

length-remove_one :
    (c : ℕ) (ks : List ℕ) → contains c ks ≡ true → length ks ≡ suc (length (remove_one c ks))
unfolding contains remove_one
length-remove_one c [] h = ground arith
length-remove_one c (k ∷ ks) h = ground (arith, length-remove_one c ks)

contains-remove_one :
    (c d : ℕ) (ks : List ℕ) → c ≢ d → contains d ks ≡ true → contains d (remove_one c ks) ≡ true
unfolding contains remove_one
contains-remove_one c d [] n h = h
contains-remove_one c d (k ∷ ks) n h = ground (arith, contains-remove_one c d ks n)

-- The ids that the search may meet, in the order in which it does.
abbrev candidate : ConId → ℕ → ConId
candidate c i = (c + 2 * i) % 2 ^ 32

candidate-suc : (c i : ℕ) → candidate (u32 (c + 2)) i ≡ candidate c (suc i)
candidate-suc c i = omega arith

candidate_zero : (c : ℕ) → IsU32 c → candidate c 0 ≡ c
candidate_zero c h = omega arith

candidate_new : (c i : ℕ) → IsU32 c → suc i < 2 ^ 31 → c ≢ candidate c (suc i)
candidate_new c i h small e = omega arith

-- An id that is free, and reached by steps of two.
abbrev pub IsFree : (ConId → Bool) → ConId → ConId → Type 0
IsFree taken c id = (taken id ≡ false) × (id % 2 ≡ c % 2) × IsU32 id

first_free-used :
    (fuel : ℕ) (taken : ConId → Bool) (c id : ConId)
    → taken c ≡ true
    → first_free fuel taken (u32 (c + 2)) ≡ some id
    → first_free (suc fuel) taken c ≡ some id
unfolding first_free
first_free-used fuel taken c id used found = rw used found

first_free_lem :
    (fuel : ℕ) (taken : ConId → Bool) (c : ConId) (ks : List ℕ)
    → ((i : ℕ) → i < fuel → taken (candidate c i) ≡ true → contains (candidate c i) ks ≡ true)
    → length ks < fuel
    → fuel ≤ 2 ^ 31
    → IsU32 c
    → (id : ConId) × (first_free fuel taken c ≡ some id) × IsFree taken c id
unfolding first_free
first_free_lem zero taken c ks covers more small h = absurd (omega arith)
first_free_lem (suc fuel) taken c ks covers more small h = elim (Bool-cases (taken c)) [
  | inr free ↦ (c, rw free refl, (free, refl, h))
  | inl used ↦
      (let here = covers 0 (omega arith) (ap taken (candidate_zero c h) ∙ used) in
        let held : contains c ks ≡ true =
          sym (ap (λ k. contains k ks) (candidate_zero c h)) ∙ here in
        let (id, found, is_free) =
          first_free_lem fuel taken (u32 (c + 2)) (remove_one c ks)
            (λ i below t.
              ap (λ k. contains k (remove_one c ks)) (candidate-suc c i)
              ∙ contains-remove_one c (candidate c (suc i)) ks (candidate_new c i h (omega arith))
                  (covers (suc i) (omega arith) (sym (ap taken (candidate-suc c i)) ∙ t)))
            (omega (arith, length-remove_one c ks held)) (omega arith) (omega arith) in
        (
          id,
          first_free-used fuel taken c id used found,
          (is_free.0, omega (arith, is_free.1), is_free.2),
        ))
]

abbrev keys : {V : Type 0} → List (ℕ × V) → List ℕ
keys [] = []
keys ((k, v) ∷ m) = k ∷ keys m

length-keys : {V : Type 0} (m : List (ℕ × V)) → length (keys m) ≡ length m
length-keys [] = refl
length-keys ((k, v) ∷ m) = ap suc (length-keys m)

contains-keys :
    {V : Type 0} (c : ℕ) (m : List (ℕ × V)) → contains_key c m ≡ true → contains c (keys m) ≡ true
unfolding contains lookup
contains-keys c [] h = h
contains-keys c ((k, v) ∷ m) h = ground (arith, contains-keys c m)

contains-append_left :
    (c : ℕ) (ks ls : List ℕ) → contains c ks ≡ true → contains c (ks ++ ls) ≡ true
unfolding contains
contains-append_left c [] ls h = ground arith
contains-append_left c (k ∷ ks) ls h = ground (arith, contains-append_left c ks ls)

contains-append_right :
    (c : ℕ) (ks ls : List ℕ) → contains c ls ≡ true → contains c (ks ++ ls) ≡ true
unfolding contains
contains-append_right c [] ls h = h
contains-append_right c (k ∷ ks) ls h = ground (arith, contains-append_right c ks ls h)

module _ {Stream Sender : Type 0} (peer : NetworkPeer Stream Sender) where
  abbrev used_ids : List ℕ
  used_ids = keys peer.tcp_pending ++ keys peer.tcp_connections

  is_taken-contains : (c : ConId) → is_taken peer c ≡ true → contains c used_ids ≡ true
  is_taken-contains c h = elim (Bool-cases (contains_key c peer.tcp_pending)) [
    | inl e ↦
        contains-append_left c (keys peer.tcp_pending) (keys peer.tcp_connections)
          (contains-keys c peer.tcp_pending e)
    | inr e ↦
        contains-append_right c (keys peer.tcp_pending) (keys peer.tcp_connections)
          (contains-keys c peer.tcp_connections (ground arith))
  ]

  -- The search ends with an id which no connection has, and which is even or odd as the one that was to
  -- be tried first; the next id to try is again even or odd as that.
  abbrev pub FindsFree : Type 0
  FindsFree =
      (peer' : NetworkPeer Stream Sender) × (id : ConId) × (next_tcp_con_id peer ≡ some (peer', id))
      × IsFree (is_taken peer) peer.next_con_id id
      × (peer' ≡ record peer { next_con_id = peer'.next_con_id })
      × (peer'.next_con_id % 2 ≡ id % 2)
      × IsU32 peer'.next_con_id

  found-FindsFree :
      (id : ConId)
      → first_free
          (suc (length peer.tcp_pending + length peer.tcp_connections))
          (is_taken peer)
          peer.next_con_id
        ≡ some id
      → IsFree (is_taken peer) peer.next_con_id id
      → FindsFree
  unfolding next_tcp_con_id
  found-FindsFree id found free = (
    record peer { next_con_id = u32 (id + 2) },
    id,
    rw (found, next_tcp_con_id) refl,
    free,
    refl,
    omega arith,
    omega arith,
  )

  -- The search for an id ends where fewer than 2^31 connections are pending or open, and it gives an
  -- id of 32 bits which none of them has; the id and the next one to try are even or odd as the one
  -- that was to be tried first.
  pub next_tcp_con_id-FindsFree :
      length peer.tcp_pending + length peer.tcp_connections < 2 ^ 31
      → IsU32 peer.next_con_id
      → FindsFree
  next_tcp_con_id-FindsFree few h =
      let (id, found, free) =
        first_free_lem (suc (length peer.tcp_pending + length peer.tcp_connections)) (is_taken peer)
          peer.next_con_id used_ids
          (λ i below t. is_taken-contains (candidate peer.next_con_id i) t)
          (omega (
            arith,
            length-append (keys peer.tcp_pending) (keys peer.tcp_connections),
            length-keys peer.tcp_pending,
            length-keys peer.tcp_connections,
          ))
          (omega arith) h in
      found-FindsFree id found free

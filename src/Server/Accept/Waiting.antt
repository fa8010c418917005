-- ===== src/Server/Accept/Waiting.antt =====
-- The table of the waiting connections: nobody waits whose peer waits too.
use tunshell.Prelude.{
  ℕ, ◌≡◌, ◌≢◌, ◌∙◌, ap, subst, sym, refl, Bool, true, false, ◌⊎◌, inl, inr, List, [], ◌∷◌, Option,
  none, some, Result, ok, err, ltb, ◌-◌, if◌then◌else◌,
}
use tunshell.Server.Session.{
  Participant, Session, key_eq, max_age, participant, other_participant, is_session_valid_to_join,
}
use tunshell.Server.Relay.{Connection}
use tunshell.Server.Accept.{
  KeyError, AcceptedConnection, KeyEvents, Server, lookup_key, remove_key, ServerEvent, joins,
}
use tunshell.Server.Accept.Keys.{
  key_eq-true, key_eq_cases, lookup-remove_key-some, lookup-remove_key-none,
}

-- The sessions of the store: both keys of a session find it, and they differ.
pub record IsStore (store : List ℕ → Option Session) : Type 0 where
  pub peers :
      (k : List ℕ) (s : Session)
      → store k ≡ some s
      → (store s.peer1.key ≡ some s) × (store s.peer2.key ≡ some s)
  pub distinct : (k : List ℕ) (s : Session) → store k ≡ some s → s.peer1.key ≢ s.peer2.key

chosen :
    (b c : Bool) (x y p : Participant)
    → (if b then some y else if c then some x else none) ≡ some p
    → ((b ≡ true) × (p ≡ y)) ⊎ ((c ≡ true) × (p ≡ x))
chosen true c x y p h = inl (refl, cc)
chosen false true x y p h = inr (refl, cc)
chosen false false x y p h = cc

other_participant_cases :
    (s : Session) (k : List ℕ) (p : Participant)
    → other_participant s k ≡ some p
    → ((s.peer1.key ≡ k) × (p ≡ s.peer2)) ⊎ ((s.peer2.key ≡ k) × (p ≡ s.peer1))
unfolding other_participant
other_participant_cases s k p h =
    elim (chosen (key_eq s.peer1.key k) (key_eq s.peer2.key k) s.peer1 s.peer2 p h) [
      | inl (e, same) ↦ inl (key_eq-true s.peer1.key k e, same)
      | inr (e, same) ↦ inr (key_eq-true s.peer2.key k e, same)
    ]

-- Who has joined has a peer.
pub valid-other_participant :
    (now : ℕ) (s : Session) (k : List ℕ)
    → is_session_valid_to_join now s k ≡ true
    → (p : Participant) × (other_participant s k ≡ some p)
unfolding is_session_valid_to_join participant other_participant
valid-other_participant now s k h =
    decided (ltb max_age (now - s.created_at)) (key_eq s.peer1.key k) (key_eq s.peer2.key k) h
  where
    decided :
        (old b c : Bool)
        → (if old
            then false
            else elim (if b then some s.peer1 else if c then some s.peer2 else none)
                as (λ _. Bool) [ none ↦ false | some p ↦ true ])
          ≡ true
        → (p : Participant) × ((if b then some s.peer2 else if c then some s.peer1 else none)
            ≡ some p)
    decided true b c h = cc
    decided false true c h = (s.peer2, refl)
    decided false false true h = (s.peer1, refl)
    decided false false false h = cc

module _ (store : List ℕ → Option Session) where
  -- Nobody waits whose peer waits.
  abbrev pub AreSeparate : Server → Type 0
  AreSeparate server =
      (k : List ℕ) (c : Connection) (s : Session) (p : Participant)
      → lookup_key k server.waiting ≡ some c
      → store k ≡ some s
      → other_participant s k ≡ some p
      → lookup_key p.key server.waiting ≡ none

  -- The answer of the store, where the key was accepted.
  abbrev pub AnswersFrom : KeyEvents → Type 0
  AnswersFrom events =
      (k : List ℕ) (s : Session) → events.find_by_key k ≡ ok (some s) → store k ≡ some s

  abbrev pub IsKnown : Result AcceptedConnection KeyError → Type 0
  IsKnown (ok accepted) =
      (store accepted.con.key ≡ some accepted.session)
      × ((p : Participant) × (other_participant accepted.session accepted.con.key ≡ some p))
  IsKnown (err e) = Unit {0}

  abbrev pub AllAnswerFrom : List ServerEvent → Type 0
  AllAnswerFrom [] = Unit {0}
  AllAnswerFrom (joins now events ∷ rest) = AnswersFrom events × AllAnswerFrom rest
  AllAnswerFrom (_ ∷ rest) = AllAnswerFrom rest

module _ (store : List ℕ → Option Session) (is_store : IsStore store) where
  -- The peer of the one who joins: found by its own key, another one, and its peer is the first one.
  record IsPeer (s : Session) (k j : List ℕ) : Type 0 where
    found : store j ≡ some s
    apart : k ≢ j
    back : (p : Participant) → other_participant s j ≡ some p → p.key ≡ k

  other_participant-IsPeer :
      (s : Session) (k : List ℕ) (p : Participant)
      → store k ≡ some s
      → other_participant s k ≡ some p
      → IsPeer s k p.key
  other_participant-IsPeer s k p h other =
      (let distinct = is_store.distinct k s h in
        let (first, second) = is_store.peers k s h in
        elim (other_participant_cases s k p other) [
          | inl (same, e) ↦ record {
            found = ap (λ q. store q.key) e ∙ second;
            apart = λ clash. distinct (same ∙ clash ∙ ap (λ q. q.key) e);
            back = λ q back. elim (other_participant_cases s p.key q back) [
              | inl (same', e') ↦ absurd (distinct (same' ∙ ap (λ q. q.key) e))
              | inr (same', e') ↦ ap (λ q. q.key) e' ∙ same
            ];
          }
          | inr (same, e) ↦ record {
            found = ap (λ q. store q.key) e ∙ first;
            apart = λ clash. distinct (sym (ap (λ q. q.key) e) ∙ sym clash ∙ sym same);
            back = λ q back. elim (other_participant_cases s p.key q back) [
              | inl (same', e') ↦ ap (λ q. q.key) e' ∙ same
              | inr (same', e') ↦ absurd (distinct (sym (ap (λ q. q.key) e) ∙ sym same'))
            ];
          }
        ])

  pub remove-AreSeparate :
      (server : Server) (k : List ℕ)
      → AreSeparate store server
      → AreSeparate store (record server { waiting = remove_key k server.waiting })
  remove-AreSeparate server k h j c s p found known other =
      lookup-remove_key-none k p.key server.waiting
        (h j c s p (lookup-remove_key-some k j server.waiting c found) known other)

  -- A store has one session for a key.
  one_session : (j k : List ℕ) (s t : Session) → store j ≡ some s → store k ≡ some t → j ≡ k → s ≡ t
  one_session j k s t h g same = (let e : some s ≡ some t = sym h ∙ ap store same ∙ g in cc)

  one_peer :
      (j k : List ℕ) (s t : Session) (p q : Participant)
      → other_participant s j ≡ some p
      → other_participant t k ≡ some q
      → s ≡ t
      → j ≡ k
      → p ≡ q
  one_peer j k s t p q h g same_session same =
      (let e : some p ≡ some q =
          sym h
          ∙ ap (λ z. other_participant z j) same_session
          ∙ ap (other_participant t) same
          ∙ g in
        cc)

  insert_none :
      (con : Connection) (j : List ℕ) (m : List (List ℕ × Connection))
      → con.key ≢ j
      → lookup_key j m ≡ none
      → lookup_key j ((con.key, con) ∷ remove_key con.key m) ≡ none
  unfolding lookup_key
  insert_none con j m apart h = elim (key_eq_cases con.key j) [
    | inl (same, e) ↦ absurd (apart same)
    | inr (_, e) ↦ rw e (lookup-remove_key-none con.key j m h)
  ]

  insert_some :
      (con : Connection) (j : List ℕ) (m : List (List ℕ × Connection)) (c : Connection)
      → con.key ≢ j
      → lookup_key j ((con.key, con) ∷ remove_key con.key m) ≡ some c
      → lookup_key j m ≡ some c
  unfolding lookup_key
  insert_some con j m c apart h = elim (key_eq_cases con.key j) [
    | inl (same, e) ↦ absurd (apart same)
    | inr (_, e) ↦
        lookup-remove_key-some con.key j m c
          (subst (λ b. (if b then some con else lookup_key j (remove_key con.key m)) ≡ some c) e h)
  ]

  pub insert-AreSeparate :
      (server : Server) (con : Connection) (session : Session) (peer : Participant)
      → AreSeparate store server
      → store con.key ≡ some session
      → other_participant session con.key ≡ some peer
      → lookup_key peer.key server.waiting ≡ none
      → AreSeparate store
          (record server { waiting = (con.key, con) ∷ remove_key con.key server.waiting })
  insert-AreSeparate server con session peer h known other absent k c s p found known' other' =
      elim (key_eq_cases con.key k) [
        | inl (same, _) ↦
            (let session_is = one_session con.key k session s known known' same in
              let peer_is = one_peer con.key k session s peer p other other' session_is same in
              insert_none con p.key server.waiting
                (λ clash.
                  (other_participant-IsPeer session con.key peer known other).apart
                    (clash ∙ sym (ap (λ q. q.key) peer_is)))
                (ap (λ q. lookup_key q.key server.waiting) (sym peer_is) ∙ absent))
        | inr (apart, _) ↦
            (let waits = insert_some con k server.waiting c apart found in
              let is_peer = other_participant-IsPeer s k p known' other' in
              insert_none con p.key server.waiting
                (λ clash.
                  (let session_is = one_session con.key p.key session s known is_peer.found clash in
                    let back = is_peer.back peer (
                      ap (other_participant s) (sym clash)
                      ∙ ap (λ z. other_participant z con.key) (sym session_is)
                      ∙ other) in
                    waits_not (lookup_key k server.waiting) c waits
                      (ap (λ z. lookup_key z server.waiting) (sym back) ∙ absent)))
                (h k c s p waits known' other'))
      ]
    where
      waits_not : (o : Option Connection) (c : Connection) → o ≡ some c → o ≡ none → ⊥
      waits_not none c e f = cc
      waits_not (some d) c e f = cc

-- ===== src/Server/Session.antt =====
-- db/session.rs and relay/server/session_validation.rs: who may join a session. The clock is an
-- argument, times are in seconds; the store of the sessions is a database, and not here.
use tunshell.Prelude.{
  ℕ, ◌-◌, ◌*◌, Bool, true, false, List, [], ◌∷◌, Option, none, some, ◌==◌, ltb, if◌then◌else◌,
}

pub record Participant : Type 0 where
  pub key : List ℕ

pub record Session : Type 0 where
  pub id : List ℕ
  pub peer1 : Participant
  pub peer2 : Participant
  pub created_at : ℕ

-- `==` of strings.
unfoldable pub key_eq : List ℕ → List ℕ → Bool
key_eq [] [] = true
key_eq (x ∷ xs) (y ∷ ys) = let rest = key_eq xs ys in if x == y then rest else false
key_eq _ _ = false

unfoldable pub participant : Session → List ℕ → Option Participant
participant session key =
    if key_eq session.peer1.key key
    then some session.peer1
    else if key_eq session.peer2.key key
    then some session.peer2
    else none

unfoldable pub other_participant : Session → List ℕ → Option Participant
other_participant session key =
    if key_eq session.peer1.key key
    then some session.peer2
    else if key_eq session.peer2.key key
    then some session.peer1
    else none

-- One day.
abbrev pub max_age : ℕ
max_age = 24 * 60 * 60

-- A session from the future is not too old: the difference is negative there, and 0 here.
unfoldable pub is_session_valid_to_join : ℕ → Session → List ℕ → Bool
is_session_valid_to_join now session key =
    if ltb max_age (now - session.created_at)
    then false
    else elim (participant session key) [ none ↦ false | some p ↦ true ]

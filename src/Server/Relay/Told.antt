-- ===== src/Server/Relay/Told.antt =====
-- Chains of reads and writes on the two connections of a pair, and what they leave written.
use tunshell.Prelude.{
  ◌≡◌, refl, Bool, true, false, ◌&&◌, Bool-cases, inl, inr, List, [], ◌∷◌, ◌++◌, append_assoc, ok,
  err, if◌then◌else◌,
}
use tunshell.Shared.Message.{ServerMessage, ClientMessage}
use tunshell.Server.Relay.{Pair, not_written, Reply, Writes, Step, ◌>>?◌, write_both, read_both}

-- The pair, with messages written to both connections.
abbrev pub told : Pair → List ServerMessage → List ServerMessage → Pair
told pair messages1 messages2 = record {
  con1 = record pair.con1 { sent = pair.con1.sent ++ messages1 };
  con2 = record pair.con2 { sent = pair.con2.sent ++ messages2 };
}

pub told-told :
    (pair : Pair) (a b c d : List ServerMessage)
    → told (told pair a b) c d ≡ told pair (a ++ c) (b ++ d)
told-told pair a b c d = rw (append_assoc pair.con1.sent a c, append_assoc pair.con2.sent b d) refl

-- A chain that succeeds succeeds in both of its steps.
pub record Succeeds {A B : Type 0} (step : Step A) (k : Pair → A → Step B) (b : B) : Type 0 where
  pub value : A
  pub first : step.1 ≡ ok value
  pub second : (k step.0 value).1 ≡ ok b
  pub out : (step >>? k).0 ≡ (k step.0 value).0

pub then-Succeeds :
    {A B : Type 0} (step : Step A) (k : Pair → A → Step B) (b : B)
    → (step >>? k).1 ≡ ok b
    → Succeeds step k b
then-Succeeds (pair, ok a) k b h = record { value = a; first = refl; second = h; out = refl }
then-Succeeds (pair, err e) k b h = cc

pub write_both-told :
    (writes : Writes) (pair : Pair) (m1 m2 : ServerMessage) (u : Unit {0})
    → (write_both writes pair m1 m2).1 ≡ ok u
    → (write_both writes pair m1 m2).0 ≡ told pair (m1 ∷ []) (m2 ∷ [])
unfolding write_both
write_both-told writes pair m1 m2 u h = elim (Bool-cases writes.first) [
  | inl e ↦ elim (Bool-cases writes.second) [
    | inl f ↦ rw (e, f) refl
    | inr f ↦ absurd (fails (writes.first && writes.second) (rw (e, f) refl) h)
  ]
  | inr e ↦ absurd (fails (writes.first && writes.second) (rw e refl) h)
]
  where
    fails : (b : Bool) → b ≡ false → (if b then ok tt else err not_written) ≡ ok u → ⊥
    fails false e k = cc
    fails true e k = cc

pub read_both-ok :
    (pair : Pair) (replies : Reply × Reply) (messages : ClientMessage × ClientMessage)
    → (read_both pair replies).1 ≡ ok messages
    → (replies ≡ (ok messages.0, ok messages.1)) × ((read_both pair replies).0 ≡ pair)
unfolding read_both
read_both-ok pair (err e, reply) messages h = cc
read_both-ok pair (ok m, err e) messages h = cc
read_both-ok pair (ok m, ok n) messages h = (cc, refl)

-- ===== src/Credential/Lifecycle.antt =====
-- The lifecycle of a row of the credentials table, as domain/credential.go derives it from the time
-- stamps: a step relation on the three stamps, and what it means for a whole table to follow it.
pub mod Patches
pub mod Backing
pub mod Reviews
pub mod Decisions
pub mod Approval
pub mod Upkeep
pub mod Intakes
pub mod Requests
use cred_chain_golang.Base.{
  ℕ, zero, suc, get_elem?, ◌≡◌, refl, ◌≢◌, List, [], ◌∷◌, All, Option, none, some, arith, ℕ, ◌++◌,
  get_elem?, suc,
}
use mathlib.Core.Path.{subst}
use cred_chain_golang.Domain.Clock.{Time}
use cred_chain_golang.Domain.Credential.{Credential}

pub record Stamps : Type 0 where
  pub activated : Option Time
  pub rejected : Option Time
  pub revoked : Option Time

abbrev pub stamps : Credential → Stamps
stamps c = record { activated = c.activated_at; rejected = c.rejected_at; revoked = c.revoked_at }

-- One step of a row's life, at some instant.
pub data Move (a : Stamps) : Stamps → Type 0 where
  approve :
      (now : Time)
      → a.activated ≡ none
      → a.rejected ≡ none
      → a.revoked ≡ none
      → Move a (record a { activated = some now })
  reject :
      (now : Time)
      → a.activated ≡ none
      → a.rejected ≡ none
      → a.revoked ≡ none
      → Move a (record a { rejected = some now })
  revoke :
      (now : Time)
      → a.activated ≢ none
      → a.rejected ≡ none
      → a.revoked ≡ none
      → Move a (record a { revoked = some now })

pub data Lives (a : Stamps) : Stamps → Type 0 where
  here : Lives a a
  next : {b c : Stamps} → Lives a b → Move b c → Lives a c

-- A row is never approved and rejected, and only an approved one is revoked.
pub record IsCoherent (a : Stamps) : Type 0 where
  pub exclusive : a.activated ≢ none → a.rejected ≡ none
  pub revoked_approved : a.revoked ≢ none → a.activated ≢ none

-- A row is stored as neither rejected nor revoked.
pub new-IsCoherent : {a : Stamps} → a.rejected ≡ none → a.revoked ≡ none → IsCoherent a
new-IsCoherent h k = record { exclusive = λ n. h; revoked_approved = λ n. absurd (n k) }

Move-IsCoherent : {a b : Stamps} → Move a b → IsCoherent a → IsCoherent b
Move-IsCoherent (approve now h k l) c = record {
  exclusive = λ n. k;
  revoked_approved = λ n. absurd (ground arith);
}
Move-IsCoherent (reject now h k l) c = record {
  exclusive = λ n. absurd (ground arith);
  revoked_approved = λ n. absurd (ground arith);
}
Move-IsCoherent (revoke now h k l) c = record { exclusive = λ n. k; revoked_approved = λ n. h }

pub Lives-IsCoherent : {a b : Stamps} → Lives a b → IsCoherent a → IsCoherent b
Lives-IsCoherent here c = c
Lives-IsCoherent (next l m) c = Move-IsCoherent m (Lives-IsCoherent l c)

pub Lives-trans : {a b c : Stamps} → Lives a b → Lives b c → Lives a c
Lives-trans l here = l
Lives-trans l (next m s) = next (Lives-trans l m) s

-- A rejected row is left as it is for good.
Move-not_rejected : {a b : Stamps} → Move a b → a.rejected ≡ none
Move-not_rejected (approve now h k l) = k
Move-not_rejected (reject now h k l) = k
Move-not_rejected (revoke now h k l) = k

pub Lives-rejected : {a b : Stamps} → Lives a b → a.rejected ≢ none → b ≡ a
Lives-rejected here n = refl
Lives-rejected (next l m) n =
    let same = Lives-rejected l n in let k = Move-not_rejected m in absurd (ground arith)

Move-not_revoked : {a b : Stamps} → Move a b → a.revoked ≡ none
Move-not_revoked (approve now h k l) = l
Move-not_revoked (reject now h k l) = l
Move-not_revoked (revoke now h k l) = l

pub Lives-revoked : {a b : Stamps} → Lives a b → a.revoked ≢ none → b ≡ a
Lives-revoked here n = refl
Lives-revoked (next l m) n =
    let same = Lives-revoked l n in let k = Move-not_revoked m in absurd (ground arith)

-- An approval is never taken back.
Move-activated : {a b : Stamps} → Move a b → a.activated ≢ none → b.activated ≡ a.activated
Move-activated (approve now h k l) n = absurd (ground arith)
Move-activated (reject now h k l) n = refl
Move-activated (revoke now h k l) n = refl

pub Lives-activated : {a b : Stamps} → Lives a b → a.activated ≢ none → b.activated ≡ a.activated
Lives-activated here n = refl
Lives-activated (next l m) n =
    let same = Lives-activated l n in let k = Move-activated m in ground arith

-- A row after some requests: the columns that no request may change, and the stamps.
pub record Follows (c d : Credential) : Type 0 where
  pub id : d.id ≡ c.id
  pub holder : d.holder_user_id ≡ c.holder_user_id
  pub file : d.file_hash ≡ c.file_hash
  pub reason : d.revocation_reason ≡ c.revocation_reason
  pub life : Lives (stamps c) (stamps d)

Follows-refl : (c : Credential) → Follows c c
Follows-refl c = record { id = refl; holder = refl; file = refl; reason = refl; life = here }

Follows-trans : {a b c : Credential} → Follows a b → Follows b c → Follows a c
Follows-trans f g = record {
  id = ground arith;
  holder = ground arith;
  file = ground arith;
  reason = ground arith;
  life = Lives-trans f.life g.life;
}

-- The table after some requests: the rows that it had, in their places, and new ones behind them.
abbrev pub Evolves : List Credential → List Credential → Type 0
Evolves [] ds = All (λ d. IsCoherent (stamps d)) ds
Evolves (c ∷ cs) [] = ⊥
Evolves (c ∷ cs) (d ∷ ds) = Follows c d × Evolves cs ds

abbrev pub AreCoherent : List Credential → Type 0
AreCoherent = All (λ c. IsCoherent (stamps c))

pub Evolves-refl : (cs : List Credential) → Evolves cs cs
Evolves-refl [] = tt
Evolves-refl (c ∷ cs) = (Follows-refl c, Evolves-refl cs)

-- Every request keeps the rows coherent.
pub Evolves-AreCoherent :
    (cs ds : List Credential) → Evolves cs ds → AreCoherent cs → AreCoherent ds
Evolves-AreCoherent [] ds e h = e
Evolves-AreCoherent (c ∷ cs) [] e h = absurd e
Evolves-AreCoherent (c ∷ cs) (d ∷ ds) e h =
    (Lives-IsCoherent e.0.life h.0, Evolves-AreCoherent cs ds e.1 h.1)

pub Evolves-trans : (as' bs cs : List Credential) → Evolves as' bs → Evolves bs cs → Evolves as' cs
Evolves-trans [] bs cs e f = Evolves-AreCoherent bs cs f e
Evolves-trans (a ∷ as') [] cs e f = absurd e
Evolves-trans (a ∷ as') (b ∷ bs) [] e f = absurd f
Evolves-trans (a ∷ as') (b ∷ bs) (c ∷ cs) e f =
    (Follows-trans e.0 f.0, Evolves-trans as' bs cs e.1 f.1)

-- New rows behind the old ones.
pub Evolves-append : (cs ds : List Credential) → AreCoherent ds → Evolves cs (cs ++ ds)
Evolves-append [] ds h = h
Evolves-append (c ∷ cs) ds h = (Follows-refl c, Evolves-append cs ds h)

-- The life of the row that stands at one place.
some_inj : {a b : Credential} → some a ≡ some b → a ≡ b
some_inj h = ground arith

pub Evolves-at :
    (cs ds : List Credential) (i : ℕ) (c : Credential)
    → Evolves cs ds
    → get_elem? cs i ≡ some c
    → (d : Credential) × (get_elem? ds i ≡ some d) × Follows c d
Evolves-at [] ds i c e h = absurd (ground arith)
Evolves-at (a ∷ cs) [] i c e h = absurd e
Evolves-at (a ∷ cs) (d ∷ ds) zero c e h = (d, refl, subst (λ x. Follows x d) (some_inj h) e.0)
Evolves-at (a ∷ cs) (d ∷ ds) (suc i) c e h = Evolves-at cs ds i c e.1 h

-- ===== src/Taxonomy/Lifecycle.antt =====
-- The lifecycle of a taxonomy row, as domain/reference.go derives it from the time stamps: what may be
-- done to a row, and what it means for a whole table to follow it.
use cred_chain_golang.Base.{
  ◌≡◌, ◌≢◌, refl, Bool, true, false, String, List, [], ◌∷◌, ◌++◌, All, Option, none, some, arith,
  sym, ◌∙◌, ap,
}
use cred_chain_golang.Domain.Clock.{Time}
use cred_chain_golang.Domain.Reference.{Reference, ReferenceStatus, status}

pub data Move (r : Reference) : Reference → Type 0 where
  edit : (name : String) (active : Bool) → Move r (record r { name = name; active = active })
  approve :
      (by : String) (now : Time)
      → status r ≡ ReferenceStatus.pending
      → Move r (record r { active = true; approver_user_id = some by; activated_at = some now })
  reject :
      (by : String) (now : Time) (reason : String)
      → status r ≡ ReferenceStatus.pending
      → Move r (record r {
        active = false;
        rejecter_user_id = some by;
        rejected_at = some now;
        rejection_reason = some reason;
      })

pub data Lives (r : Reference) : Reference → Type 0 where
  here : Lives r r
  next : {d e : Reference} → Lives r d → Move d e → Lives r e

pub Lives-trans : {a b c : Reference} → Lives a b → Lives b c → Lives a c
Lives-trans l here = l
Lives-trans l (next m s) = next (Lives-trans l m) s

-- No row is approved and rejected.
abbrev pub IsCoherent : Reference → Type 0
IsCoherent r = r.activated_at ≢ none → r.rejected_at ≡ none

Move-IsCoherent : {r d : Reference} → Move r d → IsCoherent r → IsCoherent d
unfolding status
Move-IsCoherent (edit name active) c = c
Move-IsCoherent (approve by now h) c = λ n. ground arith
Move-IsCoherent (reject by now reason h) c = λ n. absurd (ground arith)

pub Lives-IsCoherent : {r d : Reference} → Lives r d → IsCoherent r → IsCoherent d
Lives-IsCoherent here c = c
Lives-IsCoherent (next l m) c = Move-IsCoherent m (Lives-IsCoherent l c)

-- Who decided on a row, when, and why.
pub record Decision : Type 0 where
  pub status : ReferenceStatus
  pub approver : Option String
  pub rejecter : Option String
  pub reason : Option String
  pub activated_at : Option Time
  pub rejected_at : Option Time

unfoldable pub decision : Reference → Decision
unfolding status
decision r = record {
  status = status r;
  approver = r.approver_user_id;
  rejecter = r.rejecter_user_id;
  reason = r.rejection_reason;
  activated_at = r.activated_at;
  rejected_at = r.rejected_at;
}

Move-decided :
    {r d : Reference} → Move r d → status r ≢ ReferenceStatus.pending → decision d ≡ decision r
unfolding decision
Move-decided (edit name active) n = refl
Move-decided (approve by now h) n = absurd (n h)
Move-decided (reject by now reason h) n = absurd (n h)

-- A decision is final.
pub Lives-decided :
    {r d : Reference} → Lives r d → status r ≢ ReferenceStatus.pending → decision d ≡ decision r
unfolding decision
Lives-decided here n = refl
Lives-decided (next l m) n =
    let k = Lives-decided l n in
    Move-decided m (λ e. n (sym (ap (λ (x : Decision). x.status) k) ∙ e)) ∙ k

Move-same :
    {r d : Reference} → Move r d → (d.id ≡ r.id) × (d.submitter_user_id ≡ r.submitter_user_id)
Move-same (edit name active) = (refl, refl)
Move-same (approve by now h) = (refl, refl)
Move-same (reject by now reason h) = (refl, refl)

pub Lives-same :
    {r d : Reference} → Lives r d → (d.id ≡ r.id) × (d.submitter_user_id ≡ r.submitter_user_id)
Lives-same here = (refl, refl)
Lives-same (next l m) = let a = Lives-same l in let b = Move-same m in (b.0 ∙ a.0, b.1 ∙ a.1)

-- The table after some requests: the rows that it had, each further along its life, less those that
-- were destroyed, and new ones behind them.
pub data Evolves : List Reference → List Reference → Type 0 where
  new : (ds : List Reference) → All IsCoherent ds → Evolves [] ds
  keep :
      {r d : Reference} {rs ds : List Reference}
      → Lives r d
      → Evolves rs ds
      → Evolves (r ∷ rs) (d ∷ ds)
  drop : {r : Reference} {rs ds : List Reference} → Evolves rs ds → Evolves (r ∷ rs) ds

pub Evolves-refl : (rs : List Reference) → Evolves rs rs
Evolves-refl [] = new [] tt
Evolves-refl (r ∷ rs) = keep here (Evolves-refl rs)

pub Evolves-IsCoherent :
    {rs ds : List Reference} → Evolves rs ds → All IsCoherent rs → All IsCoherent ds
Evolves-IsCoherent (new ds h) c = h
Evolves-IsCoherent (keep l e) c = (Lives-IsCoherent l c.0, Evolves-IsCoherent e c.1)
Evolves-IsCoherent (drop e) c = Evolves-IsCoherent e c.1

pub Evolves-trans : {rs ds es : List Reference} → Evolves rs ds → Evolves ds es → Evolves rs es
Evolves-trans (new ds h) f = new _ (Evolves-IsCoherent f h)
Evolves-trans (keep l e) (keep m f) = keep (Lives-trans l m) (Evolves-trans e f)
Evolves-trans (keep l e) (drop f) = drop (Evolves-trans e f)
Evolves-trans (drop e) f = drop (Evolves-trans e f)

pub Evolves-append : (rs ds : List Reference) → All IsCoherent ds → Evolves rs (rs ++ ds)
Evolves-append [] ds h = new ds h
Evolves-append (r ∷ rs) ds h = keep here (Evolves-append rs ds h)

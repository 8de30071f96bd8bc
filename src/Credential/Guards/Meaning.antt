-- ===== src/Credential/Guards/Meaning.antt =====
-- The guards read as predicates on the rows: what passes, and what an error names.
use cred_chain_golang.Base.{
  All-map, ◌≡◌, Bool, true, false, String, List, [], ◌∷◌, All, Option, none, some, arith, contains,
  difference-nil,
}
use cred_chain_golang.Domain.Clock.{Time}
use cred_chain_golang.Domain.Fault.{Code, ok}
use cred_chain_golang.Domain.Reference.{Reference, usable}
use cred_chain_golang.Domain.Credential.{Credential, CredentialStatus, status}
use cred_chain_golang.Effect.{check_all}
use cred_chain_golang.Effect.Laws.{check_all-ok, check_all_of_All}
use cred_chain_golang.Credential.Guards.{
  ids_of, require_found, reference_guard, review_status_guard, approve_guard, refuse_where,
  ids_where,
}

abbrev pub IsUsable : Option Reference → Type 0
IsUsable none = ⊥
IsUsable (some r) = usable r ≡ true

-- Pending, with a type, an organization and competencies that are all active and approved.
pub record IsApprovable (now : Time) (t : Credential) : Type 0 where
  pub pending : status now t ≡ CredentialStatus.pending
  pub type_usable : IsUsable t.type
  pub organization_usable : IsUsable t.issuer_organization
  pub competencies_usable : All (λ c. usable c ≡ true) t.competencies

pub reference_guard-ok :
    (id : String) (r : Option Reference) → reference_guard id r ≡ ok tt → IsUsable r
unfolding reference_guard
reference_guard-ok id none h = ground arith
reference_guard-ok id (some r) h = ground arith

pub reference_guard_of_IsUsable :
    (id : String) (r : Option Reference) → IsUsable r → reference_guard id r ≡ ok tt
unfolding reference_guard
reference_guard_of_IsUsable id none h = elim h [ ]
reference_guard_of_IsUsable id (some r) h = ground arith

competencies-ok :
    (id : String) (cs : List Reference)
    → check_all (λ c. reference_guard id (some c)) cs ≡ ok tt
    → All (λ c. usable c ≡ true) cs
competencies-ok id cs h =
    All-map (λ c k. reference_guard-ok id (some c) k) cs
      (check_all-ok (λ c. reference_guard id (some c)) cs h)

competencies_of_All :
    (id : String) (cs : List Reference)
    → All (λ c. usable c ≡ true) cs
    → check_all (λ c. reference_guard id (some c)) cs ≡ ok tt
competencies_of_All id cs h =
    check_all_of_All (λ c. reference_guard id (some c)) cs
      (All-map (λ c k. reference_guard_of_IsUsable id (some c) k) cs h)

pub review_status_guard-ok :
    (now : Time) (t : Credential)
    → review_status_guard now t ≡ ok tt
    → status now t ≡ CredentialStatus.pending
unfolding review_status_guard
review_status_guard-ok now t h = ground arith

pub review_status_guard_of_pending :
    (now : Time) (t : Credential)
    → status now t ≡ CredentialStatus.pending
    → review_status_guard now t ≡ ok tt
unfolding review_status_guard
review_status_guard_of_pending now t h = ground arith

module _ (now : Time) (t : Credential) where
  approve_parts :
      approve_guard now t ≡ ok tt
      → (review_status_guard now t ≡ ok tt)
        × (reference_guard t.id t.type ≡ ok tt)
        × (reference_guard t.id t.issuer_organization ≡ ok tt)
        × (check_all (λ c. reference_guard t.id (some c)) t.competencies ≡ ok tt)
  unfolding approve_guard
  approve_parts h = ground arith

  pub approve_guard-ok : approve_guard now t ≡ ok tt → IsApprovable now t
  approve_guard-ok h =
      let p = approve_parts h in
      record {
        pending = review_status_guard-ok now t p.0;
        type_usable = reference_guard-ok t.id t.type p.1;
        organization_usable = reference_guard-ok t.id t.issuer_organization p.2;
        competencies_usable = competencies-ok t.id t.competencies p.3;
      }

  pub approve_guard_of_IsApprovable : IsApprovable now t → approve_guard now t ≡ ok tt
  unfolding approve_guard
  approve_guard_of_IsApprovable h = ground (
    arith,
    review_status_guard_of_pending now t h.pending,
    reference_guard_of_IsUsable t.id t.type h.type_usable,
    reference_guard_of_IsUsable t.id t.issuer_organization h.organization_usable,
    competencies_of_All t.id t.competencies h.competencies_usable,
  )

pub All-IsApprovable :
    (now : Time) (ts : List Credential)
    → check_all (approve_guard now) ts ≡ ok tt
    → All (IsApprovable now) ts
All-IsApprovable now ts h =
    All-map (approve_guard-ok now) ts (check_all-ok (approve_guard now) ts h)

pub All-pending :
    (now : Time) (ts : List Credential)
    → check_all (review_status_guard now) ts ≡ ok tt
    → All (λ t. status now t ≡ CredentialStatus.pending) ts
All-pending now ts h =
    All-map (review_status_guard-ok now) ts (check_all-ok (review_status_guard now) ts h)

pub require_found-ok :
    (code : Code) (ids : List String) (ts : List Credential)
    → require_found code ids ts ≡ ok tt
    → All (λ id. contains (ids_of ts) id ≡ true) ids
unfolding require_found
require_found-ok code ids ts h = difference-nil ids (ids_of ts) (ground arith)

-- A test that picks out no row fails at every row.
ids_where-nil :
    (p : Credential → Bool) (ts : List Credential) → ids_where p ts ≡ [] → All (λ t. p t ≡ false) ts
unfolding ids_where
ids_where-nil p [] h = tt
ids_where-nil p (t ∷ ts) h = (ground arith, ids_where-nil p ts (ground arith))

pub refuse_where-ok :
    (p : Credential → Bool) (code : Code) (ts : List Credential)
    → refuse_where p code ts ≡ ok tt
    → All (λ t. p t ≡ false) ts
unfolding refuse_where
refuse_where-ok p code ts h = ids_where-nil p ts (ground arith)

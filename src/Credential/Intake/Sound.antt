-- ===== src/Credential/Intake/Sound.antt =====
-- What a batch that passes issueValidate satisfies.
use cred_chain_golang.Base.{
  ℕ, suc, ◌≡◌, refl, Bool, true, false, String, List, [], ◌∷◌, ◌++◌, All, Option, none, some, arith,
  contains, ◌≢◌, eq_iff,
}
use cred_chain_golang.Domain.Fault.{Result, ok, err}
use cred_chain_golang.Domain.Reference.{Reference, usable}
use cred_chain_golang.Effect.{Backend}
use cred_chain_golang.Credential.Ports.{CredentialService}
use cred_chain_golang.Credential.Numbers.{holds_pair}
use cred_chain_golang.Credential.Intake.Validate.{
  CredentialIssuance, BatchFacts, reference_error, number_error, competency_error,
  issue_item_errors, issue_errors, type_error, organization_error,
}

pub append-nil_parts {ℓ} : {A : Type ℓ} (xs ys : List A) → xs ++ ys ≡ [] → (xs ≡ []) × (ys ≡ [])
append-nil_parts [] ys h = (refl, h)
append-nil_parts (x ∷ xs) ys h = absurd (ground arith)

-- A query that found a row which is active and approved.
abbrev pub IsUsableRow : Result (Option Reference) → Type 0
IsUsableRow (ok (some r)) = usable r ≡ true
IsUsableRow _ = ⊥

pub reference_error-nil :
    (i : ℕ) (field missing inactive : String) (r : Result (Option Reference))
    → reference_error i field missing inactive r ≡ []
    → IsUsableRow r
unfolding reference_error
reference_error-nil i field missing inactive (ok (some r)) h = ground arith
reference_error-nil i field missing inactive (ok none) h = absurd (ground arith)
reference_error-nil i field missing inactive (err e) h = absurd (ground arith)

-- No number, an empty one, or one that no row of the organization has.
abbrev pub IsFreeNumber : List (String × String) → String → Option String → Type 0
IsFreeNumber taken org none = Unit
IsFreeNumber taken org (some n) = n ≢ "" → holds_pair taken org n ≡ false

pub number_error-nil :
    (i : ℕ) (taken : List (String × String)) (org : String) (number : Option String)
    → number_error i taken org number ≡ []
    → IsFreeNumber taken org number
unfolding number_error
number_error-nil i taken org none h = tt
number_error-nil i taken org (some n) h = λ k. ground (arith, eq_iff n "")

pub competency_error-nil :
    (i : ℕ) (existing : String → Option Bool) (ids : List String)
    → competency_error i existing ids ≡ []
    → All (λ id. existing id ≡ some true) ids
unfolding competency_error
competency_error-nil i existing [] h = tt
competency_error-nil i existing (id ∷ ids) h =
    (ground arith, competency_error-nil i existing ids (ground arith))

module _ {T : Backend} (s : CredentialService T) (facts : BatchFacts) (db : T.Db) where
  -- An item whose holder exists, whose file is not on chain, and whose type, organization, number and
  -- competencies may be used.
  pub record IsIssuable (it : CredentialIssuance) : Type 0 where
    pub holder_known : contains facts.holders it.holder_user_id ≡ true
    pub file_new : contains facts.active (s.storage.keccak_hex it.file_bytes) ≡ false
    pub type_usable : IsUsableRow (s.find_type it.type_id db)
    pub organization_usable : IsUsableRow (s.find_organization it.issuer_organization_id db)
    pub number_free : IsFreeNumber facts.taken it.issuer_organization_id it.number
    pub competencies_active : All (λ id. facts.existing id ≡ some true) it.competency_ids

  issue_item-nil :
      (i : ℕ) (it : CredentialIssuance)
      → issue_item_errors s facts db i it ≡ []
      → IsUsableRow (s.find_type it.type_id db)
        × IsUsableRow (s.find_organization it.issuer_organization_id db)
        × IsFreeNumber facts.taken it.issuer_organization_id it.number
        × All (λ id. facts.existing id ≡ some true) it.competency_ids
  unfolding issue_item_errors
  issue_item-nil i it h =
      let t = type_error i (s.find_type it.type_id db) in
      let o = organization_error i (s.find_organization it.issuer_organization_id db) in
      let n = number_error i facts.taken it.issuer_organization_id it.number in
      let c = competency_error i facts.existing it.competency_ids in
      let first = append-nil_parts (t ++ o ++ n) c h in
      let second = append-nil_parts (t ++ o) n first.0 in
      let third = append-nil_parts t o second.0 in
      (
        reference_error-nil i _ _ _ (s.find_type it.type_id db) third.0,
        reference_error-nil i _ _ _ (s.find_organization it.issuer_organization_id db) third.1,
        number_error-nil i facts.taken it.issuer_organization_id it.number second.1,
        competency_error-nil i facts.existing it.competency_ids first.1,
      )

  -- The files of the batch differ from one another and from those seen before.
  abbrev pub AreFresh : List String → List CredentialIssuance → Type 0
  AreFresh seen [] = Unit
  AreFresh seen (it ∷ its) =
      (contains seen (s.storage.keccak_hex it.file_bytes) ≡ false)
      × AreFresh (s.storage.keccak_hex it.file_bytes ∷ seen) its

  -- The loop body, where it reports nothing.
  issue_step-nil :
      (i : ℕ) (seen : List String) (it : CredentialIssuance) (its : List CredentialIssuance)
      → issue_errors s facts db i seen (it ∷ its) ≡ []
      → (contains facts.holders it.holder_user_id ≡ true)
        × (contains facts.active (s.storage.keccak_hex it.file_bytes) ≡ false)
        × (contains seen (s.storage.keccak_hex it.file_bytes) ≡ false)
        × (issue_item_errors s facts db i it
              ++ issue_errors s facts db (suc i) (s.storage.keccak_hex it.file_bytes ∷ seen) its
            ≡ [])
  unfolding issue_errors
  issue_step-nil i seen it its h = ground arith

  -- A batch in which the loop finds no error: every item may be issued, and no two items carry the
  -- same file.
  pub issue_errors-nil :
      (i : ℕ) (seen : List String) (its : List CredentialIssuance)
      → issue_errors s facts db i seen its ≡ []
      → All IsIssuable its × AreFresh seen its
  issue_errors-nil i seen [] h = (tt, tt)
  issue_errors-nil i seen (it ∷ its) h =
      let (holder, new, fresh, both) = issue_step-nil i seen it its h in
      let split =
        append-nil_parts (issue_item_errors s facts db i it)
          (issue_errors s facts db (suc i) (s.storage.keccak_hex it.file_bytes ∷ seen) its) both in
      let (t, o, n, c) = issue_item-nil i it split.0 in
      let rest = issue_errors-nil (suc i) (s.storage.keccak_hex it.file_bytes ∷ seen) its split.1 in
      (
        (
          record {
            holder_known = holder;
            file_new = new;
            type_usable = t;
            organization_usable = o;
            number_free = n;
            competencies_active = c;
          },
          rest.0,
        ),
        (fresh, rest.1),
      )

-- ===== src/Credential/Intake/Rows.antt =====
-- The rows that Issue and Submit build, and where they stand in the lifecycle.
use cred_chain_golang.Base.{
  ℕ, ◌+◌, ◌*◌, Aligned, ◌≡◌, refl, false, String, List, [], ◌∷◌, none, some, arith, inr, inl,
}
use cred_chain_golang.Domain.Clock.{Time}
use cred_chain_golang.Domain.Fault.{issue_storage_failed, submit_storage_failed, ok}
use cred_chain_golang.Domain.User.{User}
use cred_chain_golang.Domain.Credential.{
  Credential, CredentialStatus, ExtractState, status, extract_state, is_past,
}
use cred_chain_golang.Effect.{Backend, World, M}
use cred_chain_golang.Effect.Laws.{Result-cases}
use cred_chain_golang.Credential.Ports.{CredentialService}
use cred_chain_golang.Credential.Intake.Validate.{CredentialIssuance, CredentialSubmission}
use mathlib.Core.Path.{subst}
use cred_chain_golang.Credential.Lifecycle.{IsCoherent, new-IsCoherent, stamps}
use mathlib.Core.Logic.{inl, inr}
use cred_chain_golang.Credential.Intake.Prepare.{
  submission_row, readings, issuance_row, require_time, issue_prepare, submit_prepare,
  issue_prepare_one, submit_prepare_one, store_file, collect,
}

collect-cons :
    {T : Backend} {A B : Type 0} (f : A → M T B) (x : A) (xs : List A) (y : B) (ys : List B)
    (w v : World T)
    → collect f (x ∷ xs) w ≡ (ok (y ∷ ys), v)
    → (f x w ≡ (ok y, (f x w).1)) × (collect f xs (f x w).1 ≡ (ok ys, v))
unfolding collect
collect-cons f x xs y ys w v h = elim (Result-cases (f x w).0) [
  | inr (e, q) ↦ absurd (ground arith)
  | inl (b, q) ↦ elim (Result-cases (collect f xs (f x w).1).0) [
    | inr (e, p) ↦ absurd (ground arith)
    | inl (bs, p) ↦ (ground arith, ground arith)
  ]
]

collect-not_nil :
    {T : Backend} {A B : Type 0} (f : A → M T B) (x : A) (xs : List A) (w v : World T)
    → collect f (x ∷ xs) w ≡ (ok [], v)
    → ⊥
unfolding collect
collect-not_nil f x xs w v h = ground arith

collect-Aligned :
    {T : Backend} {A B : Type 0} (R : A → B → Type 0) (f : A → M T B)
    → ((a : A) (b : B) (w v : World T) → f a w ≡ (ok b, v) → R a b)
    → (xs : List A) (ys : List B) (w v : World T) → collect f xs w ≡ (ok ys, v)
    → Aligned R xs ys
collect-Aligned R f each [] [] w v h = tt
collect-Aligned R f each [] (y ∷ ys) w v h = absurd (unfold collect in ground arith)
collect-Aligned R f each (x ∷ xs) [] w v h = absurd (collect-not_nil f x xs w v h)
collect-Aligned R f each (x ∷ xs) (y ∷ ys) w v h =
    let (one, rest) = collect-cons f x xs y ys w v h in
    (each x y w (f x w).1 one, collect-Aligned R f each xs ys (f x w).1 v rest)

module _ {T : Backend} (s : CredentialService T) (auth : User) where
  -- A submission's row: owned and submitted by the caller, with nobody's approval, no token and no
  -- extraction; pending, or expired if its expiry has passed.
  pub record IsSubmission (it : CredentialSubmission) (c : Credential) : Type 0 where
    pub owner : c.holder_user_id ≡ auth.id
    pub submitter : c.submitter_user_id ≡ auth.id
    pub no_issuer : c.issuer_user_id ≡ none
    pub no_token : c.token_id ≡ none
    pub coherent : IsCoherent (stamps c)
    pub file : c.file_hash ≡ s.storage.keccak_hex it.file_bytes
    pub unextracted : extract_state c ≡ ExtractState.unextracted
    pub pending :
        (now : Time) → is_past now it.expires_at ≡ false → status now c ≡ CredentialStatus.pending

  submission_row-IsSubmission :
      (it : CredentialSubmission) (uri id : String) (t : Time)
      → IsSubmission it (submission_row s auth it uri id t)
  unfolding submission_row status extract_state
  submission_row-IsSubmission it uri id t = record {
    owner = refl;
    submitter = refl;
    no_issuer = refl;
    no_token = refl;
    coherent = new-IsCoherent refl refl;
    file = refl;
    unextracted = refl;
    pending = λ now h. ground arith;
  }

  prepared-IsSubmission :
      (it : CredentialSubmission) (c : Credential) (w v : World T)
      → submit_prepare_one s auth it w ≡ (ok c, v)
      → IsSubmission it c
  unfolding submit_prepare_one
  prepared-IsSubmission it c w v h =
      elim (Result-cases (store_file s submit_storage_failed it.filename it.file_bytes w).0) [
        | inr (e, q) ↦ absurd (ground arith)
        | inl (uri, q) ↦ elim (Result-cases (require_time it.issued_at)) [
          | inr (e, p) ↦ absurd (ground arith)
          | inl (t, p) ↦
              let id =
                s.ulid (store_file s submit_storage_failed it.filename it.file_bytes w).1.drawn in
              let e : submission_row s auth it uri id t ≡ c = ground arith in
              subst (IsSubmission it) e (submission_row-IsSubmission it uri id t)
        ]
      ]

  -- Every row that Submit is about to store stands for the item at its place.
  pub submit_prepare-rows :
      (its : List CredentialSubmission) (cs : List Credential) (w v : World T)
      → submit_prepare s auth its w ≡ (ok cs, v)
      → Aligned IsSubmission its cs
  unfolding submit_prepare
  submit_prepare-rows its cs w v h =
      collect-Aligned IsSubmission (submit_prepare_one s auth) prepared-IsSubmission its cs w v h

-- An issuance's row: what the item says, issued and activated by the caller, with its file stored, its
-- extraction enqueued and no token yet; issued at the item's date, or else at a reading of the clock,
-- and activated at one; approved, unless its expiry has passed.
pub record IsIssuance {T : Backend} (s : CredentialService T) (auth : User)
    (it : CredentialIssuance) (c : Credential) : Type 0 where
  pub owner : c.holder_user_id ≡ it.holder_user_id
  pub submitter : c.submitter_user_id ≡ auth.id
  pub issuer : c.issuer_user_id ≡ some auth.id
  pub organization : c.issuer_organization_id ≡ it.issuer_organization_id
  pub type : c.type_id ≡ it.type_id
  pub number : c.number ≡ it.number
  pub name : c.name ≡ it.name
  pub expires : c.expires_at ≡ it.expires_at
  pub dated : (t : Time) → it.issued_at ≡ some t → c.issued_at ≡ t
  pub undated : it.issued_at ≡ none → (k : ℕ) × (c.issued_at ≡ s.clock k)
  pub activated : (k : ℕ) × (c.activated_at ≡ some (s.clock k))
  pub no_token : c.token_id ≡ none
  pub coherent : IsCoherent (stamps c)
  pub file : c.file_hash ≡ s.storage.keccak_hex it.file_bytes
  pub stored : (uri : String) × (c.file_uri ≡ some uri)
  pub enqueued : extract_state c ≡ ExtractState.extract_pending
  pub approved :
      (now : Time) → is_past now it.expires_at ≡ false → status now c ≡ CredentialStatus.approved

module _ {T : Backend} (s : CredentialService T) (auth : User) where
  issuance_row-IsIssuance :
      (it : CredentialIssuance) (uri id : String) (n : ℕ)
      → IsIssuance s auth it (
          issuance_row s auth (s.clock (3 * n), s.clock (3 * n + 1), s.clock (3 * n + 2)) it uri id)
  unfolding issuance_row status extract_state
  issuance_row-IsIssuance it uri id n = record {
    owner = refl;
    submitter = refl;
    issuer = refl;
    organization = refl;
    type = refl;
    number = refl;
    name = refl;
    expires = refl;
    dated = λ t e. ground arith;
    undated = λ e. (3 * n, ground arith);
    activated = (3 * n + 2, refl);
    no_token = refl;
    coherent = new-IsCoherent refl refl;
    file = refl;
    stored = (uri, refl);
    enqueued = refl;
    approved = λ now h. ground arith;
  }

  prepared-IsIssuance :
      (it : CredentialIssuance) (c : Credential) (w v : World T)
      → issue_prepare_one s auth it w ≡ (ok c, v)
      → IsIssuance s auth it c
  unfolding issue_prepare_one readings
  prepared-IsIssuance it c w v h =
      elim (Result-cases (store_file s issue_storage_failed it.filename it.file_bytes w).0) [
        | inr (e, q) ↦ absurd (ground arith)
        | inl (uri, q) ↦
            let id =
              s.ulid (store_file s issue_storage_failed it.filename it.file_bytes w).1.drawn in
            let n = w.drawn in
            let e : issuance_row s auth (s.clock (3 * n), s.clock (3 * n + 1), s.clock (3 * n + 2))
                  it uri id
                ≡ c =
              ground arith in
            subst (IsIssuance s auth it) e (issuance_row-IsIssuance it uri id n)
      ]

  -- Every row that Issue is about to store stands for the item at its place.
  pub issue_prepare-rows :
      (its : List CredentialIssuance) (cs : List Credential) (w v : World T)
      → issue_prepare s auth its w ≡ (ok cs, v)
      → Aligned (IsIssuance s auth) its cs
  unfolding issue_prepare
  issue_prepare-rows its cs w v h =
      collect-Aligned (IsIssuance s auth) (issue_prepare_one s auth) prepared-IsIssuance its cs w v
        h

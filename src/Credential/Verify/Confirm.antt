-- ===== src/Credential/Verify/Confirm.antt =====
-- Which answers of Verify confirm an exact match, and what a verification may change.
use cred_chain_golang.Base.{
  ◌≡◌, true, false, String, List, [], ◌∷◌, Option, none, some, arith, is_empty, inl, inr,
  Option-cases, Bool-cases,
}
use cred_chain_golang.Domain.Clock.{Time}
use cred_chain_golang.Domain.Fault.{Result, ok}
use cred_chain_golang.Domain.Credential.{Credential}
use cred_chain_golang.Effect.{Backend, World}
use cred_chain_golang.Effect.Laws.{Result-cases}
use cred_chain_golang.Credential.Ports.{
  CredentialService, OnChainCredential, CredentialExtraction, CredentialVerification,
}
use cred_chain_golang.Credential.Verify.Match.{
  positive_tokens, cred_by_token, best_match, Best, pick_best_match,
}
use cred_chain_golang.Credential.Verify.Verdict.{exact_verdict}
use cred_chain_golang.Credential.Verify.Exact.{IsMatchOf, best_match_from_none}
use cred_chain_golang.Credential.Verify.{
  VerificationResult, verify_upload, verify_exact, verify_cached, verify_fuzzy, verify_values,
  verify_ranked, verify_compared, confirmed, verify_includes, after_rows, after_lookup,
  pick_best_match,
}

-- Everything but the verdict cache is as it was.
pub record SameButCache {T : Backend} (w w' : World T) : Type 0 where
  pub db : w'.db ≡ w.db
  pub chain : w'.chain ≡ w.chain
  pub queue : w'.queue ≡ w.queue
  pub files : w'.files ≡ w.files

-- Where the exact branch confirms: the rows of the hash, the records that the registry gave for their
-- tokens, and the match among them.
pub record IsConfirmed {T : Backend} (s : CredentialService T) (now : Time) (upload : String)
    (w : World T) (v : VerificationResult) : Type 0 where
  pub existing : List Credential
  pub on_chain : List OnChainCredential
  pub best : Best
  pub rows :
      s.repo.find_by_file_hashes (s.storage.keccak_hex upload ∷ []) verify_includes w.db
      ≡ ok existing
  pub records : s.registry.credentials_by_ids (positive_tokens s existing) w.chain ≡ ok on_chain
  pub matches : IsMatchOf s (s.storage.keccak_hex upload) (cred_by_token s existing) on_chain best
  pub credential : v.credential ≡ some best.credential
  pub verdict : v.verdict_code ≡ exact_verdict now best.revoked best.credential

module _ {T : Backend} (s : CredentialService T) (now : Time) where
  -- What a branch other than the exact one answers.
  abbrev Unconfirmed : World T → World T → Result VerificationResult → Type 0
  Unconfirmed w w' r =
      SameButCache w w' × ((v : VerificationResult) → r ≡ ok v → v.exact_match_confirmed ≡ false)

  compared :
      (hash upload : String) (best : CredentialExtraction) (w w' : World T)
      (r : Result VerificationResult)
      → verify_compared s now hash upload best w ≡ (r, w')
      → Unconfirmed w w' r
  unfolding verify_compared
  compared hash upload best w w' r h = (ground arith, λ v e. ground arith)

  ranked :
      (hash upload : String) (values : List String) (rs : List CredentialExtraction)
      (w w' : World T) (r : Result VerificationResult)
      → verify_ranked s now hash upload values rs w ≡ (r, w')
      → Unconfirmed w w' r
  unfolding verify_ranked
  ranked hash upload values [] w w' r h = (ground arith, λ v e. ground arith)
  ranked hash upload values (x ∷ xs) w w' r h =
      compared hash upload (pick_best_match s now x xs values w.db) w w' r h

  valued :
      (hash upload : String) (values : List String) (w w' : World T) (r : Result VerificationResult)
      → verify_values s now hash upload values w ≡ (r, w')
      → Unconfirmed w w' r
  unfolding verify_values
  valued hash upload [] w w' r h = (ground arith, λ v e. ground arith)
  valued hash upload (x ∷ xs) w w' r h =
      elim (Result-cases (s.verify.find_ranked (x ∷ xs) 10 w.cache)) [
        | inl (rs, e) ↦ ranked hash upload (x ∷ xs) rs w w' r (ground arith)
        | inr (e, q) ↦ (ground arith, λ v k. ground arith)
      ]

  fuzzy :
      (hash upload : String) (w w' : World T) (r : Result VerificationResult)
      → verify_fuzzy s now hash upload w ≡ (r, w')
      → Unconfirmed w w' r
  unfolding verify_fuzzy
  fuzzy hash upload w w' r h = elim (Result-cases (s.verify.extract_ids upload)) [
    | inl (values, e) ↦ valued hash upload values w w' r (ground arith)
    | inr (e, q) ↦ (ground arith, λ v k. ground arith)
  ]

  looked_up :
      (hash upload : String) (cached : Option CredentialVerification) (w w' : World T)
      (r : Result VerificationResult)
      → after_lookup s now hash upload cached w ≡ (r, w')
      → Unconfirmed w w' r
  looked_up hash upload none w w' r h = fuzzy hash upload w w' r h
  looked_up hash upload (some c) w w' r h =
      unfold verify_cached in (ground arith, λ v e. ground arith)

  confirmed-ok :
      (best : Best) (w w' : World T) (r : Result VerificationResult)
      → confirmed s now best w ≡ (r, w')
      → (w' ≡ w)
        × ((v : VerificationResult)
            → r ≡ ok v
            → (v.credential ≡ some best.credential)
              × (v.verdict_code ≡ exact_verdict now best.revoked best.credential))
  unfolding confirmed
  confirmed-ok best w w' r h = (ground arith, λ v e. (ground arith, ground arith))

  abbrev ExactAnswer : String → World T → World T → Result VerificationResult → Type 0
  ExactAnswer upload w w' r =
      (w' ≡ w)
      × ((v : VerificationResult)
          → r ≡ ok v
          → v.exact_match_confirmed ≡ true
          → IsConfirmed s now upload w v)

  settled :
      (upload : String) (existing : List Credential) (on_chain : List OnChainCredential)
      (best : Best) (w w' : World T) (r : Result VerificationResult)
      → s.repo.find_by_file_hashes (s.storage.keccak_hex upload ∷ []) verify_includes w.db
        ≡ ok existing
      → s.registry.credentials_by_ids (positive_tokens s existing) w.chain ≡ ok on_chain
      → best_match s (s.storage.keccak_hex upload) (cred_by_token s existing) none on_chain
        ≡ some best
      → confirmed s now best w ≡ (r, w')
      → ExactAnswer upload w w' r
  settled upload existing on_chain best w w' r f c m h =
      let (same, said) = confirmed-ok best w w' r h in
      (
        same,
        λ v e k. record {
          existing = existing;
          on_chain = on_chain;
          best = best;
          rows = f;
          records = c;
          matches =
              best_match_from_none s (s.storage.keccak_hex upload) (cred_by_token s existing)
                on_chain best m;
          credential = (said v e).0;
          verdict = (said v e).1;
        },
      )

  exact :
      (upload : String) (c : Credential) (cs : List Credential) (w w' : World T)
      (r : Result VerificationResult)
      → s.repo.find_by_file_hashes (s.storage.keccak_hex upload ∷ []) verify_includes w.db
        ≡ ok (c ∷ cs)
      → verify_exact s now (s.storage.keccak_hex upload) c (c ∷ cs) w ≡ (r, w')
      → ExactAnswer upload w w' r
  unfolding verify_exact
  exact upload c cs w w' r f h = elim (Bool-cases (is_empty (positive_tokens s (c ∷ cs)))) [
    | inl e ↦ (ground arith, λ v q k. absurd (ground arith))
    | inr e ↦
        elim (Result-cases (s.registry.credentials_by_ids (positive_tokens s (c ∷ cs)) w.chain)) [
          | inr (x, q) ↦ (ground arith, λ v p k. absurd (ground arith))
          | inl (os, q) ↦
              elim (Option-cases
                (best_match s (s.storage.keccak_hex upload) (cred_by_token s (c ∷ cs)) none os)) [
                  | inl m ↦ (ground arith, λ v p k. absurd (ground arith))
                  | inr (best, m) ↦ settled upload (c ∷ cs) os best w w' r f q m (ground arith)
                ]
        ]
  ]

  after :
      (upload : String) (rows : List Credential) (w w' : World T) (r : Result VerificationResult)
      → s.repo.find_by_file_hashes (s.storage.keccak_hex upload ∷ []) verify_includes w.db ≡ ok rows
      → after_rows s now (s.storage.keccak_hex upload) upload rows w ≡ (r, w')
      → SameButCache w w'
        × ((v : VerificationResult)
            → r ≡ ok v
            → v.exact_match_confirmed ≡ true
            → IsConfirmed s now upload w v)
  after upload (c ∷ cs) w w' r f h =
      let (same, said) = exact upload c cs w w' r f h in (ground arith, said)
  after upload [] w w' r f h =
      elim (Result-cases (s.verify.find_cached (s.storage.keccak_hex upload) w.cache)) [
        | inr (x, e) ↦ (ground arith, λ v q k. absurd (ground arith))
        | inl (cached, e) ↦
            let (same, never) =
              looked_up (s.storage.keccak_hex upload) upload cached w w' r (ground arith) in
            (same, λ v q k. absurd (ground (arith, never v)))
      ]

  -- A verification changes nothing but the verdict cache. It confirms an exact match only where
  -- the repository found a row for the hash of the upload, and the registry, asked for the tokens
  -- of such rows, gave a record that agrees with its row; the answer then names that row, with the
  -- verdict for that record. Neither a cached verdict nor the AI's confirms one.
  pub verify_upload-confirms :
      (upload : String) (w w' : World T) (r : Result VerificationResult)
      → verify_upload s now upload w ≡ (r, w')
      → SameButCache w w'
        × ((v : VerificationResult)
            → r ≡ ok v
            → v.exact_match_confirmed ≡ true
            → IsConfirmed s now upload w v)
  unfolding verify_upload
  verify_upload-confirms upload w w' r h =
      elim (Result-cases
        (s.repo.find_by_file_hashes (s.storage.keccak_hex upload ∷ []) verify_includes w.db)) [
          | inr (x, e) ↦ (ground arith, λ v q k. absurd (ground arith))
          | inl (rows, e) ↦ after upload rows w w' r e (ground arith)
        ]

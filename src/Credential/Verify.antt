-- ===== src/Credential/Verify.antt =====
-- Verify of feature/credential/credential_service.go: the exact hash against the chain, the cached
-- verdict, and the fuzzy match by the AI service. `upload` is the uploaded file, `now` one reading of
-- the clock. An on-chain integer of the ABI is never negative.
pub mod Match
pub mod Verdict
pub mod Exact
pub mod Rules
pub mod Confirm
use cred_chain_golang.Base.{
  ℕ, Bool, true, false, not, ◌&&◌, ◌||◌, String, List, [], ◌∷◌, map, Option, none, some,
  slice_to_map, is_empty, is_none, is_some, if◌then◌else◌, ◌==◌,
}
use cred_chain_golang.Domain.Clock.{Time}
use cred_chain_golang.Domain.Fault.{
  Code, Error, domain, record_not_found, file_unprocessable, Result, ok, err,
  verify_ai_service_failed, verify_document_unreadable, verify_chain_unavailable,
}
use cred_chain_golang.Domain.User.{User}
use cred_chain_golang.Domain.Credential.{Credential}
use cred_chain_golang.Effect.{
  Backend, World, M, ◌>>=◌, ◌>>◌, pure, raise, lift, read_db, read_cache, on_cache, attempt,
}
use cred_chain_golang.Credential.Ports.{
  CredentialService, CredentialExtraction, CredentialVerification, AiVerdict, OnChainCredential,
}
use cred_chain_golang.Credential.Verify.Match.{
  positive_tokens, cred_by_token, best_match, Best, pick_best_match,
}
use cred_chain_golang.Credential.Verify.Verdict.{
  integrity_warning, no_identifiers, no_match, exact_verdict, cached_verdict, fuzzy_verdict,
  verdict_to_code,
}

-- CredentialVerificationResult
pub record VerificationResult : Type 0 where
  pub verdict_code : ℕ
  pub credential : Option Credential
  pub similarity_score : Option String
  pub similarity_percent : Option String
  pub exact_match_confirmed : Bool
  pub holder_unit_name : Option String

abbrev plain_verdict : ℕ → Option Credential → VerificationResult
plain_verdict code cred = record {
  verdict_code = code;
  credential = cred;
  similarity_score = none;
  similarity_percent = none;
  exact_match_confirmed = false;
  holder_unit_name = none;
}

abbrev pub verify_includes : List String
verify_includes =
    "holder" ∷ "issuer" ∷ "revoker" ∷ "type" ∷ "issuer_organization" ∷ "competencies" ∷ []

abbrev option_of : {A : Type 0} → Result A → Option A
option_of (ok a) = some a
option_of (err e) = none

module _ {T : Backend} (s : CredentialService T) (now : Time) where
  -- The unit of the holder, if it has one; a unit that is gone has no name.
  abbrev unit_of : Option User → Option String
  unit_of none = none
  unit_of (some holder) = holder.unit_id

  abbrev unit_or_none : Result (Option String) → Result (Option String)
  unit_or_none (ok name) = ok name
  unit_or_none (err record_not_found) = ok none
  unit_or_none (err e) = err e

  unfoldable pub holder_unit_name : T.Db → Credential → Result (Option String)
  holder_unit_name db best = elim (unit_of best.holder) [
    | none ↦ ok none
    | some unit ↦ unit_or_none (s.find_unit unit db)
  ]

  unfoldable pub confirmed : Best → M T VerificationResult
  unfolding holder_unit_name
  confirmed best = do
    unit ← read_db (λ db. holder_unit_name db best.credential)
    pure (record {
      verdict_code = exact_verdict now best.revoked best.credential;
      credential = some best.credential;
      similarity_score = none;
      similarity_percent = none;
      exact_match_confirmed = true;
      holder_unit_name = unit;
    })

  -- The branch of a file whose hash some activated row has; `first` is `existing[0]`.
  unfoldable pub verify_exact : String → Credential → List Credential → M T VerificationResult
  verify_exact hash first existing w =
      let tokens = positive_tokens s existing in
      let warning : Result VerificationResult × World T =
        (ok (plain_verdict integrity_warning (some first)), w) in
      if is_empty tokens then warning else elim (s.registry.credentials_by_ids tokens w.chain) [
        | err e ↦ (err (domain verify_chain_unavailable []), w)
        | ok on_chain ↦ elim (best_match s hash (cred_by_token s existing) none on_chain) [
          | none ↦ warning
          | some best ↦ confirmed best w
        ]
      ]

  abbrev find_matched : Option String → T.Db → Option Credential
  find_matched none db = none
  find_matched (some id) db = option_of (s.repo.find_verifiable_by_id id verify_includes db)

  -- The branch of a verdict that Mongo holds.
  unfoldable pub verify_cached : CredentialVerification → M T VerificationResult
  verify_cached cached w =
      let cred = find_matched cached.matched_credential_id w.db in
      (
        ok (record {
          verdict_code = cached_verdict now cached.verdict_code cred;
          credential = cred;
          similarity_score = cached.similarity_score;
          similarity_percent = cached.similarity_percent;
          exact_match_confirmed = false;
          holder_unit_name = none;
        }),
        w,
      )

  -- verifyCacheVerdict: a failure is logged and dropped.
  unfoldable pub cache_verdict :
      String → ℕ → Option String → Option String → Option String → M T (Unit {0})
  cache_verdict hash code id score percent = attempt (
      on_cache (
        s.verify.store_cached (record {
          uploaded_file_hash = hash;
          verdict_code = code;
          matched_credential_id = id;
          similarity_score = score;
          similarity_percent = percent;
        })))

  abbrev ai_error : Error → Error
  ai_error file_unprocessable = domain verify_document_unreadable []
  ai_error e = domain verify_ai_service_failed []

  abbrev ai_compare : String → CredentialExtraction → Result AiVerdict
  ai_compare upload best = elim (s.verify.ai_verify upload best.embedding) [
    | ok verdict ↦ ok verdict
    | err e ↦ err (ai_error e)
  ]

  abbrev ai_extract : String → Result (List String)
  ai_extract upload = elim (s.verify.extract_ids upload) [
    | ok ids ↦ ok ids
    | err e ↦ err (domain verify_ai_service_failed [])
  ]

  abbrev pub give_up : String → ℕ → M T VerificationResult
  give_up hash code = do cache_verdict hash code none none none; pure (plain_verdict code none)

  unfoldable pub verify_compared : String → String → CredentialExtraction → M T VerificationResult
  unfolding cache_verdict
  verify_compared hash upload best = do
    result ← lift (ai_compare upload best)
    cred ←
        read_db (λ db.
          ok (option_of (s.repo.find_verifiable_by_id best.credential_id verify_includes db)))
    let code = fuzzy_verdict now (verdict_to_code result.verdict) cred
    cache_verdict hash code (some best.credential_id) (some result.similarity_score)
        (some result.similarity_percent)
    pure (record {
      verdict_code = code;
      credential = cred;
      similarity_score = some result.similarity_score;
      similarity_percent = some result.similarity_percent;
      exact_match_confirmed = false;
      holder_unit_name = none;
    })

  unfoldable pub verify_ranked :
      String → String → List String → List CredentialExtraction → M T VerificationResult
  unfolding cache_verdict
  verify_ranked hash upload values [] = give_up hash no_match
  verify_ranked hash upload values (r ∷ rs) = do
    best ← read_db (λ db. ok (pick_best_match s now r rs values db))
    verify_compared hash upload best

  unfoldable pub verify_values : String → String → List String → M T VerificationResult
  unfolding cache_verdict
  verify_values hash upload [] = give_up hash no_identifiers
  verify_values hash upload (v ∷ vs) = do
    ranked ← read_cache (s.verify.find_ranked (v ∷ vs) 10)
    verify_ranked hash upload (v ∷ vs) ranked

  unfoldable pub verify_fuzzy : String → String → M T VerificationResult
  verify_fuzzy hash upload = do values ← lift (ai_extract upload); verify_values hash upload values

  abbrev pub after_lookup : String → String → Option CredentialVerification → M T VerificationResult
  after_lookup hash upload none = verify_fuzzy hash upload
  after_lookup hash upload (some cached) = verify_cached cached

  abbrev pub after_rows : String → String → List Credential → M T VerificationResult
  after_rows hash upload (c ∷ cs) = verify_exact hash c (c ∷ cs)
  after_rows hash upload [] = do
    cached ← read_cache (s.verify.find_cached hash)
    after_lookup hash upload cached

  unfoldable pub verify_upload : String → M T VerificationResult
  verify_upload upload = do
    let hash = s.storage.keccak_hex upload
    existing ← read_db (s.repo.find_by_file_hashes (hash ∷ []) verify_includes)
    after_rows hash upload existing

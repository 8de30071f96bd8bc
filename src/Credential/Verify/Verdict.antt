-- ===== src/Credential/Verify/Verdict.antt =====
-- The verdict codes of Verify, and the rules that override a first verdict
-- (feature/credential/credential_service.go; the codes are those of domain/codes.go).
use cred_chain_golang.Base.{
  ℕ, Bool, true, false, ◌&&◌, String, Option, none, some, is_some, nat_eq, if◌then◌else◌, ◌==◌,
}
use cred_chain_golang.Domain.Clock.{Time}
use cred_chain_golang.Domain.User.{User}
use cred_chain_golang.Domain.Credential.{Credential, CredentialStatus, status, is_past}

abbrev pub authentic : ℕ
authentic = 400401

abbrev pub revoked : ℕ
revoked = 400402

abbrev pub integrity_warning : ℕ
integrity_warning = 400403

abbrev pub tampered : ℕ
tampered = 400404

abbrev pub suspicious : ℕ
suspicious = 400405

abbrev pub low_similarity : ℕ
low_similarity = 400406

abbrev pub not_similar : ℕ
not_similar = 400407

abbrev pub no_identifiers : ℕ
no_identifiers = 400408

abbrev pub no_match : ℕ
no_match = 400409

abbrev pub holder_disabled : ℕ
holder_disabled = 400410

abbrev pub issuer_disabled : ℕ
issuer_disabled = 400411

abbrev pub party_disabled : ℕ
party_disabled = 400412

abbrev pub expired : ℕ
expired = 400413

-- `u == nil || u.DeletedAt != nil`
abbrev pub is_gone : Option User → Bool
is_gone none = true
is_gone (some u) = is_some u.deleted_at

-- The three tests that stand in each branch, over an authentic verdict.
unfoldable pub party_verdict : Credential → ℕ
party_verdict cred =
    if is_gone cred.holder && is_gone cred.issuer
    then party_disabled
    else if is_gone cred.holder
    then holder_disabled
    else if is_gone cred.issuer
    then issuer_disabled
    else authentic

abbrev past_expiry : Time → Option Credential → Bool
past_expiry now none = false
past_expiry now (some cred) = is_past now cred.expires_at

-- verifyApplyExpiry
unfoldable pub apply_expiry : Time → ℕ → Option Credential → ℕ
apply_expiry now code cred = if nat_eq code authentic && past_expiry now cred then expired else code

unfoldable pub override_parties : ℕ → Credential → ℕ
unfolding party_verdict
override_parties code cred = if nat_eq code authentic then party_verdict cred else code

-- The verdict of an exact match that the chain confirms.
unfoldable pub exact_verdict : Time → Bool → Credential → ℕ
unfolding apply_expiry override_parties
exact_verdict now is_revoked best =
    override_parties (apply_expiry now (if is_revoked then revoked else authentic) (some best)) best

abbrev is_revoked_status : CredentialStatus → Bool
is_revoked_status CredentialStatus.revoked = true
is_revoked_status _ = false

-- The verdict of a cache entry, looked at again.
unfoldable pub recheck : Time → Option Credential → ℕ
unfolding apply_expiry override_parties
recheck now none = integrity_warning
recheck now (some cred) =
    if is_revoked_status (status now cred)
    then revoked
    else override_parties (apply_expiry now authentic (some cred)) cred

unfoldable pub cached_verdict : Time → ℕ → Option Credential → ℕ
unfolding recheck
cached_verdict now code cred = if nat_eq code authentic then recheck now cred else code

-- The verdict of the AI comparison.
abbrev parties_of : ℕ → Option Credential → ℕ
parties_of code none = code
parties_of code (some cred) = override_parties code cred

unfoldable pub fuzzy_verdict : Time → ℕ → Option Credential → ℕ
unfolding apply_expiry override_parties
fuzzy_verdict now code cred = apply_expiry now (parties_of code cred) cred

-- verifyVerdictToCode
unfoldable pub verdict_to_code : String → ℕ
verdict_to_code verdict =
    if verdict == "authentic"
    then authentic
    else if verdict == "tampered"
    then tampered
    else if verdict == "suspicious"
    then suspicious
    else if verdict == "low_similarity"
    then low_similarity
    else not_similar

-- ===== src/Credential/Guards.antt =====
-- The checks that feature/credential/credential_service.go makes over the rows it fetched, before it
-- writes: Approve, Reject, Revoke, reExtractValidate and the target check of Update.
pub mod Meaning
use cred_chain_golang.Base.{
  Bool, true, false, ◌||◌, String, List, [], ◌∷◌, map, Option, none, some, difference, is_some,
  is_none, is_empty, if◌then◌else◌,
}
use cred_chain_golang.Domain.Clock.{Time}
use cred_chain_golang.Domain.Fault.{
  Code, domain, Result, ok, err, review_already_approved, review_already_rejected,
  review_already_revoked, review_already_expired, approve_inactive_metadata, revoke_not_found,
  revoke_already_revoked, revoke_not_approved, re_extract_not_found, re_extract_not_eligible,
}
use cred_chain_golang.Domain.Reference.{Reference, usable}
use cred_chain_golang.Domain.Credential.{
  Credential, CredentialStatus, ExtractState, status, extract_state,
}
use cred_chain_golang.Effect.{check_all}
use cred_chain_golang.Effect.Pure.{◌>>◌}

abbrev pub ids_of : List Credential → List String
ids_of = map (λ c. c.id)

-- `lo.Difference` of the requested ids and those found, and the error when some are missing.
unfoldable pub require_found : Code → List String → List Credential → Result (Unit {0})
require_found code ids targets =
    let missing = difference ids (ids_of targets) in
    if is_empty missing then ok tt else err (domain code missing)

-- `switch t.Status()` of Approve and of Reject.
unfoldable pub review_status_guard : Time → Credential → Result (Unit {0})
review_status_guard now t = elim (status now t) [
  | CredentialStatus.approved ↦ err (domain review_already_approved (t.id ∷ []))
  | CredentialStatus.rejected ↦ err (domain review_already_rejected (t.id ∷ []))
  | CredentialStatus.revoked ↦ err (domain review_already_revoked (t.id ∷ []))
  | CredentialStatus.expired ↦ err (domain review_already_expired (t.id ∷ []))
  | CredentialStatus.pending ↦ ok tt
]

-- A relation that is nil, inactive or not approved is refused.
unfoldable pub reference_guard : String → Option Reference → Result (Unit {0})
reference_guard id none = err (domain approve_inactive_metadata (id ∷ []))
reference_guard id (some r) =
    if usable r then ok tt else err (domain approve_inactive_metadata (id ∷ []))

-- The loop body of Approve over the targets.
unfoldable pub approve_guard : Time → Credential → Result (Unit {0})
unfolding review_status_guard reference_guard
approve_guard now t = do
  review_status_guard now t
  reference_guard t.id t.type
  reference_guard t.id t.issuer_organization
  check_all (λ c. reference_guard t.id (some c)) t.competencies

abbrev is_revoked_status : CredentialStatus → Bool
is_revoked_status CredentialStatus.revoked = true
is_revoked_status _ = false

-- The ids of the rows that a test picks out, which an error then names.
unfoldable pub ids_where : (Credential → Bool) → List Credential → List String
ids_where p [] = []
ids_where p (t ∷ ts) = let rest = ids_where p ts in if p t then t.id ∷ rest else rest

unfoldable pub refuse_where : (Credential → Bool) → Code → List Credential → Result (Unit {0})
unfolding ids_where
refuse_where p code targets =
    let picked = ids_where p targets in if is_empty picked then ok tt else err (domain code picked)

abbrev pub is_revoked : Time → Credential → Bool
is_revoked now t = is_revoked_status (status now t)

-- `t.ActivatedAt == nil || t.RejectedAt != nil`
abbrev pub is_not_approved : Credential → Bool
is_not_approved t = is_none t.activated_at || is_some t.rejected_at

-- The checks of Revoke, in their order.
unfoldable pub revoke_guard : Time → List String → List Credential → Result (Unit {0})
unfolding require_found refuse_where
revoke_guard now ids targets = do
  require_found revoke_not_found ids targets
  refuse_where (is_revoked now) revoke_already_revoked targets
  refuse_where is_not_approved revoke_not_approved targets

abbrev is_failed_state : ExtractState → Bool
is_failed_state ExtractState.failed = true
is_failed_state _ = false

abbrev not_bool : Bool → Bool
not_bool true = false
not_bool false = true

-- `t.ExtractState() != domain.ExtractStateFailed || t.FileURI == nil`
abbrev pub is_not_failed : Credential → Bool
is_not_failed t = not_bool (is_failed_state (extract_state t)) || is_none t.file_uri

unfoldable pub re_extract_validate : List String → List Credential → Result (Unit {0})
unfolding require_found refuse_where
re_extract_validate ids targets = do
  require_found re_extract_not_found ids targets
  refuse_where is_not_failed re_extract_not_eligible targets

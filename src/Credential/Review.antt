-- ===== src/Credential/Review.antt =====
-- The review and the revocation, feature/credential/credential_service.go: Approve, Reject and
-- Revoke. One reading of the clock, `now`, serves a whole request, and `auth` is the user that
-- `httpContext.MustGetUser` finds.
pub mod Approve
pub mod Chain
pub mod Reject
pub mod Revoke
use cred_chain_golang.Base.{
  String, List, [], ◌∷◌, map, Option, none, some, slice_to_map, is_empty, if◌then◌else◌,
}
use cred_chain_golang.Domain.Clock.{Time}
use cred_chain_golang.Domain.Fault.{review_not_found, review_blockchain_sync_failed}
use cred_chain_golang.Domain.User.{User, wallet_from_user}
use cred_chain_golang.Domain.Credential.{Credential, empty_credential}
use cred_chain_golang.Effect.{
  Backend, M, ◌>>=◌, ◌>>◌, pure, lift, read_db, on_db, on_cache, transaction, attempt, check_all,
}
use cred_chain_golang.Credential.Ports.{CredentialService, NotificationType}
use cred_chain_golang.Credential.Notify.{
  record_lifecycle_notifications, enqueue_lifecycle_notifications,
}
use cred_chain_golang.Credential.Guards.{
  require_found, approve_guard, review_status_guard, revoke_guard,
}
use cred_chain_golang.Credential.Mint.{mint_credentials, sync_blockchain_revoke}

-- CredentialRejection and CredentialRevocation
pub record CredentialRejection : Type 0 where
  pub id : String
  pub reason : String

pub record CredentialRevocation : Type 0 where
  pub id : String
  pub reason : Option String

-- The partial rows that the three operations hand to `Update`.
unfoldable pub approval_of : User → Time → Credential → Credential
approval_of auth now t = record empty_credential {
  id = t.id;
  activated_at = some now;
  issuer_user_id = some auth.id;
  extract_enqueued_at = some now;
}

abbrev text_or_empty : Option String → String
text_or_empty none = ""
text_or_empty (some text) = text

unfoldable pub rejection_of : User → Time → (String → Option String) → Credential → Credential
rejection_of auth now reason_by_id t = record empty_credential {
  id = t.id;
  rejecter_user_id = some auth.id;
  rejected_at = some now;
  rejection_reason = some (text_or_empty (reason_by_id t.id));
}

abbrev join_option : Option (Option String) → Option String
join_option none = none
join_option (some o) = o

unfoldable pub revocation_of :
    User → Time → (String → Option (Option String)) → Credential → Credential
revocation_of auth now reason_map t = record empty_credential {
  id = t.id;
  revoked_at = some now;
  revoker_user_id = some auth.id;
  revocation_reason = join_option (reason_map t.id);
}

unfoldable pub token_ids_of : List Credential → List String
token_ids_of [] = []
token_ids_of (t ∷ ts) =
    let rest = token_ids_of ts in elim t.token_id [ none ↦ rest | some token ↦ token ∷ rest ]

module _ {T : Backend} (s : CredentialService T) (auth : User) (now : Time) where
  unfoldable pub approve_body : List String → T.Db → M T (List Credential)
  approve_body ids committed = do
    targets ←
        read_db (s.repo.find_by_ids ids ("type" ∷ "issuer_organization" ∷ "competencies" ∷ []))
    lift (require_found review_not_found ids targets)
    lift (check_all (approve_guard now) targets)
    holders ← lift (s.find_users (map (λ c. c.holder_user_id) targets) committed)
    updated ← on_db (s.repo.update (map (approval_of auth now) targets))
    record_lifecycle_notifications s targets NotificationType.approved
    mint_credentials s (wallet_from_user auth) updated (slice_to_map (λ h. h.id) (λ h. h) holders)
        review_blockchain_sync_failed

  unfoldable pub approve : List String → M T (List Credential)
  approve ids = do
    approved ← transaction s.begin s.commit (approve_body ids)
    enqueue_lifecycle_notifications s now approved NotificationType.approved
    pure approved

  unfoldable pub reject_body : List CredentialRejection → T.Db → M T (List Credential)
  reject_body rejections committed = do
    targets ← read_db (s.repo.find_by_ids (map (λ r. r.id) rejections) [])
    lift (require_found review_not_found (map (λ r. r.id) rejections) targets)
    lift (check_all (review_status_guard now) targets)
    rejected ← on_db (
        s.repo.update (
          map (rejection_of auth now (slice_to_map (λ r. r.id) (λ r. r.reason) rejections))
            targets))
    record_lifecycle_notifications s targets NotificationType.rejected
    pure rejected

  unfoldable pub reject : List CredentialRejection → M T (List Credential)
  reject rejections = do
    rejected ← transaction s.begin s.commit (reject_body rejections)
    enqueue_lifecycle_notifications s now rejected NotificationType.rejected
    pure rejected

  -- The result carries the file hashes that the code keeps for the cache.
  unfoldable pub revoke_body :
      List CredentialRevocation → T.Db → M T (List Credential × List String)
  revoke_body revocations committed = do
    targets ← read_db (s.repo.find_by_ids (map (λ r. r.id) revocations) [])
    lift (revoke_guard now (map (λ r. r.id) revocations) targets)
    revoked ← on_db (
        s.repo.update (
          map (revocation_of auth now (slice_to_map (λ r. r.id) (λ r. r.reason) revocations))
            targets))
    record_lifecycle_notifications s targets NotificationType.revoked
    sync_blockchain_revoke s (wallet_from_user auth) (token_ids_of targets)
    pure (revoked, map (λ c. c.file_hash) targets)

  abbrev pub forget_verdicts : List String → M T (Unit {0})
  forget_verdicts hashes =
      if is_empty hashes then pure tt else attempt (on_cache (s.verify.delete_cached hashes))

  unfoldable pub revoke : List CredentialRevocation → M T (List Credential)
  revoke revocations = do
    done ← transaction s.begin s.commit (revoke_body revocations)
    forget_verdicts done.1
    enqueue_lifecycle_notifications s now done.0 NotificationType.revoked
    pure done.0

-- ===== src/Examples/Reviews.antt =====
-- The review and the mint, run on one waiting row and one minted row.
use cred_chain_golang.Base.{
  ◌≡◌, refl, String, List, [], ◌∷◌, All, map, none, some, contains, difference, slice_to_map, true,
}
use cred_chain_golang.Domain.Reference.{usable}
use cred_chain_golang.Domain.Fault.{raw, domain, ok, err, review_not_found, review_already_approved}
use cred_chain_golang.Domain.Credential.{Credential, CredentialStatus, status, is_past}
use cred_chain_golang.Effect.{World, transaction, check_all, each}
use cred_chain_golang.Credential.Ports.{CredentialService, NotificationType}
use cred_chain_golang.Credential.Notify.{
  record_lifecycle_notifications, enqueue_lifecycle_notifications, distinct,
}
use cred_chain_golang.Credential.Guards.{
  ids_of, require_found, approve_guard, review_status_guard, reference_guard, revoke_guard,
}
use cred_chain_golang.Credential.Guards.Meaning.{IsApprovable}
use cred_chain_golang.Credential.Mint.{
  mint_credentials, store_minted, enqueue_extract_job, with_tokens, issuance_of,
  sync_blockchain_revoke,
}
use cred_chain_golang.Credential.Review.{
  CredentialRejection, CredentialRevocation, approve, approve_body, approval_of, reject,
  reject_body, rejection_of, revoke, revoke_body, revocation_of, token_ids_of,
}
use cred_chain_golang.Credential.Review.Approve.{review_includes, approve-ok, approve_refused}
use cred_chain_golang.Credential.Review.Chain.{IsMint, approve-mints, approve_orphans_mint}
use cred_chain_golang.Credential.Review.Reject.{reject-ok}
use cred_chain_golang.Credential.Review.Revoke.{IsRevoke, revoke-ok}
use cred_chain_golang.Examples.{demo, credentials, officer, holder, waiting, minted, start}

abbrev ids : List String
ids = "C1" ∷ []

abbrev approved : Credential
approved = record waiting {
  token_id = some "7";
  activated_at = some 5;
  issuer_user_id = some "U1";
  extract_enqueued_at = some 5;
}

abbrev after_approval : World demo
after_approval = (approve credentials officer 5 ids start).1

approve_run : approve credentials officer 5 ids start ≡ (ok (approved ∷ []), after_approval)
unfolding approve approve_body transaction require_found difference contains approve_guard
    review_status_guard status is_past reference_guard usable check_all approval_of
    record_lifecycle_notifications enqueue_lifecycle_notifications distinct mint_credentials
    store_minted each enqueue_extract_job with_tokens issuance_of
approve_run = refl

approve-ok_example :
    (targets : List Credential) × (credentials.repo.find_by_ids ids review_includes start.db
      ≡ ok targets)
    × All (λ id. contains (ids_of targets) id ≡ true) ids
    × All (IsApprovable 5) targets
approve-ok_example =
    approve-ok credentials officer 5 ids start after_approval (approved ∷ []) approve_run

approve-mints_example : IsMint credentials officer 5 ids start after_approval (approved ∷ [])
approve-mints_example =
    approve-mints credentials officer 5 ids start after_approval (approved ∷ []) approve_run

-- The same service where COMMIT fails.
abbrev broken : CredentialService demo
broken = record credentials { commit = λ db. err (raw "commit") }

abbrev after_broken : World demo
after_broken = (approve broken officer 5 ids start).1

broken_run : approve broken officer 5 ids start ≡ (err (raw "commit"), after_broken)
unfolding approve approve_body transaction require_found difference contains approve_guard
    review_status_guard status is_past reference_guard usable check_all approval_of
    record_lifecycle_notifications enqueue_lifecycle_notifications distinct mint_credentials
    store_minted each enqueue_extract_job with_tokens issuance_of
broken_run = refl

abbrev updated_rows : List Credential
updated_rows = record approved { token_id = none } ∷ []

target_found : require_found review_not_found ids (waiting ∷ []) ≡ ok tt
unfolding require_found difference contains
target_found = refl

target_pending : check_all (approve_guard 5) (waiting ∷ []) ≡ ok tt
unfolding check_all approve_guard review_status_guard status is_past reference_guard usable
target_pending = refl

rows_updated :
    (broken.repo.update (map (approval_of officer 5) (waiting ∷ [])) start.db).0 ≡ ok updated_rows
unfolding approval_of
rows_updated = refl

notified :
    (record_lifecycle_notifications broken (waiting ∷ []) NotificationType.approved (record start {
      db = (broken.repo.update (map (approval_of officer 5) (waiting ∷ [])) start.db).1;
    })).0
    ≡ ok tt
unfolding record_lifecycle_notifications distinct contains approval_of
notified = refl

approve_orphans_mint_example : (after_broken.db ≡ start.db) × (after_broken.chain ≡ 8)
approve_orphans_mint_example =
    approve_orphans_mint broken officer 5 ids start after_broken (waiting ∷ []) updated_rows
      (holder ∷ []) (7 ∷ []) 8 (raw "commit") refl refl target_found target_pending refl
      rows_updated notified refl broken_run

-- The row is minted already.
abbrev issued : World demo
issued = record start { db = minted ∷ [] }

minted_found : require_found review_not_found ids (minted ∷ []) ≡ ok tt
unfolding require_found difference contains
minted_found = refl

minted_refused :
    check_all (approve_guard 5) (minted ∷ []) ≡ err (domain review_already_approved ("C1" ∷ []))
unfolding check_all approve_guard review_status_guard status is_past
minted_refused = refl

approve_refused_example :
    approve credentials officer 5 ids issued
    ≡ (err (domain review_already_approved ("C1" ∷ [])), issued)
approve_refused_example =
    approve_refused credentials officer 5 ids issued (minted ∷ [])
      (domain review_already_approved ("C1" ∷ [])) refl refl minted_found minted_refused

abbrev rejections : List CredentialRejection
rejections = record { id = "C1"; reason = "blurred" } ∷ []

abbrev rejected : Credential
rejected = record waiting {
  rejecter_user_id = some "U1";
  rejected_at = some 5;
  rejection_reason = some "blurred";
}

abbrev after_rejection : World demo
after_rejection = (reject credentials officer 5 rejections start).1

reject_run : reject credentials officer 5 rejections start ≡ (ok (rejected ∷ []), after_rejection)
unfolding reject reject_body rejection_of slice_to_map transaction require_found difference contains
    review_status_guard status is_past check_all record_lifecycle_notifications
    enqueue_lifecycle_notifications distinct
reject_run = refl

reject-ok_example :
    (targets : List Credential) × (credentials.repo.find_by_ids ids [] start.db ≡ ok targets)
    × All (λ id. contains (ids_of targets) id ≡ true) ids
    × All (λ t. status 5 t ≡ CredentialStatus.pending) targets
    × ((credentials.repo.update
          (map
            (rejection_of officer 5 (slice_to_map (λ r. r.id) (λ r. r.reason) rejections))
            targets)
          start.db).0
        ≡ ok (rejected ∷ []))
    × (after_rejection.chain ≡ start.chain)
reject-ok_example =
    reject-ok credentials officer 5 rejections start after_rejection (rejected ∷ []) reject_run

abbrev revocations : List CredentialRevocation
revocations = record { id = "C1"; reason = some "fraud" } ∷ []

abbrev revoked : Credential
revoked = record minted {
  revoker_user_id = some "U1";
  revoked_at = some 9;
  revocation_reason = some "fraud";
}

abbrev after_revocation : World demo
after_revocation = (revoke credentials officer 9 revocations issued).1

revoke_run : revoke credentials officer 9 revocations issued ≡ (ok (revoked ∷ []), after_revocation)
unfolding revoke revoke_body revocation_of token_ids_of slice_to_map transaction revoke_guard
    difference contains status is_past record_lifecycle_notifications
    enqueue_lifecycle_notifications distinct sync_blockchain_revoke
revoke_run = refl

revoke-ok_example :
    IsRevoke credentials officer 9 revocations issued after_revocation (revoked ∷ [])
revoke-ok_example =
    revoke-ok credentials officer 9 revocations issued after_revocation (revoked ∷ []) revoke_run

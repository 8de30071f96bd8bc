-- ===== src/Domain/Fault.antt =====
-- domain/codes.go and domain/errors.go: the codes that the modelled operations return, and errors.
use cred_chain_golang.Base.{ℕ, String, List}

pub data Code : Type 0 where
  system_internal system_validation : Code
  auth_unauthorized auth_invalid_token auth_forbidden : Code
  google_login_invalid_token google_login_user_not_found google_login_account_deleted : Code
  google_login_jwt_failed : Code
  refresh_invalid_token refresh_token_expired refresh_token_revoked refresh_user_not_found : Code
  refresh_jwt_failed : Code
  user_fetch_not_found : Code
  user_store_wallet_generation_failed user_store_blockchain_sync_failed : Code
  user_store_super_admin_forbidden user_store_admin_create_admin_forbidden : Code
  user_email_conflict user_email_mismatched_id_token user_email_invalid_id_token : Code
  user_role_admin_update_peer_forbidden user_role_signer_admin_required_forbidden : Code
  user_role_same_role_update_forbidden user_role_super_admin_batch_forbidden : Code
  user_role_blockchain_sync_failed user_role_self_target_forbidden user_role_trashed_forbidden :
      Code
  user_delete_admin_forbidden user_delete_blockchain_sync_failed : Code
  user_delete_self_target_forbidden : Code
  user_update_not_found user_update_peer_admin_forbidden user_update_super_admin_forbidden : Code
  user_update_self_forbidden user_update_blockchain_sync_failed user_update_trashed_forbidden : Code
  user_update_self_email_forbidden : Code
  transfer_super_admin_self_target_forbidden transfer_super_admin_target_not_found : Code
  transfer_super_admin_trashed_forbidden transfer_super_admin_blockchain_sync_failed : Code
  user_restore_self_target_forbidden user_restore_super_admin_target_forbidden : Code
  user_restore_not_trashed_forbidden user_restore_blockchain_sync_failed : Code
  credential_fetch_not_found : Code
  issue_duplicate_file_hash issue_blockchain_sync_failed issue_storage_failed : Code
  issue_type_not_found issue_type_inactive issue_organization_not_found : Code
  issue_organization_inactive issue_number_duplicate issue_competency_inactive : Code
  revoke_not_found revoke_already_revoked revoke_blockchain_sync_failed revoke_not_approved : Code
  verify_ai_service_failed verify_document_unreadable verify_chain_unavailable : Code
  re_extract_not_found re_extract_not_eligible : Code
  file_download_not_found file_download_forbidden file_download_decryption_failed : Code
  file_download_no_file : Code
  submit_storage_failed : Code
  review_not_found review_already_approved review_already_rejected review_already_revoked : Code
  review_blockchain_sync_failed review_already_expired : Code
  link_credential_not_found link_competency_not_found : Code
  update_not_found update_not_pending : Code
  approve_inactive_metadata : Code
  credential_type_destroy_in_use issuer_organization_destroy_in_use : Code
  competency_destroy_in_use : Code
  credential_type_not_found credential_type_name_duplicate credential_type_already_approved : Code
  credential_type_already_rejected credential_type_already_pending : Code
  issuer_organization_not_found issuer_organization_name_duplicate : Code
  issuer_organization_already_approved issuer_organization_already_rejected : Code
  issuer_organization_already_pending : Code
  competency_not_found competency_name_duplicate competency_already_approved : Code
  competency_already_rejected competency_already_pending : Code
  user_unit_not_found user_unit_parent_invalid user_unit_parent_inactive : Code
  user_unit_destroy_in_use : Code

-- The keys "credentials.N.field", "users.N.field" and "field" of `validation.Errors`, and the
-- message codes, the texts that stand first in `validation.NewError`.
pub data Field : Type 0 where
  item : ℕ → String → Field
  whole : String → Field

abbrev pub ValidationErrors : Type 0
ValidationErrors = List (Field × String)

-- `domain` is a `*domain.Error`: its code and the ids in its metadata. `record_not_found` is
-- `gorm.ErrRecordNotFound`, `file_unprocessable` is `pyai.ErrVerifyFileUnprocessable`, `raw` any
-- other error with its text, and `panic` a run-time panic of the handler.
pub data Error : Type 0 where
  domain : Code → List String → Error
  validation : ValidationErrors → Error
  record_not_found file_unprocessable panic : Error
  raw : String → Error

pub data Result {ℓ} (A : Type ℓ) : Type ℓ where
  ok : A → Result A
  err : Error → Result A

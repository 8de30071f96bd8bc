-- ===== src/Credential/Intake.antt =====
-- Issue and Submit of feature/credential/credential_service.go: issuance by an officer, which mints at
-- once, and submission by a holder, which waits for review. `auth` is the user of the request.
pub mod Validate
pub mod Prepare
pub mod Sound
pub mod Facts
pub mod Commit
pub mod Outcome
pub mod Rows
use cred_chain_golang.Base.{
  ℕ, Bool, true, false, ◌&&◌, ◌||◌, not, String, List, [], ◌∷◌, map, Option, none, some,
  slice_to_map, uniq, is_empty, is_none, if◌then◌else◌, ◌==◌,
}
use cred_chain_golang.Domain.Clock.{Time}
use cred_chain_golang.Domain.Fault.{
  Error, domain, validation, panic, Result, ok, err, issue_storage_failed,
  issue_blockchain_sync_failed, ValidationErrors,
}
use cred_chain_golang.Domain.User.{User, Wallet, wallet_from_user}
use cred_chain_golang.Domain.Credential.{Credential}
use cred_chain_golang.Effect.{
  Backend, World, M, ◌>>=◌, ◌>>◌, pure, raise, lift, read_db, read_chain, on_db, on_files,
  transaction, attempt, on_error, each, check_all,
}
use cred_chain_golang.Credential.Ports.{CredentialService, CompetencyCredential, NotificationType}
use cred_chain_golang.Credential.Notify.{
  record_lifecycle_notifications, enqueue_lifecycle_notifications,
}
use cred_chain_golang.Credential.Mint.{mint_credentials}
use cred_chain_golang.Credential.Intake.Validate.{
  CredentialIssuance, CredentialSubmission, issue_validate, submit_validate,
}
use cred_chain_golang.Credential.Intake.Prepare.{issue_prepare, submit_prepare}

abbrev pub link_rows : String → List String → List CompetencyCredential
link_rows credential_id = map (λ id. record { competency_id = id; credential_id = credential_id })

-- `c.FileURI == nil` for a stored row.
unfoldable pub stored_file_guard : Credential → Result (Unit {0})
stored_file_guard c =
    if is_none c.file_uri then err (domain issue_storage_failed (c.id ∷ [])) else ok tt

-- competencyIDsByCredID: the ids of the item at the same position, for the rows that ask for any.
unfoldable pub ids_by_position :
    List Credential → List CredentialIssuance → List (String × List String)
ids_by_position [] items = []
ids_by_position (c ∷ cs) [] = []
ids_by_position (c ∷ cs) (it ∷ its) =
    let rest = ids_by_position cs its in
    if is_empty it.competency_ids then rest else (c.id, it.competency_ids) ∷ rest

abbrev list_or_empty : Option (List String) → List String
list_or_empty none = []
list_or_empty (some ids) = ids

module _ {T : Backend} (s : CredentialService T) (auth : User) (now : Time) where
  abbrev pub link : String → List String → M T (Unit {0})
  link id [] = pure tt
  link id (c ∷ cs) = on_db (s.store_links (link_rows id (c ∷ cs)))

  -- cleanupOrphanCredentialFiles: each failure is logged and dropped.
  abbrev pub delete_file : Option String → M T (Unit {0})
  delete_file none = pure tt
  delete_file (some uri) =
      let path = s.storage.join_path uri in
      if path == "" then pure tt else attempt (on_files (s.storage.delete path))

  unfoldable pub cleanup_orphan_files : List Credential → M T (Unit {0})
  cleanup_orphan_files creds = each (λ c. delete_file c.file_uri) creds

  unfoldable pub issue_body :
      List Credential
      → (String → List String)
      → (String → Option User)
      → T.Db
      → M T (List Credential)
  issue_body creds competency_ids holder_by_id committed = do
    stored ← on_db (s.repo.store creds)
    lift (check_all stored_file_guard stored)
    record_lifecycle_notifications s stored NotificationType.registered
    minted ←
        mint_credentials s (wallet_from_user auth) stored holder_by_id issue_blockchain_sync_failed
    each (λ c. link c.id (competency_ids c.id)) minted
    pure minted

  -- issueCommit; IssuePostFetch of the policy accepts everything.
  unfoldable pub issue_commit : List Credential → (String → List String) → M T (List Credential)
  issue_commit creds competency_ids = do
    holders ← read_db (s.find_users (map (λ c. c.holder_user_id) creds))
    transaction s.begin s.commit
        (issue_body creds competency_ids (slice_to_map (λ h. h.id) (λ h. h) holders))

  -- GetCredentialHashStatuses for the hashes of the batch.
  unfoldable pub read_statuses : List String → M T (List ℕ)
  read_statuses hashes w = (
    elim (s.registry.hash_statuses hashes w.chain) [
      | ok statuses ↦ ok statuses
      | err e ↦ err (domain issue_blockchain_sync_failed [])
    ],
    w,
  )

  abbrev pub require_empty : ValidationErrors → M T (Unit {0})
  require_empty [] = pure tt
  require_empty (e ∷ es) = raise (validation (e ∷ es))

  -- The first half of Issue: the lookups and the validation.
  unfoldable pub issue_checks : List CredentialIssuance → M T (Unit {0})
  unfolding read_statuses
  issue_checks items = do
    holders ← read_db (s.find_users (map (λ it. it.holder_user_id) items))
    statuses ← read_statuses (map (λ it. s.storage.keccak_hex it.file_bytes) items)
    verrs ← read_db (λ db. ok (issue_validate s items (map (λ h. h.id) holders) statuses db))
    require_empty verrs

  -- A failed preparation returns nil in place of its rows, and that is what its clean-up is given.
  unfoldable pub issue : List CredentialIssuance → M T (List Credential)
  issue items = do
    issue_checks items
    creds ← on_error (issue_prepare s auth items) (λ _. cleanup_orphan_files [])
    committed ←
        on_error
          (issue_commit creds (λ id. list_or_empty (
            slice_to_map (λ (p : String × List String). p.0) (λ p. p.1)
              (ids_by_position creds items) id)))
          (λ _. cleanup_orphan_files creds)
    enqueue_lifecycle_notifications s now committed NotificationType.registered
    pure committed

  unfoldable pub submit_links : List Credential → List CredentialSubmission → M T (Unit {0})
  submit_links [] items w = (ok tt, w)
  submit_links (c ∷ cs) [] w = (err panic, w)
  submit_links (c ∷ cs) (it ∷ its) w =
      let (r, w') = link c.id (uniq it.competency_ids) w in
      elim r [ ok _ ↦ submit_links cs its w' | err e ↦ (err e, w') ]

  unfoldable pub submit_body :
      List Credential → List CredentialSubmission → T.Db → M T (List Credential)
  submit_body creds items committed = do
    stored ← on_db (s.repo.store creds)
    submit_links stored items
    pure stored

  unfoldable pub submit : List CredentialSubmission → M T (List Credential)
  submit items = do
    verrs ← read_db (submit_validate s items)
    require_empty verrs
    creds ← submit_prepare s auth items
    on_error (transaction s.begin s.commit (submit_body creds items))
        (λ _. cleanup_orphan_files creds)

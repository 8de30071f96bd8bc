-- ===== src/Credential/Maintain.antt =====
-- Update, ReExtract, DownloadFile and LinkCompetencies of feature/credential/credential_service.go, with
-- DownloadFilePreFetch of feature/credential/credential_policy.go. `now` is one reading of the clock.
pub mod Editing
pub mod Access
pub mod Extraction
use cred_chain_golang.Base.{
  Bool, true, false, not, ◌&&◌, ◌||◌, String, List, [], ◌∷◌, map, Option, none, some, slice_to_map,
  is_empty, leb, if◌then◌else◌, ◌==◌,
}
use cred_chain_golang.Domain.Clock.{Time}
use cred_chain_golang.Domain.Role.{Role, rank}
use cred_chain_golang.Domain.Fault.{
  Code, Error, domain, record_not_found, panic, Result, ok, err, update_not_found,
  update_not_pending, issue_type_not_found, issue_type_inactive, issue_organization_not_found,
  issue_organization_inactive, issue_number_duplicate, file_download_not_found,
  file_download_forbidden, file_download_no_file, file_download_decryption_failed,
  link_credential_not_found, link_competency_not_found, issue_competency_inactive,
}
use cred_chain_golang.Domain.Reference.{Reference, usable}
use cred_chain_golang.Domain.User.{User}
use cred_chain_golang.Domain.Credential.{Credential, CredentialStatus, empty_credential, status}
use cred_chain_golang.Effect.{
  Backend, M, ◌>>=◌, ◌>>◌, pure, raise, lift, read_db, read_files, on_db, on_queue, transaction,
  attempt, on_error, each, check_all,
}
use cred_chain_golang.Credential.Ports.{CredentialService, CompetencyCredential}
use cred_chain_golang.Credential.Guards.{ids_of, require_found, re_extract_validate}
use cred_chain_golang.Credential.Notify.{number_or_empty}
use cred_chain_golang.Credential.Numbers.{orgs_of, holds_pair, taken_strict}

abbrev or_zero : Option Credential → Credential
or_zero none = empty_credential
or_zero (some c) = c

-- `targetByID[in.ID]`
unfoldable pub target_row : List Credential → String → Credential
target_row targets id = or_zero (slice_to_map (λ c. c.id) (λ c. c) targets id)

-- The check of a type or an organization that an update sets.
unfoldable pub metadata_guard : Code → Code → String → Result (Option Reference) → Result (Unit {0})
metadata_guard missing inactive id (err e) = err (domain missing (id ∷ []))
metadata_guard missing inactive id (ok none) = err (domain missing (id ∷ []))
metadata_guard missing inactive id (ok (some r)) =
    if usable r then ok tt else err (domain inactive (id ∷ []))

unfoldable pub pending_guard : Time → String → Credential → Result (Unit {0})
pending_guard now id target = elim (status now target) [
  | CredentialStatus.pending ↦ ok tt
  | _ ↦ err (domain update_not_pending (id ∷ []))
]

-- The organization that an updated row will have.
unfoldable pub org_after : Credential → Credential → String
org_after target c =
    if not (c.issuer_organization_id == "")
    then c.issuer_organization_id
    else target.issuer_organization_id

-- The number that an update changes to.
unfoldable pub new_number : Credential → Credential → Option String
new_number target c = elim c.number [
  | none ↦ none
  | some n ↦ if n == number_or_empty target.number then none else some n
]

unfoldable pub wanted_by_updates : List Credential → List Credential → List (String × String)
wanted_by_updates targets [] = []
wanted_by_updates targets (c ∷ cs) =
    let rest = wanted_by_updates targets cs in
    let target = target_row targets c.id in
    elim (new_number target c) [ none ↦ rest | some n ↦ (org_after target c, n) ∷ rest ]

unfoldable pub number_guard :
    List (String × String) → List Credential → Credential → Result (Unit {0})
number_guard taken targets c =
    let target = target_row targets c.id in
    elim (new_number target c) [
      | none ↦ ok tt
      | some n ↦
          if holds_pair taken (org_after target c) n
          then err (domain issue_number_duplicate (c.id ∷ []))
          else ok tt
    ]

abbrev holder_includes : List String
holder_includes = "holder" ∷ []

-- The check of one competency that a credential is linked to.
unfoldable pub competency_guard : List Reference → String → Result (Unit {0})
competency_guard found id = elim (slice_to_map (λ c. c.id) (λ c. c.active) found id) [
  | none ↦ err (domain link_competency_not_found (id ∷ []))
  | some false ↦ err (domain issue_competency_inactive (id ∷ []))
  | some true ↦ ok tt
]

-- DownloadFilePreFetch
unfoldable pub download_guard : User → Credential → Result (Unit {0})
download_guard user target =
    if target.holder_user_id == user.id
    then ok tt
    else if leb (rank Role.issuer) (rank user.role)
    then ok tt
    else err (domain file_download_forbidden [])

abbrev error_or_default : Option String → String
error_or_default none = "reenqueue failed"
error_or_default (some text) = text

unfoldable pub failed_row : Time → Credential → Credential
failed_row now t = record empty_credential {
  id = t.id;
  extract_failed_at = some now;
  extract_error = some (error_or_default t.extract_error);
}

-- The decrypted file, its name and its type.
pub record Download : Type 0 where
  pub bytes : String
  pub name : String
  pub mime : String

module _ {T : Backend} (s : CredentialService T) where
  abbrev pub type_guard : T.Db → Credential → Credential → Result (Unit {0})
  type_guard db target c =
      if not (c.type_id == "") && not (c.type_id == target.type_id)
      then metadata_guard issue_type_not_found issue_type_inactive c.id (s.find_type c.type_id db)
      else ok tt

  abbrev pub organization_guard : T.Db → Credential → Credential → Result (Unit {0})
  organization_guard db target c =
      if not (c.issuer_organization_id == "")
        && not (c.issuer_organization_id == target.issuer_organization_id)
      then metadata_guard issue_organization_not_found issue_organization_inactive c.id
          (s.find_organization c.issuer_organization_id db)
      else ok tt

  -- The loop body of Update.
  unfoldable pub edit_guard : Time → T.Db → List Credential → Credential → Result (Unit {0})
  edit_guard now db targets c = elim (pending_guard now c.id (target_row targets c.id)) [
    | err e ↦ err e
    | ok _ ↦ elim (type_guard db (target_row targets c.id) c) [
      | err e ↦ err e
      | ok _ ↦ organization_guard db (target_row targets c.id) c
    ]
  ]

  abbrev pub taken_for : List Credential → List Credential → T.Db → Result (List (String × String))
  taken_for targets cs db =
      let wanted = wanted_by_updates targets cs in taken_strict s.repo (orgs_of wanted) wanted db

  -- No unit of work: `Update` of the repository is one statement.
  unfoldable pub update_found : Time → List Credential → M T (List Credential)
  update_found now cs = do
    targets ← read_db (s.repo.find_by_ids (ids_of cs) [])
    lift (require_found update_not_found (ids_of cs) targets)
    read_db (λ db. check_all (edit_guard now db targets) cs)
    taken ← read_db (taken_for targets cs)
    lift (check_all (number_guard taken targets) cs)
    on_db (s.repo.update cs)

  unfoldable pub update : Time → List Credential → M T (List Credential)
  update now cs = if is_empty cs then pure [] else update_found now cs

  unfoldable pub re_extract_body :
      Time → List String → T.Db → M T (List Credential × List Credential)
  re_extract_body now ids committed = do
    targets ← read_db (s.repo.find_by_ids ids [])
    lift (re_extract_validate ids targets)
    on_db (s.repo.clear_extract_outcome now (ids_of targets))
    updated ← read_db (s.repo.find_by_ids (ids_of targets) [])
    pure (updated, targets)

  -- reExtractCompensate; its failure is logged and dropped. `now` is its own reading of the clock.
  unfoldable pub compensate : Time → Credential → M T (Unit {0})
  compensate now t = attempt (on_db (s.repo.update (failed_row now t ∷ [])))

  unfoldable pub enqueue_again : Time → Credential → M T (Unit {0})
  enqueue_again now t = elim t.file_uri [
    | none ↦ raise panic
    | some uri ↦
        on_error (on_queue (s.enqueuer.enqueue_extract t.id (s.storage.join_path uri)))
          (λ _. compensate now t)
  ]

  unfoldable pub re_extract : Time → Time → List String → M T (List Credential)
  re_extract now later ids = do
    done ← transaction s.begin s.commit (re_extract_body now ids)
    each (enqueue_again later) done.1
    pure done.0

  abbrev found_or : Result Credential → String → Result Credential
  found_or (ok c) id = ok c
  found_or (err record_not_found) id = err (domain file_download_not_found (id ∷ []))
  found_or (err e) id = err e

  abbrev file_of : Credential → String → Result String
  file_of c id = elim c.file_uri [
    | none ↦ err (domain file_download_no_file (id ∷ []))
    | some uri ↦ ok uri
  ]

  abbrev decrypted : Result String → Result String
  decrypted (ok text) = ok text
  decrypted (err e) = err (domain file_download_decryption_failed [])

  unfoldable pub download_file : User → String → M T Download
  download_file auth id = do
    target ← read_db (λ db. found_or (s.repo.find id holder_includes db) id)
    lift (download_guard auth target)
    uri ← lift (file_of target id)
    text ← read_files (s.storage.read_bytes (s.storage.join_path uri))
    bytes ← lift (decrypted (s.storage.decrypt text))
    let mime = s.storage.mime_by_extension (s.storage.lower_ext uri)
    pure (record {
      bytes = bytes;
      name = uri;
      mime = if mime == "" then "application/octet-stream" else mime;
    })

  abbrev credential_there : Result Credential → String → Result (Unit {0})
  credential_there (ok c) id = ok tt
  credential_there (err e) id = err (domain link_credential_not_found (id ∷ []))

  -- The look-up and the check of the competencies, where there are any.
  unfoldable pub competencies_guard : T.Db → List String → Result (Unit {0})
  competencies_guard committed [] = ok tt
  competencies_guard committed (id ∷ ids) = elim (s.find_competencies (id ∷ ids) committed) [
    | err e ↦ err e
    | ok found ↦ check_all (competency_guard found) (id ∷ ids)
  ]

  abbrev pub competency_links : String → List String → List CompetencyCredential
  competency_links credential_id =
      map (λ id. record { competency_id = id; credential_id = credential_id })

  unfoldable pub link_body : String → List String → T.Db → M T (Unit {0})
  link_body id competency_ids committed = do
    read_db (λ db. credential_there (s.repo.find id [] db) id)
    lift (competencies_guard committed competency_ids)
    on_db (s.destroy_links id)
    if is_empty competency_ids
        then pure tt
        else on_db (s.store_links (competency_links id competency_ids))

  unfoldable pub link_competencies : String → List String → M T (Unit {0})
  link_competencies id competency_ids = transaction s.begin s.commit (link_body id competency_ids)

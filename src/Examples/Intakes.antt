-- ===== src/Examples/Intakes.antt =====
-- Issue and Submit, run on small batches.
use cred_chain_golang.Base.{
  ◌≢◌, arith, eq_iff, ◌≡◌, refl, List, [], ◌∷◌, All, none, some, contains, slice_to_map, uniq,
  uniq_from, String,
}
use cred_chain_golang.Domain.Reference.{usable}
use cred_chain_golang.Domain.Fault.{raw, domain, ok, err, issue_storage_failed}
use cred_chain_golang.Domain.Credential.{Credential, empty_credential}
use cred_chain_golang.Effect.{World, transaction, check_all, each}
use cred_chain_golang.Credential.Notify.{
  record_lifecycle_notifications, enqueue_lifecycle_notifications, distinct,
}
use cred_chain_golang.Credential.Numbers.{taken_numbers, taken_from, pairs_of_rows}
use cred_chain_golang.Credential.Mint.{
  mint_credentials, store_minted, enqueue_extract_job, with_tokens, issuance_of,
}
use cred_chain_golang.Credential.Intake.{
  cleanup_orphan_files, issue, issue_checks, issue_commit, issue_body, stored_file_guard,
  ids_by_position,
}
use cred_chain_golang.Credential.Intake.Validate.{
  CredentialIssuance, CredentialSubmission, issue_validate, issue_errors, issue_facts,
  issue_item_errors, active_hashes, wanted_by_issuances, existing_competencies, all_ids,
  reference_error, number_error, competency_error,
}
use cred_chain_golang.Credential.Intake.Prepare.{
  issue_prepare, issue_prepare_one, submit_prepare, submit_prepare_one, store_file, draw, readings,
  issuance_row, submission_row, collect, require_time,
}
use cred_chain_golang.Credential.Intake.Sound.{IsIssuable, AreFresh, issue_errors-nil}
use cred_chain_golang.Credential.Intake.Outcome.{IsIssue, issue-ok, issue-err_db, issue_leaks_files}
use cred_chain_golang.Examples.{demo, credentials, officer, holder, start}

abbrev item : CredentialIssuance
item = record {
  holder_user_id = "U2";
  type_id = "T1";
  issuer_organization_id = "O1";
  number = none;
  issued_at = none;
  expires_at = none;
  name = "Diploma";
  competency_ids = [];
  filename = "a.pdf";
  file_bytes = "pdf";
}

abbrev items : List CredentialIssuance
items = item ∷ []

abbrev empty_start : World demo
empty_start = record start { db = [] }

abbrev row : Credential
row = record empty_credential {
  id = "C1";
  holder_user_id = "U2";
  submitter_user_id = "U1";
  issuer_user_id = some "U1";
  issuer_organization_id = "O1";
  type_id = "T1";
  name = "Diploma";
  file_hash = "H1";
  file_uri = some "F1.pdf";
  extract_enqueued_at = some 6;
  issued_at = 5;
  activated_at = some 7;
}

abbrev after_issue : World demo
after_issue = (issue credentials officer 5 items empty_start).1

issue_run :
    issue credentials officer 5 items empty_start
    ≡ (ok (record row { token_id = some "7" } ∷ []), after_issue)
unfolding issue issue_checks issue_validate issue_errors issue_facts issue_item_errors active_hashes
    wanted_by_issuances existing_competencies all_ids taken_numbers taken_from pairs_of_rows uniq
    uniq_from reference_error number_error competency_error usable contains cleanup_orphan_files
    issue_prepare issue_prepare_one store_file draw readings issuance_row collect issue_commit
    issue_body transaction stored_file_guard check_all record_lifecycle_notifications
    enqueue_lifecycle_notifications distinct mint_credentials store_minted each enqueue_extract_job
    with_tokens issuance_of slice_to_map ids_by_position
issue_run = refl

issue-ok_example :
    IsIssue credentials officer 5 items empty_start after_issue
      (record row { token_id = some "7" } ∷ [])
issue-ok_example =
    issue-ok credentials officer 5 items empty_start after_issue
      (record row { token_id = some "7" } ∷ []) issue_run

-- Two items, the second of which the cipher refuses.
abbrev half_bad : List CredentialIssuance
half_bad = item ∷ record item { file_bytes = "bad" } ∷ []

abbrev after_leak : World demo
after_leak = record empty_start { files = "F1.pdf" ∷ []; drawn = 2 }

half_bad_checks : issue_checks credentials officer 5 half_bad empty_start ≡ (ok tt, empty_start)
unfolding issue_checks issue_validate issue_errors issue_facts issue_item_errors active_hashes
    wanted_by_issuances existing_competencies all_ids taken_numbers taken_from pairs_of_rows uniq
    uniq_from reference_error number_error competency_error usable contains
half_bad_checks = refl

abbrev ext : String
ext = ".pdf"

dotted : ext ≢ ""
dotted e = ground (arith, eq_iff ".pdf" "")

issue_leaks_files_example :
    issue credentials officer 5 half_bad empty_start
    ≡ (err (domain issue_storage_failed []), after_leak)
issue_leaks_files_example =
    issue_leaks_files credentials officer 5 item (record item { file_bytes = "bad" }) [] empty_start
      (raw "cipher") "pdf" ".pdf" ("F1.pdf" ∷ []) half_bad_checks refl refl dotted refl refl

issue_leaks_files_run :
    issue credentials officer 5 half_bad empty_start
    ≡ (err (domain issue_storage_failed []), after_leak)
unfolding issue issue_checks issue_validate issue_errors issue_facts issue_item_errors active_hashes
    wanted_by_issuances existing_competencies all_ids taken_numbers taken_from pairs_of_rows uniq
    uniq_from reference_error number_error competency_error usable contains cleanup_orphan_files
    issue_prepare issue_prepare_one store_file draw readings collect each
issue_leaks_files_run = refl

issue-err_db_example : after_leak.db ≡ empty_start.db
issue-err_db_example =
    issue-err_db credentials officer 5 half_bad empty_start after_leak
      (domain issue_storage_failed []) issue_leaks_files_run

no_errors :
    issue_errors credentials (issue_facts credentials items ("U2" ∷ []) (0 ∷ []) []) [] 0 [] items
    ≡ []
unfolding issue_errors issue_facts issue_item_errors active_hashes wanted_by_issuances
    existing_competencies all_ids taken_numbers taken_from pairs_of_rows uniq uniq_from
    reference_error number_error competency_error usable contains
no_errors = refl

issue_errors-nil_example :
    All (IsIssuable credentials (issue_facts credentials items ("U2" ∷ []) (0 ∷ []) []) []) items
    × AreFresh credentials (issue_facts credentials items ("U2" ∷ []) (0 ∷ []) []) [] [] items
issue_errors-nil_example =
    issue_errors-nil credentials (issue_facts credentials items ("U2" ∷ []) (0 ∷ []) []) [] 0 []
      items no_errors

abbrev submission : CredentialSubmission
submission = record {
  name = "Diploma";
  type_id = "T1";
  issuer_organization_id = "O1";
  number = some "N1";
  issued_at = some 4;
  expires_at = some 9;
  competency_ids = [];
  filename = "a.pdf";
  file_bytes = "pdf";
}

abbrev submitted : Credential
submitted = record empty_credential {
  id = "C1";
  holder_user_id = "U2";
  submitter_user_id = "U2";
  issuer_organization_id = "O1";
  type_id = "T1";
  number = some "N1";
  name = "Diploma";
  file_hash = "H1";
  file_uri = some "F1.pdf";
  issued_at = 4;
  expires_at = some 9;
}

abbrev after_prepare : World demo
after_prepare = record empty_start { files = "F1.pdf" ∷ []; drawn = 2 }

submission_run :
    submit_prepare credentials holder (submission ∷ []) empty_start
    ≡ (ok (submitted ∷ []), after_prepare)
unfolding submit_prepare submit_prepare_one store_file draw readings collect require_time
    submission_row
submission_run = refl

issuance_run : issue_prepare credentials officer items empty_start ≡ (ok (row ∷ []), after_prepare)
unfolding issue_prepare issue_prepare_one store_file draw readings collect issuance_row
issuance_run = refl

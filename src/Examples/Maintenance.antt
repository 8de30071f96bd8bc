-- ===== src/Examples/Maintenance.antt =====
-- Update, download, linking and re-extraction, run on one or two rows.
use cred_chain_golang.Base.{
  ◌≡◌, ◌⊎◌, ◌≤◌, refl, String, List, [], ◌∷◌, All, some, contains, difference, slice_to_map, true,
  uniq, uniq_from,
}
use cred_chain_golang.Domain.Role.{Role, rank}
use cred_chain_golang.Domain.Reference.{Reference, usable}
use cred_chain_golang.Domain.Fault.{raw, ok, err}
use cred_chain_golang.Domain.Credential.{
  Credential, empty_credential, status, is_past, extract_state,
}
use cred_chain_golang.Effect.{World, transaction, check_all, each}
use cred_chain_golang.Credential.Ports.{CredentialService}
use cred_chain_golang.Credential.Notify.{number_or_empty}
use cred_chain_golang.Credential.Numbers.{numbers_of_org, pairs_of_rows, holds_pair, taken_strict}
use cred_chain_golang.Credential.Guards.{ids_of, require_found, re_extract_validate}
use cred_chain_golang.Credential.Maintain.{
  Download, target_row, metadata_guard, pending_guard, org_after, new_number, wanted_by_updates,
  number_guard, competency_guard, download_guard, edit_guard, update_found, update, re_extract_body,
  enqueue_again, re_extract, download_file, competencies_guard, link_body, link_competencies,
}
use cred_chain_golang.Credential.Maintain.Editing.{IsEditable, update-ok}
use cred_chain_golang.Credential.Maintain.Access.{download-ok, link-ok}
use cred_chain_golang.Credential.Maintain.Extraction.{
  IsReExtraction, IsFailure, re_extract-ok, re_extract_strands,
}
use cred_chain_golang.Examples.{demo, credentials, officer, waiting, start}

abbrev edit : Credential
edit = record empty_credential { id = "C1"; type_id = "T2"; number = some "N9" }

abbrev after_edit : World demo
after_edit = (update credentials 5 (edit ∷ []) start).1

edit_run : update credentials 5 (edit ∷ []) start ≡ (ok (waiting ∷ []), after_edit)
unfolding update update_found require_found difference contains check_all edit_guard pending_guard
    target_row slice_to_map status is_past metadata_guard usable wanted_by_updates new_number
    number_or_empty org_after taken_strict numbers_of_org uniq uniq_from pairs_of_rows number_guard
    holds_pair
edit_run = refl

update-ok_example :
    (targets : List Credential) × (credentials.repo.find_by_ids (ids_of (edit ∷ [])) [] start.db
      ≡ ok targets)
    × All (IsEditable credentials 5 start.db targets) (edit ∷ [])
    × (credentials.repo.update (edit ∷ []) start.db ≡ (ok (waiting ∷ []), after_edit.db))
update-ok_example = update-ok credentials 5 edit [] (waiting ∷ []) start after_edit edit_run

abbrev file : Download
file = record { bytes = ""; name = "F1.pdf"; mime = "application/octet-stream" }

download_run : download_file credentials officer "C1" start ≡ (ok file, start)
unfolding download_file download_guard rank
download_run = refl

download-ok_example :
    (start ≡ start)
    × (c : Credential) × (credentials.repo.find "C1" ("holder" ∷ []) start.db ≡ ok c)
    × ((c.holder_user_id ≡ officer.id) ⊎ (rank Role.issuer ≤ rank officer.role))
    × (c.file_uri ≡ some file.name)
    × (text : String) × (credentials.storage.read_bytes
          (credentials.storage.join_path file.name)
          start.files
        ≡ ok text)
    × (credentials.storage.decrypt text ≡ ok file.bytes)
download-ok_example = download-ok credentials start start officer "C1" file download_run

link_run : link_competencies credentials "C1" ("R1" ∷ []) start ≡ (ok tt, start)
unfolding link_competencies transaction link_body competencies_guard check_all competency_guard
    slice_to_map
link_run = refl

link-ok_example :
    (found : List Reference) × (credentials.find_competencies ("R1" ∷ []) start.db ≡ ok found)
    × All (λ k. slice_to_map (λ r. r.id) (λ r. r.active) found k ≡ some true) ("R1" ∷ [])
    × (credentials.store_links
          (record { competency_id = "R1"; credential_id = "C1" } ∷ [])
          (credentials.destroy_links "C1" start.db).1
        ≡ (ok tt, start.db))
link-ok_example = link-ok credentials start start "C1" "R1" [] link_run

abbrev failed : Credential
failed = record waiting { extract_failed_at = some 3 }

abbrev other : Credential
other = record failed { id = "C2"; file_uri = some "F2.pdf" }

abbrev restarted_row : Credential
restarted_row = record waiting { extract_enqueued_at = some 5 }

abbrev failures : World demo
failures = record start { db = failed ∷ other ∷ [] }

abbrev after_retry : World demo
after_retry = (re_extract credentials 5 6 ("C1" ∷ []) failures).1

retry_run : re_extract credentials 5 6 ("C1" ∷ []) failures ≡ (ok (restarted_row ∷ []), after_retry)
unfolding re_extract re_extract_body transaction re_extract_validate difference contains
    extract_state each enqueue_again
retry_run = refl

re_extract-ok_example :
    IsReExtraction credentials 5 6 ("C1" ∷ []) failures after_retry (restarted_row ∷ [])
re_extract-ok_example =
    re_extract-ok credentials 5 6 ("C1" ∷ []) failures after_retry (restarted_row ∷ []) retry_run

-- The same service where the queue takes no job.
abbrev closed : CredentialService demo
closed = record credentials {
  enqueuer = record credentials.enqueuer { enqueue_extract = λ id uri n. (err (raw "queue"), n) };
}

abbrev both : List String
both = "C1" ∷ "C2" ∷ []

abbrev cleared : List Credential
cleared = restarted_row ∷ record restarted_row { id = "C2"; file_uri = some "F2.pdf" } ∷ []

abbrev after_clear : World demo
after_clear = record failures { db = cleared }

clear_run :
    transaction closed.begin closed.commit (re_extract_body closed 5 both) failures
    ≡ (ok (cleared, failed ∷ other ∷ []), after_clear)
unfolding re_extract_body transaction re_extract_validate difference contains extract_state
clear_run = refl

re_extract_strands_example :
    (p : Credential) × IsFailure closed 5 6 both failed p
    × (re_extract closed 5 6 both failures ≡ (
      err (raw "queue"),
      record after_clear { db = (closed.repo.update (p ∷ []) after_clear.db).1 },
    ))
re_extract_strands_example =
    re_extract_strands closed 5 6 both failures after_clear cleared failed (other ∷ []) "F1.pdf"
      "queue" clear_run refl refl

-- ===== src/Credential/Intake/Validate.antt =====
-- issueValidate and submitValidate of feature/credential/credential_service.go. A key of the error map
-- is written at most once, so the map is the list of its entries, in the order of the items.
use cred_chain_golang.Base.{
  ℕ, suc, Bool, true, false, ◌&&◌, ◌||◌, not, String, List, [], ◌∷◌, ◌++◌, map, Option, none, some,
  contains, uniq, slice_to_map, is_empty, nat_eq, if◌then◌else◌, ◌==◌, ltb,
}
use cred_chain_golang.Domain.Clock.{Time}
use cred_chain_golang.Domain.Fault.{item, ValidationErrors, Result, ok, err}
use cred_chain_golang.Domain.Reference.{Reference, usable}
use cred_chain_golang.Effect.{Backend}
use cred_chain_golang.Credential.Ports.{CredentialService}
use cred_chain_golang.Credential.Numbers.{taken_numbers, holds_pair}

-- CredentialIssuance; `meta` is left out, as in the row.
pub record CredentialIssuance : Type 0 where
  pub holder_user_id : String
  pub type_id : String
  pub issuer_organization_id : String
  pub number : Option String
  pub issued_at : Option Time
  pub expires_at : Option Time
  pub name : String
  pub competency_ids : List String
  pub filename : String
  pub file_bytes : String

-- CredentialSubmission
pub record CredentialSubmission : Type 0 where
  pub name : String
  pub type_id : String
  pub issuer_organization_id : String
  pub number : Option String
  pub issued_at : Option Time
  pub expires_at : Option Time
  pub competency_ids : List String
  pub filename : String
  pub file_bytes : String

abbrev on_chain_issued : ℕ
on_chain_issued = 1

-- `onChainActive`: the hashes whose status is Issued.
unfoldable pub active_hashes : List String → List ℕ → List String
active_hashes [] statuses = []
active_hashes (h ∷ hs) [] = []
active_hashes (h ∷ hs) (st ∷ sts) =
    let rest = active_hashes hs sts in if nat_eq st on_chain_issued then h ∷ rest else rest

-- `it.Number != nil && *it.Number != ""`, with the organization.
abbrev pub wanted_number : String → Option String → List (String × String)
wanted_number org none = []
wanted_number org (some n) = if n == "" then [] else (org, n) ∷ []

-- The error of a reference: not there, by a nil row or a failed query, or not usable.
unfoldable pub reference_error :
    ℕ → String → String → String → Result (Option Reference) → ValidationErrors
reference_error i field missing inactive (err e) = (item i field, missing) ∷ []
reference_error i field missing inactive (ok none) = (item i field, missing) ∷ []
reference_error i field missing inactive (ok (some r)) =
    if usable r then [] else (item i field, inactive) ∷ []

abbrev pub type_error : ℕ → Result (Option Reference) → ValidationErrors
type_error i =
    reference_error i "type_id" "validation_issue_type_not_found" "validation_issue_type_inactive"

abbrev pub organization_error : ℕ → Result (Option Reference) → ValidationErrors
organization_error i =
    reference_error i "issuer_organization_id" "validation_issue_org_not_found"
      "validation_issue_org_inactive"

unfoldable pub number_error : ℕ → List (String × String) → String → Option String → ValidationErrors
number_error i taken org none = []
number_error i taken org (some n) =
    if not (n == "") && holds_pair taken org n
    then (item i "number", "validation_issue_number_duplicate") ∷ []
    else []

-- The loop over the competencies of an item, which stops at the first error.
unfoldable pub competency_error : ℕ → (String → Option Bool) → List String → ValidationErrors
competency_error i existing [] = []
competency_error i existing (id ∷ ids) =
    let rest = competency_error i existing ids in
    elim (existing id) [
      | none ↦ (item i "competency_ids", "validation_issue_competency_not_found") ∷ []
      | some false ↦ (item i "competency_ids", "validation_issue_competency_inactive") ∷ []
      | some true ↦ rest
    ]

unfoldable pub all_ids : {A : Type 0} → (A → List String) → List A → List String
all_ids ids [] = []
all_ids ids (x ∷ xs) = ids x ++ all_ids ids xs

-- What a validator looks up once for the batch.
pub record BatchFacts : Type 0 where
  pub holders : List String
  pub active : List String
  pub taken : List (String × String)
  pub existing : String → Option Bool

unfoldable pub wanted_by_issuances : List CredentialIssuance → List (String × String)
wanted_by_issuances [] = []
wanted_by_issuances (it ∷ its) =
    wanted_number it.issuer_organization_id it.number ++ wanted_by_issuances its

-- A submission without an organization asks for no number.
unfoldable pub wanted_by_submissions : List CredentialSubmission → List (String × String)
wanted_by_submissions [] = []
wanted_by_submissions (it ∷ its) =
    let rest = wanted_by_submissions its in
    if it.issuer_organization_id == ""
    then rest
    else wanted_number it.issuer_organization_id it.number ++ rest

module _ {T : Backend} (s : CredentialService T) where
  abbrev found_map : (Reference → Bool) → Result (List Reference) → String → Option Bool
  found_map flag (err e) id = none
  found_map flag (ok found) id = slice_to_map (λ c. c.id) flag found id

  -- `existingComp`: one query for the distinct ids of the batch, whose failure is ignored.
  unfoldable pub existing_competencies :
      (Reference → Bool) → List String → T.Db → String → Option Bool
  existing_competencies flag ids db id =
      if is_empty (uniq ids) then none else found_map flag (s.find_competencies (uniq ids) db) id

  -- The checks of one item after its holder and its file.
  unfoldable pub issue_item_errors : BatchFacts → T.Db → ℕ → CredentialIssuance → ValidationErrors
  unfolding reference_error number_error competency_error
  issue_item_errors facts db i it =
      type_error i (s.find_type it.type_id db)
      ++ organization_error i (s.find_organization it.issuer_organization_id db)
      ++ number_error i facts.taken it.issuer_organization_id it.number
      ++ competency_error i facts.existing it.competency_ids

  -- The loop over the items; `seen` is `seenHash`.
  unfoldable pub issue_errors :
      BatchFacts → T.Db → ℕ → List String → List CredentialIssuance → ValidationErrors
  issue_errors facts db i seen [] = []
  issue_errors facts db i seen (it ∷ its) =
      let hash = s.storage.keccak_hex it.file_bytes in
      let known = contains facts.holders it.holder_user_id in
      let repeated = contains facts.active hash || contains seen hash in
      let rest =
        issue_errors facts db (suc i) (if known && not repeated then hash ∷ seen else seen) its in
      if not known
      then (item i "holder_user_id", "validation_issue_holder_not_found") ∷ rest
      else if repeated
      then (item i "file", "validation_issue_duplicate_file_hash") ∷ rest
      else issue_item_errors facts db i it ++ rest

  unfoldable pub issue_facts : List CredentialIssuance → List String → List ℕ → T.Db → BatchFacts
  issue_facts items holders statuses db = record {
    holders = holders;
    active = active_hashes (map (λ it. s.storage.keccak_hex it.file_bytes) items) statuses;
    taken = taken_numbers s.repo (wanted_by_issuances items) db;
    existing = existing_competencies (λ c. c.active) (all_ids (λ it. it.competency_ids) items) db;
  }

  unfoldable pub issue_validate :
      List CredentialIssuance → List String → List ℕ → T.Db → ValidationErrors
  unfolding issue_errors issue_facts
  issue_validate items holders statuses db =
      issue_errors (issue_facts items holders statuses db) db 0 [] items

  abbrev required_reference :
      String
      → ℕ
      → String
      → String
      → (String → Result (Option Reference))
      → (ℕ → Result (Option Reference) → ValidationErrors)
      → ValidationErrors
  required_reference id i field missing find error =
      if id == "" then (item i field, missing) ∷ [] else error i (find id)

  -- The loop body of submitValidate.
  unfoldable pub submit_item_errors :
      BatchFacts → T.Db → ℕ → CredentialSubmission → ValidationErrors
  unfolding reference_error number_error competency_error
  submit_item_errors facts db i it =
      required_reference it.type_id i "type_id" "validation_submit_type_required"
        (λ id. s.find_type id db) type_error
      ++ required_reference it.issuer_organization_id i "issuer_organization_id"
          "validation_submit_org_required" (λ id. s.find_organization id db) organization_error
      ++ (if it.issuer_organization_id == ""
          then []
          else number_error i facts.taken it.issuer_organization_id it.number)
      ++ competency_error i facts.existing it.competency_ids

  unfoldable pub submit_errors :
      BatchFacts → T.Db → ℕ → List CredentialSubmission → ValidationErrors
  submit_errors facts db i [] = []
  submit_errors facts db i (it ∷ its) =
      submit_item_errors facts db i it ++ submit_errors facts db (suc i) its

  -- The competency's status counts here, and not in Issue.
  unfoldable pub submit_facts : List CredentialSubmission → T.Db → BatchFacts
  submit_facts items db = record {
    holders = [];
    active = [];
    taken = taken_numbers s.repo (wanted_by_submissions items) db;
    existing = existing_competencies usable (all_ids (λ it. it.competency_ids) items) db;
  }

  unfoldable pub submit_validate : List CredentialSubmission → T.Db → Result ValidationErrors
  unfolding submit_errors submit_facts
  submit_validate items db =
      elim (s.repo.count_active_by_file_hashes
        (map (λ it. s.storage.keccak_hex it.file_bytes) items) db) [
          | err e ↦ err e
          | ok n ↦
              if ltb 0 n
              then ok ((item 0 "file", "validation_issue_duplicate_file_hash") ∷ [])
              else ok (submit_errors (submit_facts items db) db 0 items)
        ]

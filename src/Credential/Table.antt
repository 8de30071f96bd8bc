-- ===== src/Credential/Table.antt =====
-- feature/credential/gorm_credential_repository.go: the queries on the credentials table and the
-- UPDATE with CASE columns (infrastructure/database/gorm/helpers.go). SQL is read on a list of rows,
-- in the order in which a scan gives them; every statement reaches the database. `updated_at` and
-- `meta` are left out, and the sort of an update's items by their ids, which decides nothing where
-- each id is given once.
use cred_chain_golang.Base.{
  ℕ, suc, ◌+◌, Bool, true, false, not, ◌&&◌, ◌||◌, String, List, [], ◌∷◌, ◌++◌, map, Option, none,
  some, ◌==◌, contains, is_some, is_none, length, if◌then◌else◌,
}
use cred_chain_golang.Sql.{select, case_value, or_kept, or_old, given_text}
use cred_chain_golang.Domain.Clock.{Time, is_zero}
use cred_chain_golang.Domain.Fault.{
  domain, record_not_found, raw, Result, ok, err, issue_duplicate_file_hash,
}
use cred_chain_golang.Domain.Reference.{Reference}
use cred_chain_golang.Domain.User.{User}
use cred_chain_golang.Domain.Credential.{Credential}
use cred_chain_golang.Credential.Ports.{CredentialRepository}

abbrev pub key : Credential → String
key c = c.id

abbrev pub keys : List Credential → List String
keys = map key

abbrev pub given_texts : Option String → Option String
given_texts none = none
given_texts (some text) = given_text text

abbrev pub given_time : Time → Option Time
given_time t = if is_zero t then none else some t

-- The columns of updateBatchCase, in its order. It has none for `revocation_reason`.
unfoldable pub patched : List Credential → Credential → Credential
unfolding case_value
patched items c = record c {
  name = or_kept (case_value key (λ p. given_text p.name) items c.id) c.name;
  number = or_old (case_value key (λ p. p.number) items c.id) c.number;
  submitter_user_id =
      or_kept (case_value key (λ p. given_text p.submitter_user_id) items c.id) c.submitter_user_id;
  issuer_user_id =
      or_old (case_value key (λ p. given_texts p.issuer_user_id) items c.id) c.issuer_user_id;
  issuer_organization_id =
      or_kept (case_value key (λ p. given_text p.issuer_organization_id) items c.id)
        c.issuer_organization_id;
  type_id = or_kept (case_value key (λ p. given_text p.type_id) items c.id) c.type_id;
  expires_at = or_old (case_value key (λ p. p.expires_at) items c.id) c.expires_at;
  issued_at = or_kept (case_value key (λ p. given_time p.issued_at) items c.id) c.issued_at;
  activated_at = or_old (case_value key (λ p. p.activated_at) items c.id) c.activated_at;
  rejecter_user_id =
      or_old (case_value key (λ p. p.rejecter_user_id) items c.id) c.rejecter_user_id;
  rejected_at = or_old (case_value key (λ p. p.rejected_at) items c.id) c.rejected_at;
  rejection_reason =
      or_old (case_value key (λ p. p.rejection_reason) items c.id) c.rejection_reason;
  token_id = or_old (case_value key (λ p. p.token_id) items c.id) c.token_id;
  file_uri = or_old (case_value key (λ p. p.file_uri) items c.id) c.file_uri;
  revoked_at = or_old (case_value key (λ p. p.revoked_at) items c.id) c.revoked_at;
  revoker_user_id = or_old (case_value key (λ p. p.revoker_user_id) items c.id) c.revoker_user_id;
  extract_enqueued_at =
      or_old (case_value key (λ p. p.extract_enqueued_at) items c.id) c.extract_enqueued_at;
  extract_failed_at =
      or_old (case_value key (λ p. p.extract_failed_at) items c.id) c.extract_failed_at;
  extract_error = or_old (case_value key (λ p. p.extract_error) items c.id) c.extract_error;
  extracted_at = or_old (case_value key (λ p. p.extracted_at) items c.id) c.extracted_at;
}

-- updateBatchCase: `UPDATE credentials SET ... WHERE id IN (?)`.
unfoldable pub update_batch_case : List Credential → List Credential → List Credential
unfolding contains
update_batch_case items = map λ c. if contains (keys items) c.id then patched items c else c

-- ClearExtractOutcome's columns; what it does not set stays.
unfoldable pub cleared : Time → List String → Credential → Credential
unfolding contains
cleared enqueued_at ids c =
    if contains ids c.id
    then record c {
      extract_enqueued_at = some enqueued_at;
      extracted_at = none;
      extract_failed_at = none;
      extract_error = none;
    }
    else c

-- The tables that a preload reads, by the foreign key.
pub record Relations : Type 0 where
  pub user : String → Option User
  pub type : String → Option Reference
  pub organization : String → Option Reference
  pub competencies : String → List Reference

abbrev user_of : Relations → Option String → Option User
user_of r none = none
user_of r (some id) = r.user id

-- preloadByIncludes over the relations that a row carries: a relation that is not included is empty.
unfoldable pub preload_by_includes : Relations → List String → Credential → Credential
unfolding contains
preload_by_includes r includes c = record c {
  holder = if contains includes "holder" then r.user c.holder_user_id else none;
  issuer = if contains includes "issuer" then user_of r c.issuer_user_id else none;
  competencies = if contains includes "competencies" then r.competencies c.id else [];
  type = if contains includes "type" then r.type c.type_id else none;
  issuer_organization =
      if contains includes "issuer_organization"
      then r.organization c.issuer_organization_id
      else none;
}

-- The unique indexes of the table: the key, the hash of an active row's file, the number in an
-- organization, the token.
abbrev same_text : Option String → Option String → Bool
same_text (some a) (some b) = a == b
same_text (some a) none = false
same_text none b = false

abbrev pub is_active : Credential → Bool
is_active c = is_none c.revoked_at && is_none c.rejected_at

unfoldable pub conflicts : Credential → Credential → Bool
conflicts a b =
    a.id == b.id
    || (is_active a && is_active b && a.file_hash == b.file_hash)
    || (a.issuer_organization_id == b.issuer_organization_id && same_text a.number b.number)
    || same_text a.token_id b.token_id

unfoldable pub is_fresh : Credential → List Credential → Bool
unfolding conflicts
is_fresh c [] = true
is_fresh c (d ∷ ds) = not (conflicts c d) && is_fresh c ds

unfoldable pub is_unique : List Credential → Bool
unfolding is_fresh
is_unique [] = true
is_unique (c ∷ cs) = is_fresh c cs && is_unique cs

-- The rows, the other tables, and the source of identifiers with the number that it drew.
pub record Database : Type 0 where
  pub rows : List Credential
  pub relations : Relations
  pub ulid : ℕ → String
  pub drawn : ℕ

-- `if credentials[i].ID == "" { credentials[i].ID = ulid.Make().String() }`
abbrev pub lacks_id : Credential → Bool
lacks_id c = c.id == ""

unfoldable pub with_ids : (ℕ → String) → ℕ → List Credential → List Credential
with_ids ulid n [] = []
with_ids ulid n (c ∷ cs) =
    (if lacks_id c then record c { id = ulid n } else c)
    ∷ with_ids ulid (if lacks_id c then suc n else n) cs

-- The columns of a model.FromDomainCredential; the rows that the services store carry no relations.
abbrev pub bare : Credential → Credential
bare c = record c {
  holder = none;
  issuer = none;
  competencies = [];
  type = none;
  issuer_organization = none;
}

abbrev loaded : Relations → List String → List Credential → List Credential
loaded r includes = map (preload_by_includes r includes)

abbrev first_row : List Credential → Result Credential
first_row [] = err record_not_found
first_row (c ∷ cs) = ok c

-- The SELECTs.
unfoldable pub find : String → List String → Database → Result Credential
unfolding select
find id includes db = first_row (loaded db.relations includes (select (λ c. c.id == id) db.rows))

unfoldable pub find_by_ids : List String → List String → Database → Result (List Credential)
unfolding select contains
find_by_ids ids includes db =
    ok (loaded db.relations includes (select (λ c. contains ids c.id) db.rows))

unfoldable pub find_verifiable_by_id : String → List String → Database → Result Credential
unfolding select
find_verifiable_by_id id includes db =
    first_row
      (loaded db.relations includes (select (λ c. is_some c.activated_at && c.id == id) db.rows))

unfoldable pub find_verifiable_by_ids :
    List String → List String → Database → Result (List Credential)
unfolding select contains
find_verifiable_by_ids ids includes db = ok (
    loaded db.relations includes
      (select (λ c. is_some c.activated_at && contains ids c.id) db.rows))

unfoldable pub find_by_file_hashes : List String → List String → Database → Result (List Credential)
unfolding select contains
find_by_file_hashes hashes includes db = ok (
    loaded db.relations includes
      (select (λ c. contains hashes c.file_hash && is_some c.activated_at) db.rows))

unfoldable pub count_active_by_file_hashes : List String → Database → Result ℕ
unfolding select contains
count_active_by_file_hashes hashes db =
    ok (length (select (λ c. contains hashes c.file_hash && is_active c) db.rows))

-- CountByTypeIds and CountByIssuerOrganizationIds
unfoldable pub count_by_type_ids : List String → Database → Result ℕ
unfolding select contains
count_by_type_ids ids db = ok (length (select (λ c. contains ids c.type_id) db.rows))

unfoldable pub count_by_issuer_organization_ids : List String → Database → Result ℕ
unfolding select contains
count_by_issuer_organization_ids ids db =
    ok (length (select (λ c. contains ids c.issuer_organization_id) db.rows))

abbrev holds_number : List String → Option String → Bool
holds_number numbers none = false
holds_number numbers (some n) = contains numbers n

-- The filters that the services give to `Get`: an organization, and numbers of it.
unfoldable pub rows_by_numbers : String → List String → Database → Result (List Credential)
unfolding select contains
rows_by_numbers org numbers db =
    ok (select (λ c. c.issuer_organization_id == org && holds_number numbers c.number) db.rows)

-- Store and Update. A violated index refuses the statement, and its rows stay as they were.
unfoldable pub store : List Credential → Database → Result (List Credential) × Database
unfolding with_ids is_unique select
store [] db = (ok [], db)
store (c ∷ cs) db =
    let rows = map bare (with_ids db.ulid db.drawn (c ∷ cs)) in
    let db' = record db { drawn = length (select lacks_id (c ∷ cs)) + db.drawn } in
    if is_unique (db.rows ++ rows)
    then (ok rows, record db' { rows = db.rows ++ rows })
    else (err (domain issue_duplicate_file_hash []), db')

unfoldable pub update : List Credential → Database → Result (List Credential) × Database
unfolding update_batch_case is_unique
update [] db = (ok [], db)
update (c ∷ cs) db =
    let rows = update_batch_case (c ∷ cs) db.rows in
    let db' = record db { rows = rows } in
    if is_unique rows then (find_by_ids (keys (c ∷ cs)) [] db', db') else (err (raw "23505"), db)

unfoldable pub clear_extract_outcome : Time → List String → Database → Result (Unit {0}) × Database
unfolding cleared
clear_extract_outcome enqueued_at ids db =
    (ok tt, record db { rows = map (cleared enqueued_at ids) db.rows })

-- domain.CredentialRepository, as `NewGormCredentialRepository` fills it.
unfoldable pub repository : CredentialRepository Database
repository = record {
  find = find;
  find_by_ids = find_by_ids;
  find_verifiable_by_id = find_verifiable_by_id;
  find_verifiable_by_ids = find_verifiable_by_ids;
  find_by_file_hashes = find_by_file_hashes;
  rows_by_numbers = rows_by_numbers;
  count_active_by_file_hashes = count_active_by_file_hashes;
  store = store;
  update = update;
  clear_extract_outcome = clear_extract_outcome;
}

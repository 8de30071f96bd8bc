-- ===== src/Taxonomy.antt =====
-- feature/credential/competency_service.go, credential_type_service.go and
-- issuer_organization_service.go: one service three times, over rows of the same shape. What differs
-- is a `Kind`.
pub mod Kinds
pub mod Table
pub mod Lifecycle
pub mod Statements
pub mod Writes
pub mod Requests
use cred_chain_golang.Base.{
  ℕ, Bool, true, false, String, List, [], ◌∷◌, Option, none, some, is_empty, ltb, if◌then◌else◌,
  ◌==◌,
}
use cred_chain_golang.Domain.Clock.{Time}
use cred_chain_golang.Domain.Fault.{
  Code, Error, domain, record_not_found, Result, ok, err, system_internal, system_validation,
  auth_unauthorized,
}
use cred_chain_golang.Domain.Reference.{Reference, ReferenceStatus, status}
use cred_chain_golang.Domain.User.{User}
use cred_chain_golang.Effect.{Backend, M, ◌>>=◌, ◌>>◌, pure, raise, lift, read_db, on_db}

-- The codes of a kind, and whether a renaming starts from the row's name.
pub record Kind : Type 0 where
  pub not_found : Code
  pub name_duplicate : Code
  pub already_approved : Code
  pub already_rejected : Code
  pub already_pending : Code
  pub destroy_in_use : Code
  pub carries_name : Bool

-- domain.CompetencyRepository and its two siblings, with the methods that the services use.
pub record TaxonomyRepository (Db : Type 0) : Type 0 where
  pub find : String → Db → Result Reference
  pub find_by_names : List String → Db → Result (List Reference)
  pub store : List Reference → Db → Result (List Reference) × Db
  pub update : List Reference → Db → Result (List Reference) × Db
  pub destroy : List String → Db → Result ℕ × Db

-- `count_uses` is CountByCompetencyIds, CountByTypeIds or CountByIssuerOrganizationIds, and
-- `trim_space` is `strings.TrimSpace`.
pub record TaxonomyService (T : Backend) : Type 0 where
  pub kind : Kind
  pub repo : TaxonomyRepository T.Db
  pub count_uses : List String → T.Db → Result ℕ
  pub trim_space : String → String

-- `domain.Competency{}`, from which the services build a partial update.
abbrev pub empty_reference : Reference
empty_reference = record {
  id = "";
  name = "";
  active = false;
  submitter_user_id = none;
  approver_user_id = none;
  rejecter_user_id = none;
  rejection_reason = none;
  activated_at = none;
  rejected_at = none;
}

abbrev pub bool_or : Bool → Option Bool → Bool
bool_or default none = default
bool_or default (some b) = b

abbrev user_id : Option User → Option String
user_id none = none
user_id (some u) = some u.id

-- The rows that Store and Submit create.
unfoldable pub stored_row : Option User → Time → String → Option Bool → Reference
stored_row auth now name active = record empty_reference {
  name = name;
  active = bool_or true active;
  submitter_user_id = user_id auth;
  approver_user_id = user_id auth;
  activated_at = some now;
}

unfoldable pub submitted_row : User → String → Reference
submitted_row auth name = record empty_reference { name = name; submitter_user_id = some auth.id }

-- The partial rows of Approve, Reject and Update.
unfoldable pub approved_row : User → Time → Reference → Reference
approved_row auth now target = record empty_reference {
  id = target.id;
  active = true;
  approver_user_id = some auth.id;
  activated_at = some now;
}

unfoldable pub rejected_row : User → Time → String → Reference → Reference
rejected_row auth now reason target = record empty_reference {
  id = target.id;
  rejecter_user_id = some auth.id;
  rejected_at = some now;
  rejection_reason = some reason;
}

-- The first of the unrejected rows of the name that is wanted.
unfoldable pub name_guard : Code → Code → String → List Reference → Result (Unit {0})
name_guard pending_code taken_code name [] = ok tt
name_guard pending_code taken_code name (m ∷ ms) = elim (status m) [
  | ReferenceStatus.pending ↦ err (domain pending_code (name ∷ []))
  | _ ↦ err (domain taken_code (name ∷ []))
]

-- `switch target.Status()` of Approve and of Reject; its default branch is for no status.
unfoldable pub pending_guard : Kind → String → Reference → Result (Unit {0})
pending_guard k id target = elim (status target) [
  | ReferenceStatus.approved ↦ err (domain k.already_approved (id ∷ []))
  | ReferenceStatus.rejected ↦ err (domain k.already_rejected (id ∷ []))
  | ReferenceStatus.pending ↦ ok tt
]

unfoldable pub other_id : Code → String → String → List Reference → Result (Unit {0})
other_id code name id [] = ok tt
other_id code name id (m ∷ ms) =
    let rest = other_id code name id ms in
    if m.id == id then rest else err (domain code (name ∷ []))

abbrev pub require_user : Option User → Result User
require_user none = err (domain auth_unauthorized [])
require_user (some u) = ok u

-- `if len(rows) == 0 { return nil, domain.NewError(code) }; return &rows[0]`
abbrev first_or : Error → List Reference → Result Reference
first_or e [] = err e
first_or e (r ∷ rs) = ok r

abbrev pub found_or : Result Reference → Code → String → Result Reference
found_or (ok r) code id = ok r
found_or (err record_not_found) code id = err (domain code (id ∷ []))
found_or (err e) code id = err e

module _ {T : Backend} (s : TaxonomyService T) where
  unfoldable pub find : String → M T Reference
  find id = read_db (λ db. found_or (s.repo.find id db) s.kind.not_found id)

  abbrev require_text : String → M T (Unit {0})
  require_text text = if text == "" then raise (domain system_validation []) else pure tt

  unfoldable pub store : Option User → Time → String → Option Bool → M T Reference
  unfolding name_guard
  store auth now name active = do
    require_text (s.trim_space name)
    matches ← read_db (s.repo.find_by_names (s.trim_space name ∷ []))
    lift (name_guard s.kind.already_pending s.kind.name_duplicate (s.trim_space name) matches)
    stored ← on_db (s.repo.store (stored_row auth now (s.trim_space name) active ∷ []))
    lift (first_or (domain system_internal []) stored)

  unfoldable pub submit : Option User → String → M T Reference
  unfolding name_guard
  submit auth name = do
    require_text (s.trim_space name)
    matches ← read_db (s.repo.find_by_names (s.trim_space name ∷ []))
    lift (name_guard s.kind.already_pending s.kind.already_approved (s.trim_space name) matches)
    u ← lift (require_user auth)
    stored ← on_db (s.repo.store (submitted_row u (s.trim_space name) ∷ []))
    lift (first_or (domain system_internal []) stored)

  unfoldable pub approve : Option User → Time → String → M T Reference
  unfolding find pending_guard
  approve auth now id = do
    u ← lift (require_user auth)
    target ← find id
    lift (pending_guard s.kind id target)
    updated ← on_db (s.repo.update (approved_row u now target ∷ []))
    lift (first_or (domain s.kind.not_found (id ∷ [])) updated)

  unfoldable pub reject : Option User → Time → String → String → M T Reference
  unfolding find pending_guard
  reject auth now id reason = do
    require_text (s.trim_space reason)
    u ← lift (require_user auth)
    target ← find id
    lift (pending_guard s.kind id target)
    updated ← on_db (s.repo.update (rejected_row u now (s.trim_space reason) target ∷ []))
    lift (first_or (domain s.kind.not_found (id ∷ [])) updated)

  -- checkNameUnique, which Update calls where it is given a name.
  unfoldable pub check_name_unique : Option String → String → T.Db → Result (Unit {0})
  check_name_unique none id db = ok tt
  check_name_unique (some name) id db = elim (s.repo.find_by_names (name ∷ []) db) [
    | err e ↦ err e
    | ok matches ↦ other_id s.kind.name_duplicate name id matches
  ]

  abbrev pub name_after : Option String → Reference → String
  name_after none target = if s.kind.carries_name then target.name else ""
  name_after (some name) target = s.trim_space name

  unfoldable pub updated_row : Option String → Option Bool → Reference → Reference
  updated_row name active target = record empty_reference {
    id = target.id;
    name = name_after name target;
    active = bool_or target.active active;
  }

  unfoldable pub update : String → Option String → Option Bool → M T Reference
  unfolding find check_name_unique
  update id name active = do
    target ← find id
    read_db (check_name_unique name id)
    updated ← on_db (s.repo.update (updated_row name active target ∷ []))
    lift (first_or (domain s.kind.not_found (id ∷ [])) updated)

  abbrev pub require_unused : List String → ℕ → Result (Unit {0})
  require_unused ids n = if ltb 0 n then err (domain s.kind.destroy_in_use ids) else ok tt

  unfoldable pub destroy : List String → M T ℕ
  destroy ids = if is_empty ids then pure 0 else (do
    n ← read_db (s.count_uses ids)
    lift (require_unused ids n)
    on_db (s.repo.destroy ids))

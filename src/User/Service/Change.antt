-- ===== src/User/Service/Change.antt =====
-- feature/user/user_service.go: Update, UpdateLanguage, UpdateEmail and UpdateRole.
use cred_chain_golang.Base.{
  ℕ, String, List, [], ◌∷◌, map, Option, none, some, is_some, is_empty, length, nat_eq,
  slice_to_map, if◌then◌else◌, ◌==◌,
}
use cred_chain_golang.Domain.Role.{Role, role_eq}
use cred_chain_golang.Domain.Fault.{
  domain, validation, record_not_found, whole, Result, ok, err, user_fetch_not_found,
  user_update_not_found, user_email_conflict, user_update_blockchain_sync_failed,
  user_role_blockchain_sync_failed, user_email_invalid_id_token, user_email_mismatched_id_token,
}
use cred_chain_golang.Domain.User.{User, UserRoleUpdate, Language, empty_user}
use cred_chain_golang.Effect.{
  Backend, M, ◌>>=◌, ◌>>◌, pure, lift, read_db, on_db, transaction, each, check_all,
}
use cred_chain_golang.User.Ports.{UserService}
use cred_chain_golang.User.Policy.{
  update_pre_fetch, update_post_fetch, update_role_pre_fetch, update_role_post_fetch,
}
use cred_chain_golang.User.Service.{as_code, role_row, sync_blockchain_roles}
use cred_chain_golang.User.Service.Create.{unless_invalid, validate_units_active}

-- `map[k]` of a key that may be absent: the zero value.
abbrev or_else {ℓ} : {A : Type ℓ} → A → Option A → A
or_else z none = z
or_else z (some a) = a

unfoldable pub with_email : List User → List User
with_email [] = []
with_email (u ∷ us) = let rest = with_email us in if u.email == "" then rest else u ∷ rest

-- `emailOwnerMap`, and the check of a row that holds one of the emails.
unfoldable pub owner_check : List User → User → Result (Unit {0})
owner_check users e =
    let owner = or_else "" (slice_to_map (λ u. u.email) (λ u. u.id) (with_email users) e.email) in
    if e.id == owner then ok tt else err (domain user_email_conflict (e.email ∷ []))

unfoldable pub email_conflict : List User → List User → Result (Unit {0})
email_conflict users existing = check_all (owner_check users) existing

unfoldable pub target_of : List User → String → User
target_of targets id = or_else empty_user (slice_to_map (λ t. t.id) (λ t. t) targets id)

-- `filteredUsers`: a role that the target holds already becomes the empty role.
unfoldable pub filtered_user : List User → User → User
filtered_user targets u =
    if role_eq u.role (target_of targets u.id).role then record u { role = Role.unset } else u

-- `roleChainUsers`
unfoldable pub role_chain_users : List User → List User → List User
role_chain_users targets [] = []
role_chain_users targets (u ∷ us) =
    let rest = role_chain_users targets us in
    let target = target_of targets u.id in
    if role_eq u.role Role.unset
    then rest
    else if role_eq u.role target.role
    then rest
    else role_row target u.role ∷ rest

-- `updateRoleValidateAndPrepare` builds the rows from the targets.
unfoldable pub role_update_row : List User → UserRoleUpdate → User
role_update_row targets u = record (target_of targets u.user_id) { role = u.role }

-- `FindByEmails` finds another user's row.
unfoldable pub email_owner : String → String → User → Result (Unit {0})
email_owner id email u = if u.id == id then ok tt else err (domain user_email_conflict (email ∷ []))

unfoldable pub language_target : String → Result (Option User) → Result (Unit {0})
language_target id (err record_not_found) = err (domain user_fetch_not_found (id ∷ []))
language_target id (err e) = err e
language_target id (ok none) = err (domain user_fetch_not_found (id ∷ []))
language_target id (ok (some u)) =
    if is_some u.deleted_at then err (domain user_fetch_not_found (id ∷ [])) else ok tt

unfoldable pub valid_language : Language → Result (Unit {0})
valid_language Language.indonesian = ok tt
valid_language Language.english = ok tt
valid_language Language.blank =
    err (validation ((whole "language", "validation_language_invalid") ∷ []))

unfoldable pub sole_language : String → List User → Result Language
sole_language id (u ∷ []) = ok u.language
sole_language id _ = err (domain user_fetch_not_found (id ∷ []))

unfoldable pub first_email : String → List User → Result String
first_email id [] = err (domain user_fetch_not_found (id ∷ []))
first_email id (u ∷ us) = ok u.email

module _ {T : Backend} (s : UserService T) where
  unfoldable pub update_language : String → Language → M T Language
  update_language id language = do
    lift (valid_language language)
    read_db (λ db. language_target id (s.repo.find id db))
    updated ← on_db (s.repo.update (record empty_user { id = id; language = language } ∷ []))
    lift (sole_language id updated)

  unfoldable pub update_email_body : String → String → T.Db → M T String
  update_email_body id email committed = do
    updated ← on_db (s.repo.update (record empty_user { id = id; email = email } ∷ []))
    found ← lift (first_email id updated)
    _ ← on_db (s.revoke_refresh_tokens id)
    pure found

  unfoldable pub update_email : String → String → String → M T String
  update_email id email id_token = do
    token_email ← lift (as_code user_email_invalid_id_token [] (s.token_email id_token))
    lift (
        if token_email == email
        then ok tt
        else err (domain user_email_mismatched_id_token (token_email ∷ email ∷ [])))
    existing ← read_db (s.repo.find_by_emails (email ∷ []))
    lift (check_all (email_owner id email) existing)
    transaction s.begin s.commit (update_email_body id email)

  unfoldable pub revoke_tokens_of : User → M T (Unit {0})
  revoke_tokens_of u = do _ ← on_db (s.revoke_refresh_tokens u.id); pure tt

  unfoldable pub check_emails : List User → M T (Unit {0})
  check_emails users = if is_empty (with_email users) then pure tt else do
    existing ← read_db (s.repo.find_by_emails (map (λ u. u.email) (with_email users)))
    lift (email_conflict users existing)

  module _ (auth : User) where
    unfoldable pub sync_changed : List User → M T (Unit {0})
    sync_changed changed =
        if is_empty changed
        then pure tt
        else sync_blockchain_roles s auth changed user_update_blockchain_sync_failed

    unfoldable pub update_body : List User → T.Db → M T (List User)
    update_body users committed = do
      targets ← read_db (s.repo.find_by_ids (map (λ u. u.id) users))
      lift (
          if nat_eq (length targets) (length users)
          then ok tt
          else err (domain user_update_not_found []))
      lift (update_post_fetch auth targets users)
      check_emails users
      updated ← on_db (s.repo.update (map (filtered_user targets) users))
      sync_changed (role_chain_users targets users)
      each revoke_tokens_of (with_email (map (filtered_user targets) users))
      pure updated

    unfoldable pub update : List User → M T (List User)
    update users = do
      lift (update_pre_fetch auth users)
      read_db (λ db. unless_invalid (validate_units_active s users db))
      transaction s.begin s.commit (update_body users)

    unfoldable pub update_role_body : List UserRoleUpdate → T.Db → M T (List User × ℕ)
    update_role_body updates committed = do
      targets ← read_db (s.repo.find_by_ids (map (λ u. u.user_id) updates))
      lift (update_role_post_fetch auth targets updates)
      let rows = map (role_update_row targets) updates
      result ← on_db (s.repo.update_role rows)
      sync_blockchain_roles s auth rows user_role_blockchain_sync_failed
      pure result

    unfoldable pub update_role : List UserRoleUpdate → M T (List User × ℕ)
    update_role updates = do
      lift (update_role_pre_fetch auth updates)
      transaction s.begin s.commit (update_role_body updates)

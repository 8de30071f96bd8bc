-- ===== src/User/Service.antt =====
-- feature/user/user_service.go: the operations that change users. `auth` is the user that
-- `httpContext.MustGetUser` finds. `Paginate`, `FindByEmails` and `FindByIds` only read.
pub mod Create
pub mod Change
pub mod Outcome
pub mod Sync
pub mod Batch
use cred_chain_golang.Base.{
  String, List, [], ◌∷◌, map, Option, none, some, is_some, is_empty, if◌then◌else◌, ℕ,
}
use cred_chain_golang.Domain.Role.{Role}
use cred_chain_golang.Domain.Fault.{
  Code, Error, domain, Result, ok, err, user_delete_blockchain_sync_failed,
  transfer_super_admin_target_not_found, transfer_super_admin_trashed_forbidden,
  transfer_super_admin_blockchain_sync_failed, user_restore_blockchain_sync_failed,
}
use cred_chain_golang.Domain.User.{User, wallet_from_user, empty_user}
use cred_chain_golang.Effect.{
  Backend, World, M, ◌>>=◌, ◌>>◌, pure, lift, read_db, on_db, on_chain, transaction,
}
use cred_chain_golang.User.Ports.{UserService}
use cred_chain_golang.User.Policy.{
  delete_pre_fetch, delete_post_fetch, restore_pre_fetch, restore_post_fetch, transfer_pre_fetch,
}

-- A chain error comes back as the domain error of the operation.
unfoldable pub as_code {ℓ} : {A : Type ℓ} → Code → List String → Result A → Result A
as_code code ids (ok a) = ok a
as_code code ids (err e) = err (domain code ids)

-- The row that carries a role to the chain: the wallet and the role, no id.
unfoldable pub role_row : User → Role → User
role_row t role = record empty_user {
  wallet_address = t.wallet_address;
  encrypted_wallet_private_key = t.encrypted_wallet_private_key;
  role = role;
}

unfoldable pub live_targets : List User → List User
live_targets [] = []
live_targets (t ∷ ts) =
    let rest = live_targets ts in if is_some t.deleted_at then rest else t ∷ rest

unfoldable pub revocation_users : List User → List User
revocation_users = map λ t. role_row t Role.none

unfoldable pub transfer_target : String → List User → Result User
transfer_target target_id [] = err (domain transfer_super_admin_target_not_found (target_id ∷ []))
transfer_target target_id (t ∷ ts) =
    if is_some t.deleted_at
    then err (domain transfer_super_admin_trashed_forbidden (target_id ∷ []))
    else ok t

unfoldable pub transfer_row : User → Role → User
transfer_row t role = record (role_row t role) { id = t.id }

module _ {T : Backend} (s : UserService T) (auth : User) where
  unfoldable pub sync_blockchain_roles : List User → Code → M T (Unit {0})
  sync_blockchain_roles users code = on_chain λ c.
      let (r, c') = s.authority.update_user_role (wallet_from_user auth) users c in
      (as_code code [] r, c')

  -- The early returns of `Delete` once the rows are deleted.
  unfoldable pub revoke_roles : List User → M T (Unit {0})
  revoke_roles live =
      if is_empty live
      then pure tt
      else sync_blockchain_roles (revocation_users live) user_delete_blockchain_sync_failed

  unfoldable pub delete_found : List String → List User → M T ℕ
  delete_found ids targets = do
    rows ← on_db (s.repo.delete ids)
    revoke_roles (live_targets targets)
    pure rows

  unfoldable pub delete_body : List String → T.Db → M T ℕ
  delete_body ids committed = do
    targets ← read_db (s.repo.find_by_ids ids)
    lift (delete_post_fetch auth targets)
    if is_empty targets then pure 0 else delete_found ids targets

  unfoldable pub delete : List String → M T ℕ
  delete ids = do lift (delete_pre_fetch auth ids); transaction s.begin s.commit (delete_body ids)

  unfoldable pub transfer_on_chain : User → M T (Unit {0})
  transfer_on_chain target = on_chain λ c.
      let (r, c') = s.authority.transfer_super_admin (wallet_from_user auth) target c in
      (as_code transfer_super_admin_blockchain_sync_failed [] r, c')

  unfoldable pub transfer_body : String → T.Db → M T (Unit {0})
  transfer_body target_id committed = do
    targets ← read_db (s.repo.find_by_ids (target_id ∷ []))
    target ← lift (transfer_target target_id targets)
    transfer_on_chain target
    _ ← on_db (
        s.repo.update_role
          (transfer_row auth Role.admin ∷ transfer_row target Role.super_admin ∷ []))
    _ ← on_db (s.revoke_refresh_tokens auth.id)
    _ ← on_db (s.revoke_refresh_tokens target.id)
    pure tt

  unfoldable pub transfer_super_admin : String → M T (Unit {0})
  transfer_super_admin target_id = do
    lift (transfer_pre_fetch auth target_id)
    transaction s.begin s.commit (transfer_body target_id)

  unfoldable pub restore_body : List String → T.Db → M T (List User × ℕ)
  restore_body ids committed = do
    targets ← read_db (s.repo.find_by_ids ids)
    lift (restore_post_fetch targets)
    count ← on_db (s.repo.restore ids)
    restored ← read_db (s.repo.find_by_ids ids)
    sync_blockchain_roles restored user_restore_blockchain_sync_failed
    pure (restored, count)

  unfoldable pub restore : List String → M T (List User × ℕ)
  restore ids = do
    lift (restore_pre_fetch auth ids)
    transaction s.begin s.commit (restore_body ids)

-- ===== src/User/Policy.antt =====
-- feature/user/user_policy.go: who may create, change, delete and restore whom. `auth` is the user of
-- the request; an error carries the ids of its metadata.
pub mod Escalation
use cred_chain_golang.Base.{
  ℕ, ◌≡◌, Bool, true, false, ◌&&◌, ◌||◌, not, String, List, [], ◌∷◌, Option, none, some, is_some,
  is_none, leb, nat_eq, slice_to_map, if◌then◌else◌, ◌==◌,
}
use cred_chain_golang.Domain.Role.{Role, rank, role_eq}
use cred_chain_golang.Domain.User.{User, UserRoleUpdate}
use cred_chain_golang.Domain.Fault.{
  Code, Error, domain, Result, ok, err, user_store_super_admin_forbidden,
  user_store_admin_create_admin_forbidden, user_update_self_forbidden,
  user_update_trashed_forbidden, user_update_super_admin_forbidden,
  user_update_peer_admin_forbidden, user_update_self_email_forbidden,
  user_role_super_admin_batch_forbidden, user_role_signer_admin_required_forbidden,
  user_role_self_target_forbidden, user_fetch_not_found, user_role_trashed_forbidden,
  user_role_same_role_update_forbidden, user_role_admin_update_peer_forbidden,
  user_delete_self_target_forbidden, user_delete_admin_forbidden,
  user_restore_self_target_forbidden, user_restore_super_admin_target_forbidden,
  user_restore_not_trashed_forbidden, transfer_super_admin_self_target_forbidden,
}
use cred_chain_golang.Effect.{check_all}
use cred_chain_golang.Effect.Pure.{◌>>=◌, ◌>>◌}

abbrev refuse_if : Bool → Code → List String → Result (Unit {0})
refuse_if true code ids = err (domain code ids)
refuse_if false code ids = ok tt

-- `r.Rank() >= domain.RoleAdmin.Rank()`
abbrev pub is_admin_or_above : Role → Bool
is_admin_or_above r = leb (rank Role.admin) (rank r)

module _ (auth : User) where
  -- `authUser.Role == domain.RoleAdmin && r.Rank() >= domain.RoleAdmin.Rank()`
  abbrev pub beyond_admin : Role → Bool
  beyond_admin r = role_eq auth.role Role.admin && is_admin_or_above r

  unfoldable pub store_one : User → Result (Unit {0})
  store_one user = do
    refuse_if (role_eq user.role Role.super_admin) user_store_super_admin_forbidden []
    refuse_if (beyond_admin user.role) user_store_admin_create_admin_forbidden []

  unfoldable pub store_policy : List User → Result (Unit {0})
  store_policy = check_all store_one

  unfoldable pub update_pre_fetch : List User → Result (Unit {0})
  update_pre_fetch = check_all λ u.
      refuse_if (u.id == auth.id && not (role_eq auth.role Role.super_admin))
        user_update_self_forbidden (auth.id ∷ [])

  unfoldable pub update_target : User → Result (Unit {0})
  update_target t = do
    refuse_if (is_some t.deleted_at) user_update_trashed_forbidden (t.id ∷ [])
    refuse_if (role_eq t.role Role.super_admin && not (t.id == auth.id))
        user_update_super_admin_forbidden (t.id ∷ [])
    refuse_if (beyond_admin t.role) user_update_peer_admin_forbidden (auth.id ∷ t.id ∷ [])

  -- `continue` on an update that leaves the role alone: the empty role passes both tests.
  unfoldable pub update_change : User → Result (Unit {0})
  update_change u = do
    refuse_if (u.id == auth.id && not (u.email == "")) user_update_self_email_forbidden
        (auth.id ∷ [])
    if role_eq u.role Role.unset then ok tt else do
      refuse_if (role_eq u.role Role.super_admin) user_role_super_admin_batch_forbidden (u.id ∷ [])
      refuse_if (beyond_admin u.role) user_role_signer_admin_required_forbidden (auth.id ∷ [])

  unfoldable pub update_post_fetch : List User → List User → Result (Unit {0})
  update_post_fetch targets updates = do
    check_all update_target targets
    check_all update_change updates

  unfoldable pub update_role_pre_one : UserRoleUpdate → Result (Unit {0})
  update_role_pre_one u = do
    refuse_if (role_eq u.role Role.super_admin) user_role_super_admin_batch_forbidden
        (u.user_id ∷ [])
    refuse_if (u.user_id == auth.id) user_role_self_target_forbidden (auth.id ∷ [])

  unfoldable pub update_role_pre_fetch : List UserRoleUpdate → Result (Unit {0})
  update_role_pre_fetch = check_all update_role_pre_one

  unfoldable pub update_role_target : UserRoleUpdate → Option User → Result (Unit {0})
  update_role_target u none = err (domain user_fetch_not_found (u.user_id ∷ []))
  update_role_target u (some target) = do
    refuse_if (is_some target.deleted_at) user_role_trashed_forbidden (u.user_id ∷ [])
    refuse_if (role_eq target.role u.role) user_role_same_role_update_forbidden (u.user_id ∷ [])
    refuse_if (beyond_admin target.role) user_role_admin_update_peer_forbidden
        (auth.id ∷ u.user_id ∷ [])
    refuse_if (beyond_admin u.role) user_role_signer_admin_required_forbidden (auth.id ∷ [])

  unfoldable pub update_role_post_fetch : List User → List UserRoleUpdate → Result (Unit {0})
  update_role_post_fetch targets =
      check_all λ u. update_role_target u (slice_to_map (λ t. t.id) (λ t. t) targets u.user_id)

  unfoldable pub delete_pre_one : String → Result (Unit {0})
  delete_pre_one id = refuse_if (id == auth.id) user_delete_self_target_forbidden (auth.id ∷ [])

  unfoldable pub delete_pre_fetch : List String → Result (Unit {0})
  delete_pre_fetch = check_all delete_pre_one

  unfoldable pub delete_one : User → Result (Unit {0})
  delete_one t =
      refuse_if (is_admin_or_above t.role) user_delete_admin_forbidden (auth.id ∷ t.id ∷ [])

  unfoldable pub delete_post_fetch : List User → Result (Unit {0})
  delete_post_fetch targets =
      if not (nat_eq (rank auth.role) (rank Role.admin))
      then ok tt
      else check_all delete_one targets

  unfoldable pub restore_pre_fetch : List String → Result (Unit {0})
  restore_pre_fetch =
      check_all λ id. refuse_if (id == auth.id) user_restore_self_target_forbidden (auth.id ∷ [])

  unfoldable pub transfer_pre_fetch : String → Result (Unit {0})
  transfer_pre_fetch target_id =
      refuse_if (auth.id == target_id) transfer_super_admin_self_target_forbidden (auth.id ∷ [])

unfoldable pub restore_target : User → Result (Unit {0})
restore_target t = do
  refuse_if (role_eq t.role Role.super_admin) user_restore_super_admin_target_forbidden (t.id ∷ [])
  refuse_if (is_none t.deleted_at) user_restore_not_trashed_forbidden (t.id ∷ [])

unfoldable pub restore_post_fetch : List User → Result (Unit {0})
restore_post_fetch = check_all restore_target

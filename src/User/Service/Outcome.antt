-- ===== src/User/Service/Outcome.antt =====
-- What the operations of feature/user/user_service.go leave behind when they fail, and what their
-- success says of the checks.
use cred_chain_golang.Base.{
  All-map, ◌≡◌, ◌≢◌, ℕ, String, List, [], ◌∷◌, All, map, arith, refl, suc, eq_iff,
}
use cred_chain_golang.Domain.Role.{Role}
use cred_chain_golang.Domain.Fault.{Error, Result, ok, err}
use cred_chain_golang.Domain.User.{User, UserRoleUpdate}
use cred_chain_golang.Effect.{Backend, World, transaction}
use cred_chain_golang.Effect.Laws.{check_all-ok}
use cred_chain_golang.User.Ports.{UserService}
use cred_chain_golang.User.Policy.{
  delete_pre_one, delete_pre_fetch, delete_post_fetch, update_role_pre_fetch,
  update_role_post_fetch,
}
use cred_chain_golang.User.Policy.Escalation.{
  MayTouch, MayAssign, update_role-ok, delete_post_fetch-ok,
}
use cred_chain_golang.User.Service.{delete, delete_body, transfer_super_admin, restore}
use cred_chain_golang.User.Service.Create.{store, store_generate_wallets, generate_wallet}
use cred_chain_golang.User.Service.Change.{update, update_role, update_role_body, update_email}

-- A request to one of the operations that write in a unit of work.
pub data UserRequest : Type 0 where
  storing updating : List User → UserRequest
  changing_email : String → String → String → UserRequest
  changing_roles : List UserRoleUpdate → UserRequest
  deleting restoring : List String → UserRequest
  transferring : String → UserRequest

-- What an operation gives, without its value.
abbrev unanswered {ℓ} : {A : Type 0} {W : Type ℓ} → Result A × W → Result (Unit {0}) × W
unanswered (ok a, w) = (ok tt, w)
unanswered (err e, w) = (err e, w)

unanswered-err {ℓ} :
    {A : Type 0} {W : Type ℓ} (p : Result A × W) (w : W) (e : Error)
    → unanswered p ≡ (err e, w)
    → p ≡ (err e, w)
unanswered-err (ok a, v) w e h = absurd (ground arith)
unanswered-err (err x, v) w e h = ground arith

module _ {T : Backend} (s : UserService T) (auth : User) where
  unfoldable pub serve : UserRequest → World T → Result (Unit {0}) × World T
  serve (UserRequest.storing us) w = unanswered (store s auth us w)
  serve (UserRequest.updating us) w = unanswered (update s auth us w)
  serve (UserRequest.changing_email id email token) w = unanswered (update_email s id email token w)
  serve (UserRequest.changing_roles us) w = unanswered (update_role s auth us w)
  serve (UserRequest.deleting ids) w = unanswered (delete s auth ids w)
  serve (UserRequest.transferring id) w = unanswered (transfer_super_admin s auth id w)
  serve (UserRequest.restoring ids) w = unanswered (restore s auth ids w)

module _ {T : Backend} (s : UserService T) (auth : User) (w w' : World T) (e : Error) where
  delete-err : (ids : List String) → delete s auth ids w ≡ (err e, w') → w'.db ≡ w.db
  unfolding delete transaction
  delete-err ids h = ground arith

  update_role-err :
      (us : List UserRoleUpdate) → update_role s auth us w ≡ (err e, w') → w'.db ≡ w.db
  unfolding update_role transaction
  update_role-err us h = ground arith

  transfer-err : (id : String) → transfer_super_admin s auth id w ≡ (err e, w') → w'.db ≡ w.db
  unfolding transfer_super_admin transaction
  transfer-err id h = ground arith

  restore-err : (ids : List String) → restore s auth ids w ≡ (err e, w') → w'.db ≡ w.db
  unfolding restore transaction
  restore-err ids h = ground arith

  update-err : (us : List User) → update s auth us w ≡ (err e, w') → w'.db ≡ w.db
  unfolding update transaction
  update-err us h = ground arith

  update_email-err :
      (id email token : String) → update_email s id email token w ≡ (err e, w') → w'.db ≡ w.db
  unfolding update_email transaction
  update_email-err id email token h = ground arith

module _ {T : Backend} (s : UserService T) (auth : User) (w w' : World T) where
  update_role_body-ok :
      (us : List UserRoleUpdate) (committed : T.Db) (r : List User × ℕ)
      → update_role_body s auth us committed w ≡ (ok r, w')
      → (targets : List User) × (s.repo.find_by_ids (map (λ u. u.user_id) us) w.db ≡ ok targets)
        × (update_role_post_fetch auth targets us ≡ ok tt)
  unfolding update_role_body
  update_role_body-ok us committed r h = ground arith

  update_role-run :
      (us : List UserRoleUpdate) (r : List User × ℕ)
      → update_role s auth us w ≡ (ok r, w')
      → (update_role_pre_fetch auth us ≡ ok tt) × (update_role_body s auth us w.db w ≡ (ok r, w'))
  unfolding update_role transaction
  update_role-run us r h = ground arith

  delete-run :
      (ids : List String) (n : ℕ)
      → delete s auth ids w ≡ (ok n, w')
      → (delete_pre_fetch auth ids ≡ ok tt) × (delete_body s auth ids w.db w ≡ (ok n, w'))
  unfolding delete transaction
  delete-run ids n h = ground arith

  delete_body-ok :
      (ids : List String) (committed : T.Db) (n : ℕ)
      → delete_body s auth ids committed w ≡ (ok n, w')
      → (targets : List User) × (s.repo.find_by_ids ids w.db ≡ ok targets)
        × (delete_post_fetch auth targets ≡ ok tt)
  unfolding delete_body
  delete_body-ok ids committed n h = ground arith

module _ {T : Backend} (s : UserService T) where
  -- Drawing the wallets counts the draws and changes nothing else.
  store_generate_wallets-keeps :
      (us : List User) (w : World T)
      → (store_generate_wallets s us w).1
        ≡ record w { drawn = (store_generate_wallets s us w).1.drawn }
  unfolding store_generate_wallets generate_wallet
  store_generate_wallets-keeps [] w = refl
  store_generate_wallets-keeps (u ∷ us) w =
      ground (arith, store_generate_wallets-keeps us (record w { drawn = suc w.drawn }))

  store-err :
      (auth : User) (us : List User) (w w' : World T) (e : Error)
      → store s auth us w ≡ (err e, w')
      → w'.db ≡ w.db
  unfolding store transaction
  store-err auth us w w' e h = ground (arith, store_generate_wallets-keeps us w)

  -- Creation, update, change of email, change of roles, deletion, transfer and restoration: each
  -- of them leaves the database as it was when it fails, whichever step failed.
  pub failed_operation_keeps_users :
      (auth : User) (r : UserRequest) (w w' : World T) (e : Error)
      → serve s auth r w ≡ (err e, w')
      → w'.db ≡ w.db
  unfolding serve
  failed_operation_keeps_users auth (UserRequest.storing us) w w' e h =
      store-err auth us w w' e (unanswered-err _ w' e h)
  failed_operation_keeps_users auth (UserRequest.updating us) w w' e h =
      update-err s auth w w' e us (unanswered-err _ w' e h)
  failed_operation_keeps_users auth (UserRequest.changing_email id email token) w w' e h =
      update_email-err s auth w w' e id email token (unanswered-err _ w' e h)
  failed_operation_keeps_users auth (UserRequest.changing_roles us) w w' e h =
      update_role-err s auth w w' e us (unanswered-err _ w' e h)
  failed_operation_keeps_users auth (UserRequest.deleting ids) w w' e h =
      delete-err s auth w w' e ids (unanswered-err _ w' e h)
  failed_operation_keeps_users auth (UserRequest.transferring id) w w' e h =
      transfer-err s auth w w' e id (unanswered-err _ w' e h)
  failed_operation_keeps_users auth (UserRequest.restoring ids) w w' e h =
      restore-err s auth w w' e ids (unanswered-err _ w' e h)

  -- A change of roles that succeeds made nobody a super admin and did not name the caller, and
  -- each user that it names was found, is not trashed, changes role, and stays within the caller's
  -- reach, as does the role.
  pub update_role-allowed :
      (auth : User) (us : List UserRoleUpdate) (w w' : World T) (r : List User × ℕ)
      → update_role s auth us w ≡ (ok r, w')
      → (targets : List User) × (s.repo.find_by_ids (map (λ u. u.user_id) us) w.db ≡ ok targets)
        × All (λ u. (u.role ≢ Role.super_admin) × (u.user_id ≢ auth.id)) us
        × All (MayAssign auth targets) us
  update_role-allowed auth us w w' r h =
      let (pre, run) = update_role-run s auth w w' us r h in
      let (targets, found, post) = update_role_body-ok s auth w w' us w.db r run in
      let (a, b) = update_role-ok auth targets us pre post in (targets, found, a, b)

  delete_pre-ok : (auth : User) (id : String) → delete_pre_one auth id ≡ ok tt → id ≢ auth.id
  unfolding delete_pre_one
  delete_pre-ok auth id h q = ground (arith, eq_iff id auth.id)

  -- A deletion that succeeds did not name the caller, and found no row beyond the caller's reach.
  pub delete-allowed :
      (auth : User) (ids : List String) (w w' : World T) (n : ℕ)
      → delete s auth ids w ≡ (ok n, w')
      → All (λ id. id ≢ auth.id) ids
        × (targets : List User) × (s.repo.find_by_ids ids w.db ≡ ok targets)
        × All (MayTouch auth) targets
  unfolding delete_pre_fetch
  delete-allowed auth ids w w' n h =
      let (pre, run) = delete-run s auth w w' ids n h in
      let (targets, found, post) = delete_body-ok s auth w w' ids w.db n run in
      (
        All-map (delete_pre-ok auth) ids (check_all-ok (delete_pre_one auth) ids pre),
        targets,
        found,
        delete_post_fetch-ok auth targets post,
      )

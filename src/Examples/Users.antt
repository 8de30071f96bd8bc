-- ===== src/Examples/Users.antt =====
-- The user operations, run on a table of three users.
mod Batches
use cred_chain_golang.Base.{
  ℕ, suc, ◌≡◌, ◌≢◌, refl, Bool, true, false, String, List, [], ◌∷◌, ◌++◌, All, map, Option, none,
  some, contains, slice_to_map, uniq, uniq_from, length, if◌then◌else◌, ◌==◌, arith, eq_iff,
}
use cred_chain_golang.Domain.Role.{Role, role_eq, rank}
use cred_chain_golang.Domain.Fault.{
  Error, raw, domain, Result, ok, err, user_role_blockchain_sync_failed,
}
use cred_chain_golang.Domain.User.{User, UserRoleUpdate, Wallet, wallet_from_user, empty_user}
use cred_chain_golang.Effect.{Backend, World, transaction, check_all}
use cred_chain_golang.User.Ports.{UserService}
use cred_chain_golang.User.Policy.{
  store_policy, store_one, update_post_fetch, update_target, update_change, update_role_pre_fetch,
  update_role_pre_one, update_role_post_fetch, update_role_target, delete_pre_fetch, delete_pre_one,
  delete_post_fetch, delete_one, transfer_pre_fetch,
}
use cred_chain_golang.User.Policy.Escalation.{
  MayGrant, MayTouch, MayAssign, store_policy-ok, update_post_fetch-ok,
}
use cred_chain_golang.User.Service.{
  as_code, role_row, live_targets, revocation_users, transfer_target, transfer_row,
  sync_blockchain_roles, revoke_roles, delete_found, delete_body, delete, transfer_on_chain,
  transfer_body, transfer_super_admin, restore,
}
use cred_chain_golang.User.Service.Create.{
  duplicate_emails, taken_emails, unit_ids, with_wallet, store_validate_emails,
  validate_units_active, generate_wallet, store_generate_wallets, store_body, store,
}
use cred_chain_golang.User.Service.Change.{
  filtered_user, target_of, role_chain_users, role_update_row, update_role_body, update_role,
  update, update_email,
}
use cred_chain_golang.User.Service.Outcome.{
  UserRequest, serve, failed_operation_keeps_users, update_role-allowed, delete-allowed,
}
use cred_chain_golang.User.Service.Sync.{
  IsRoleChange, IsDeletion, role_changes, role_chain_users_lem, update_role-synced, delete-synced,
  is_ok, transfer-ok, transfer_splits_roles,
}
use cred_chain_golang.User.Service.Batch.{Unique, store-ok}

abbrev among : List String → User → Bool
among [] u = false
among (id ∷ ids) u = if id == u.id then true else among ids u

abbrev keep_users : (User → Bool) → List User → List User
keep_users p [] = []
keep_users p (u ∷ us) = if p u then u ∷ keep_users p us else keep_users p us

abbrev email_among : List String → User → Bool
email_among [] u = false
email_among (e ∷ es) u = if e == u.email then true else email_among es u

-- The role that a list of rows gives to a user.
abbrev role_among : List User → User → User
role_among [] u = u
role_among (r ∷ rs) u = if r.id == u.id then record u { role = r.role } else role_among rs u

abbrev table : Backend
table = record { Db = List User; Chain = List User; Queue = ℕ; Files = ℕ; Cache = ℕ }

-- The contract's log of the rows that it was given stands for the chain.
abbrev users : UserService table
users = record {
  begin = λ db. ok tt;
  commit = λ db. ok tt;
  repo = record {
    find = λ id db. ok none;
    find_by_ids = λ ids db. ok (keep_users (among ids) db);
    find_by_emails = λ emails db. ok (keep_users (email_among emails) db);
    store = λ us db. (ok us, db ++ us);
    update = λ us db. (ok us, db);
    update_role = λ us db. (ok (us, length us), map (role_among us) db);
    delete = λ ids db. (ok (length ids), keep_users (λ u. if among ids u then false else true) db);
    restore = λ ids db. (ok (length ids), db);
  };
  find_units = λ ids db. ok [];
  revoke_refresh_tokens = λ id db. (ok 1, db);
  authority = record {
    update_user_role = λ signer us log. (ok tt, log ++ us);
    transfer_super_admin = λ signer u log. (ok tt, log ++ u ∷ []);
  };
  token_email = λ token. ok token;
  generate_wallet = λ n. ok (record { address = "W"; encrypted_private_key = "K" });
}

abbrev root : User
root = record empty_user { id = "S"; email = "s@x"; role = Role.super_admin; wallet_address = "WS" }

abbrev clerk : User
clerk = record empty_user { id = "A"; email = "a@x"; role = Role.admin; wallet_address = "WA" }

abbrev student : User
student = record empty_user { id = "H"; email = "h@x"; role = Role.holder; wallet_address = "WH" }

abbrev now : World table
now = record {
  db = root ∷ clerk ∷ student ∷ [];
  chain = [];
  queue = 0;
  files = 0;
  cache = 0;
  drawn = 0;
}

abbrev promotions : List UserRoleUpdate
promotions = record { user_id = "H"; role = Role.issuer } ∷ []

abbrev after_promotion : World table
after_promotion = (update_role users clerk promotions now).1

abbrev issuer_row : User
issuer_row = record student { role = Role.issuer }

promotion_run : update_role users clerk promotions now ≡ (ok (issuer_row ∷ [], 1), after_promotion)
unfolding update_role update_role_pre_fetch update_role_pre_one role_eq check_all transaction
    update_role_body update_role_post_fetch update_role_target rank slice_to_map role_update_row
    target_of sync_blockchain_roles as_code
promotion_run = refl

update_role-synced_example :
    IsRoleChange users clerk now after_promotion promotions (issuer_row ∷ [], 1)
update_role-synced_example =
    update_role-synced users clerk now after_promotion promotions (issuer_row ∷ [], 1) promotion_run

update_role-allowed_example :
    (targets : List User) × (users.repo.find_by_ids ("H" ∷ []) now.db ≡ ok targets)
    × All (λ u. (u.role ≢ Role.super_admin) × (u.user_id ≢ clerk.id)) promotions
    × All (MayAssign clerk targets) promotions
update_role-allowed_example =
    update_role-allowed users clerk promotions now after_promotion (issuer_row ∷ [], 1)
      promotion_run

abbrev after_deletion : World table
after_deletion = (delete users clerk ("H" ∷ []) now).1

deletion_run : delete users clerk ("H" ∷ []) now ≡ (ok 1, after_deletion)
unfolding delete delete_pre_fetch delete_pre_one check_all transaction delete_body delete_post_fetch
    delete_one rank delete_found live_targets revoke_roles revocation_users role_row
    sync_blockchain_roles as_code
deletion_run = refl

delete-synced_example : IsDeletion users clerk now after_deletion ("H" ∷ []) 1
delete-synced_example = delete-synced users clerk now after_deletion ("H" ∷ []) 1 deletion_run

-- The same service where the contract cannot be reached.
abbrev offline : UserService table
offline = record users {
  authority = record {
    update_user_role = λ signer us log. (err (raw "rpc"), log);
    transfer_super_admin = λ signer u log. (err (raw "rpc"), log);
  };
}

abbrev offline_error : Error
offline_error = domain user_role_blockchain_sync_failed []

-- The database has the new role when the contract is called.
abbrev after_offline : World table
after_offline = (serve offline clerk (UserRequest.changing_roles promotions) now).1

offline_run :
    serve offline clerk (UserRequest.changing_roles promotions) now
    ≡ (err offline_error, after_offline)
unfolding serve update_role update_role_pre_fetch update_role_pre_one role_eq check_all transaction
    update_role_body update_role_post_fetch update_role_target rank slice_to_map role_update_row
    target_of sync_blockchain_roles as_code
offline_run = refl

failed_operation_keeps_users_example : after_offline.db ≡ root ∷ clerk ∷ student ∷ []
failed_operation_keeps_users_example =
    failed_operation_keeps_users offline clerk (UserRequest.changing_roles promotions) now
      after_offline offline_error offline_run

abbrev after_transfer : World table
after_transfer = (transfer_super_admin users root "A" now).1

transfer_run : transfer_super_admin users root "A" now ≡ (ok tt, after_transfer)
unfolding transfer_super_admin transfer_pre_fetch transaction transfer_body transfer_target
    transfer_on_chain as_code transfer_row role_row
transfer_run = refl

transfer-ok_example :
    (root.id ≢ clerk.id)
    × (t : User) × (ts : List User) × (users.repo.find_by_ids ("A" ∷ []) now.db ≡ ok (t ∷ ts))
    × (t.deleted_at ≡ none)
    × (users.authority.transfer_super_admin (wallet_from_user root) t now.chain
        ≡ (ok tt, after_transfer.chain))
    × (is_ok
          (users.repo.update_role
            (record empty_user {
              id = root.id;
              wallet_address = root.wallet_address;
              encrypted_wallet_private_key = root.encrypted_wallet_private_key;
              role = Role.admin;
            }
              ∷ record empty_user {
                id = t.id;
                wallet_address = t.wallet_address;
                encrypted_wallet_private_key = t.encrypted_wallet_private_key;
                role = Role.super_admin;
              }
              ∷ [])
            now.db).0
        ≡ true)
transfer-ok_example = transfer-ok users root now after_transfer "A" transfer_run

-- The same service where the write of the roles fails.
abbrev read_only : UserService table
read_only = record users {
  repo = record users.repo { update_role = λ us db. (err (raw "locked"), db) };
}

different : root.id ≢ clerk.id
different e = ground (arith, eq_iff "S" "A")

transfer_splits_roles_example :
    transfer_super_admin read_only root "A" now
    ≡ (err (raw "locked"), record now { chain = clerk ∷ [] })
transfer_splits_roles_example =
    transfer_splits_roles read_only root now now "A" clerk [] (clerk ∷ []) now.db (raw "locked")
      different refl refl refl refl refl

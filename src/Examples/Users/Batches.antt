-- ===== src/Examples/Users/Batches.antt =====
-- Store, Update and their policy, run on small batches.
use cred_chain_golang.Base.{◌≡◌, refl, false, List, [], ◌∷◌, All, map, contains}
use cred_chain_golang.Domain.Role.{Role, role_eq, rank}
use cred_chain_golang.Domain.Fault.{ok}
use cred_chain_golang.Domain.User.{User, empty_user}
use cred_chain_golang.Effect.{World, transaction, check_all}
use cred_chain_golang.User.Policy.{
  store_policy, store_one, update_post_fetch, update_target, update_change,
}
use cred_chain_golang.User.Policy.Escalation.{MayGrant, MayEdit, MayChange, update_post_fetch-ok}
use cred_chain_golang.User.Service.{as_code, sync_blockchain_roles}
use cred_chain_golang.User.Service.Create.{
  duplicate_emails, taken_emails, unit_ids, with_wallet, store_validate_emails,
  validate_units_active, generate_wallet, store_generate_wallets, store_body, store,
}
use cred_chain_golang.User.Service.Batch.{Unique, store-ok}
use cred_chain_golang.Examples.Users.{table, users, clerk, student, now}

abbrev newcomers : List User
newcomers =
    record empty_user { email = "n@x"; role = Role.holder }
    ∷ record empty_user { email = "m@x"; role = Role.issuer }
    ∷ []

abbrev after_store : World table
after_store = (store users clerk newcomers now).1

abbrev with_key : User → User
with_key u = record u { wallet_address = "W"; encrypted_wallet_private_key = "K" }

abbrev created : List User
created = map with_key newcomers

store_run : store users clerk newcomers now ≡ (ok created, after_store)
unfolding store store_policy store_one role_eq rank check_all store_validate_emails duplicate_emails
    taken_emails contains validate_units_active unit_ids store_generate_wallets generate_wallet
    with_wallet as_code transaction store_body sync_blockchain_roles
store_run = refl

store-ok_example :
    All (λ u. MayGrant clerk u.role) newcomers
    × Unique (map (λ u. u.email) newcomers)
    × All (λ u. contains [] u.email ≡ false) newcomers
store-ok_example = store-ok users newcomers clerk now after_store created store_run

policy_run : store_policy clerk newcomers ≡ ok tt
unfolding store_policy store_one role_eq rank check_all
policy_run = refl

post_fetch_run : update_post_fetch clerk (student ∷ []) (record student { email = "" } ∷ []) ≡ ok tt
unfolding update_post_fetch update_target update_change role_eq rank check_all
post_fetch_run = refl

update_post_fetch-ok_example :
    All (MayEdit clerk) (student ∷ []) × All (MayChange clerk) (record student { email = "" } ∷ [])
update_post_fetch-ok_example =
    update_post_fetch-ok clerk (student ∷ []) (record student { email = "" } ∷ []) post_fetch_run

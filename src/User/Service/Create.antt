-- ===== src/User/Service/Create.antt =====
-- feature/user/user_service.go: Store, with the validations that Update shares.
use cred_chain_golang.Base.{
  ℕ, suc, String, List, [], ◌∷◌, map, Bool, false, not, Option, none, some, is_empty, slice_to_map,
  uniq, contains, if◌then◌else◌, ◌==◌,
}
use cred_chain_golang.Domain.Fault.{
  validation, ValidationErrors, item, Result, ok, err, user_store_wallet_generation_failed,
  user_store_blockchain_sync_failed,
}
use cred_chain_golang.Domain.User.{User, Wallet}
use cred_chain_golang.Effect.{Backend, M, ◌>>=◌, ◌>>◌, pure, lift, read_db, on_db, transaction}
use cred_chain_golang.User.Ports.{UserService, UserUnit}
use cred_chain_golang.User.Policy.{store_policy}
use cred_chain_golang.User.Service.{as_code, sync_blockchain_roles}

-- A read whose error the code drops: `existing, _ := ...`.
abbrev pub or_nil : {A : Type 0} → Result (List A) → List A
or_nil (ok xs) = xs
or_nil (err e) = []

-- The first pass over the batch: `seen` maps an email to its last index. The map of errors is a list of
-- its assignments.
unfoldable pub duplicate_emails : (String → Option ℕ) → ℕ → List User → ValidationErrors
duplicate_emails seen i [] = []
duplicate_emails seen i (u ∷ us) =
    let rest = duplicate_emails (λ k. if u.email == k then some i else seen k) (suc i) us in
    elim (seen u.email) [
      | none ↦ rest
      | some prev ↦
          (item i "email", "validation_store_email_duplicate_batch")
          ∷ (item prev "email", "validation_store_email_duplicate_batch")
          ∷ rest
    ]

-- The second pass, over the emails that the database has.
unfoldable pub taken_emails : List String → ℕ → List User → ValidationErrors
taken_emails existing i [] = []
taken_emails existing i (u ∷ us) =
    let rest = taken_emails existing (suc i) us in
    if contains existing u.email
    then (item i "email", "validation_store_email_duplicate_db") ∷ rest
    else rest

unfoldable pub unit_ids : List User → List String
unit_ids [] = []
unit_ids (u ∷ us) = let rest = unit_ids us in elim u.unit_id [ none ↦ rest | some id ↦ id ∷ rest ]

-- `u.UnitID != nil && inactive[*u.UnitID]`
unfoldable pub unit_inactive : List UserUnit → User → Bool
unit_inactive units u = elim u.unit_id [
  | none ↦ false
  | some id ↦ elim (slice_to_map (λ unit. unit.id) (λ unit. not unit.active) units id) [
    | none ↦ false
    | some inactive ↦ inactive
  ]
]

unfoldable pub inactive_units : List UserUnit → ℕ → List User → ValidationErrors
inactive_units units i [] = []
inactive_units units i (u ∷ us) =
    let rest = inactive_units units (suc i) us in
    if unit_inactive units u then (item i "unit_id", "validation_unit_inactive") ∷ rest else rest

-- `if verrs := ...; len(verrs) > 0 { return verrs }`
abbrev pub unless_invalid : ValidationErrors → Result (Unit {0})
unless_invalid [] = ok tt
unless_invalid (v ∷ vs) = err (validation (v ∷ vs))

unfoldable pub with_wallet : User → Wallet → User
with_wallet u wallet = record u {
  wallet_address = wallet.address;
  encrypted_wallet_private_key = wallet.encrypted_private_key;
}

module _ {T : Backend} (s : UserService T) where
  unfoldable pub store_validate_emails : List User → T.Db → ValidationErrors
  store_validate_emails users db =
      let batch = duplicate_emails (λ k. none) 0 users in
      if is_empty batch
      then taken_emails
          (map (λ e. e.email) (or_nil (s.repo.find_by_emails (map (λ u. u.email) users) db))) 0
          users
      else batch

  unfoldable pub validate_units_active : List User → T.Db → ValidationErrors
  validate_units_active users db =
      if is_empty (unit_ids users)
      then []
      else inactive_units (or_nil (s.find_units (uniq (unit_ids users)) db)) 0 users

  unfoldable pub generate_wallet : M T Wallet
  generate_wallet w = (
    as_code user_store_wallet_generation_failed [] (s.generate_wallet w.drawn),
    record w { drawn = suc w.drawn },
  )

  unfoldable pub store_generate_wallets : List User → M T (List User)
  store_generate_wallets [] = pure []
  store_generate_wallets (u ∷ us) = do
    wallet ← generate_wallet
    rest ← store_generate_wallets us
    pure (with_wallet u wallet ∷ rest)

  module _ (auth : User) where
    unfoldable pub store_body : List User → T.Db → M T (List User)
    store_body users committed = do
      created ← on_db (s.repo.store users)
      sync_blockchain_roles s auth users user_store_blockchain_sync_failed
      pure created

    unfoldable pub store : List User → M T (List User)
    store users = do
      lift (store_policy auth users)
      read_db (λ db. unless_invalid (store_validate_emails users db))
      read_db (λ db. unless_invalid (validate_units_active users db))
      ready ← store_generate_wallets users
      transaction s.begin s.commit (store_body ready)

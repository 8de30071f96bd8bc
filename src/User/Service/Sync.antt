-- ===== src/User/Service/Sync.antt =====
-- The users' roles on both sides, feature/user/user_service.go: the rows that the database gets and
-- the rows that the contract gets.
use cred_chain_golang.Base.{
  some, Option, slice_to_map, Aligned, map_of_All-Aligned, Filtered, Filtered-out, Bool, ◌≡◌, ◌∙◌,
  ap, ◌≢◌, refl, ℕ, String, List, [], ◌∷◌, map, none, Bool-cases, inl, inr, arith, true, false,
  if◌then◌else◌, eq_iff,
}
use cred_chain_golang.Domain.Role.{Role, role_eq}
use cred_chain_golang.Domain.Fault.{Error, Result, ok, err}
use cred_chain_golang.Domain.User.{empty_user, User, UserRoleUpdate, wallet_from_user}
use cred_chain_golang.Effect.{Backend, World, transaction}
use cred_chain_golang.User.Policy.{
  transfer_pre_fetch, update_role_pre_fetch, update_role_post_fetch,
}
use cred_chain_golang.User.Policy.Escalation.{MayAssign, update_role-ok}
use cred_chain_golang.Domain.Clock.{Time}
use mathlib.Core.Path.{subst}
use cred_chain_golang.User.Ports.{UserService}
use cred_chain_golang.User.Service.{
  delete, transfer_super_admin, role_row, transfer_row, transfer_body, transfer_target,
  transfer_on_chain, as_code, live_targets, revocation_users, delete_body, delete_found,
  revoke_roles, sync_blockchain_roles, transfer_pre_fetch,
}
use cred_chain_golang.User.Service.Change.{
  filtered_user, target_of, role_chain_users, update_role, update_role_body, role_update_row,
}

-- The rows of a list that carry a role.
unfoldable pub role_changes : List User → List User
role_changes [] = []
role_changes (u ∷ us) =
    let rest = role_changes us in if role_eq u.role Role.unset then rest else u ∷ rest

-- The contract gets the roles that the database gets: of the rows that `Update` writes, those with a role,
-- in their order, each with its target's wallet.
pub role_chain_users_lem :
    (targets us : List User)
    → role_chain_users targets us
      ≡ map
          (λ u. role_row (target_of targets u.id) u.role)
          (role_changes (map (filtered_user targets) us))
unfolding role_chain_users role_changes filtered_user role_eq
role_chain_users_lem targets [] = refl
role_chain_users_lem targets (u ∷ us) = elim (Bool-cases (role_eq u.role Role.unset)) [
  | inl a ↦ elim (Bool-cases (role_eq u.role (target_of targets u.id).role)) [
    | inl b ↦ simp (a, b, role_chain_users_lem targets us)
    | inr b ↦ simp (a, b, role_chain_users_lem targets us)
  ]
  | inr a ↦ elim (Bool-cases (role_eq u.role (target_of targets u.id).role)) [
    | inl b ↦ simp (a, b, role_chain_users_lem targets us)
    | inr b ↦ simp (a, b, role_chain_users_lem targets us)
  ]
]

abbrev pub is_ok {ℓ} : {A : Type ℓ} → Result A → Bool
is_ok (ok a) = true
is_ok (err e) = false

-- The row of a role update: the found user of its id, with the new role.
pub record IsRoleRow (targets : List User) (u : UserRoleUpdate) (r : User) : Type 0 where
  pub target : User
  pub found : slice_to_map (λ t. t.id) (λ t. t) targets u.user_id ≡ some target
  pub row : r ≡ record target { role = u.role }

role_update_row-IsRoleRow :
    (auth : User) (targets : List User) (u : UserRoleUpdate)
    → MayAssign auth targets u
    → IsRoleRow targets u (role_update_row targets u)
unfolding role_update_row target_of
role_update_row-IsRoleRow auth targets u m =
    let found = m.found in record { target = m.target; found = found; row = ground arith }

-- The row that takes a role on chain: the wallet of the user, without an id.
abbrev pub IsRoleless : User → User → Type 0
IsRoleless t r =
    (t.deleted_at ≡ none)
    × (r ≡ record empty_user {
      wallet_address = t.wallet_address;
      encrypted_wallet_private_key = t.encrypted_wallet_private_key;
      role = Role.none;
    })

-- One row for each live user, in their order.
abbrev pub AreRoleless : List User → List User → Type 0
AreRoleless = Filtered (λ t. t.deleted_at ≢ none) IsRoleless

live_targets-AreRoleless : (ts : List User) → AreRoleless ts (revocation_users (live_targets ts))
unfolding revocation_users live_targets role_row
live_targets-AreRoleless [] = tt
live_targets-AreRoleless (t ∷ ts) = pick t.deleted_at refl (live_targets-AreRoleless ts)
  where
    pick :
        (o : Option Time)
        → t.deleted_at ≡ o
        → AreRoleless ts (revocation_users (live_targets ts))
        → AreRoleless (t ∷ ts) (revocation_users (live_targets (t ∷ ts)))
    pick none e h =
        let same : role_row t Role.none ∷ revocation_users (live_targets ts)
            ≡ revocation_users (live_targets (t ∷ ts)) =
          ground arith in
        subst (AreRoleless (t ∷ ts)) same (inr ((e, refl), h))
    pick (some d) e h =
        let same : revocation_users (live_targets ts) ≡ revocation_users (live_targets (t ∷ ts)) =
          ground arith in
        subst (AreRoleless (t ∷ ts)) same (Filtered-out _ _ t ts _ (λ n. ground arith) h)

module _ {T : Backend} (s : UserService T) (auth : User) (w w' : World T) where
  -- What a change of roles wrote on both sides.
  pub record IsRoleChange (us : List UserRoleUpdate) (r : List User × ℕ) : Type 0 where
    pub targets : List User
    pub rows : List User
    pub found : s.repo.find_by_ids (map (λ u. u.user_id) us) w.db ≡ ok targets
    pub named : Aligned (IsRoleRow targets) us rows
    pub stored : s.repo.update_role rows w.db ≡ (ok r, w'.db)
    pub synced :
        s.authority.update_user_role (wallet_from_user auth) rows w.chain ≡ (ok tt, w'.chain)

  role_change-run :
      (us : List UserRoleUpdate) (r : List User × ℕ)
      → update_role s auth us w ≡ (ok r, w')
      → (targets : List User) × (s.repo.find_by_ids (map (λ u. u.user_id) us) w.db ≡ ok targets)
        × (update_role_pre_fetch auth us ≡ ok tt)
        × (update_role_post_fetch auth targets us ≡ ok tt)
        × (s.repo.update_role (map (role_update_row targets) us) w.db ≡ (ok r, w'.db))
        × (s.authority.update_user_role
              (wallet_from_user auth)
              (map (role_update_row targets) us)
              w.chain
            ≡ (ok tt, w'.chain))
  unfolding update_role transaction update_role_body sync_blockchain_roles as_code
  role_change-run us r h = ground arith

  -- A change of roles that succeeds wrote the same rows on both sides: for each request, in their order,
  -- the row that was found for its id with the role that it asks for.
  pub update_role-synced :
      (us : List UserRoleUpdate) (r : List User × ℕ)
      → update_role s auth us w ≡ (ok r, w')
      → IsRoleChange us r
  update_role-synced us r h =
      let (targets, found, pre, post, stored, synced) = role_change-run us r h in
      record {
        targets = targets;
        rows = map (role_update_row targets) us;
        found = found;
        named =
            map_of_All-Aligned (IsRoleRow targets) (role_update_row targets)
              (role_update_row-IsRoleRow auth targets) us
              (update_role-ok auth targets us pre post).1;
        stored = stored;
        synced = synced;
      }

  -- The rows are deleted, unless none was found.
  abbrev pub Deleted : List String → ℕ → List User → Type 0
  Deleted ids n [] = (n ≡ 0) × (w'.db ≡ w.db)
  Deleted ids n (t ∷ ts) = s.repo.delete ids w.db ≡ (ok n, w'.db)

  -- The contract is called with the rows, unless there is none.
  abbrev pub RolesTaken : List User → Type 0
  RolesTaken [] = w'.chain ≡ w.chain
  RolesTaken (r ∷ rs) =
      s.authority.update_user_role (wallet_from_user auth) (r ∷ rs) w.chain ≡ (ok tt, w'.chain)

  -- What a deletion did on both sides.
  pub record IsDeletion (ids : List String) (n : ℕ) : Type 0 where
    pub targets : List User
    pub rows : List User
    pub found : s.repo.find_by_ids ids w.db ≡ ok targets
    pub deleted : Deleted ids n targets
    pub roleless : AreRoleless targets rows
    pub taken : RolesTaken rows

  delete-found :
      (ids : List String) (n : ℕ)
      → delete s auth ids w ≡ (ok n, w')
      → (targets : List User) × (s.repo.find_by_ids ids w.db ≡ ok targets)
  unfolding delete transaction delete_body
  delete-found ids n h = ground arith

  delete-rows :
      (ids : List String) (n : ℕ) (targets : List User)
      → s.repo.find_by_ids ids w.db ≡ ok targets
      → delete s auth ids w ≡ (ok n, w')
      → Deleted ids n targets
  unfolding delete transaction delete_body delete_found revoke_roles sync_blockchain_roles as_code
  delete-rows ids n [] f h = (ground arith, ground arith)
  delete-rows ids n (t ∷ ts) f h = ground arith

  delete-taken :
      (ids : List String) (n : ℕ) (targets live : List User)
      → s.repo.find_by_ids ids w.db ≡ ok targets
      → live_targets targets ≡ live
      → delete s auth ids w ≡ (ok n, w')
      → RolesTaken (revocation_users live)
  unfolding delete transaction delete_body delete_found revoke_roles revocation_users
      sync_blockchain_roles as_code live_targets
  delete-taken ids n [] [] f l h = ground arith
  delete-taken ids n [] (x ∷ xs) f l h = absurd (ground arith)
  delete-taken ids n (t ∷ ts) [] f l h = ground arith
  delete-taken ids n (t ∷ ts) (x ∷ xs) f l h = ground arith

  -- A deletion that succeeds deleted the rows, if it found any, and took the role of every live one on
  -- chain, in one call with the wallets of the live ones in their order, or none where none is live.
  pub delete-synced :
      (ids : List String) (n : ℕ) → delete s auth ids w ≡ (ok n, w') → IsDeletion ids n
  delete-synced ids n h =
      let (targets, found) = delete-found ids n h in
      record {
        targets = targets;
        rows = revocation_users (live_targets targets);
        found = found;
        deleted = delete-rows ids n targets found h;
        roleless = live_targets-AreRoleless targets;
        taken = delete-taken ids n targets (live_targets targets) found refl h;
      }

  -- The target that a transfer found is the first row, and is live.
  transfer_target-ok :
      (target_id : String) (ts : List User) (t : User)
      → transfer_target target_id ts ≡ ok t
      → (rest : List User) × (ts ≡ t ∷ rest) × (t.deleted_at ≡ none)
  unfolding transfer_target
  transfer_target-ok target_id ts t h = ground arith

  transfer-run :
      (target_id : String)
      → transfer_super_admin s auth target_id w ≡ (ok tt, w')
      → (transfer_pre_fetch auth target_id ≡ ok tt)
        × (transfer_body s auth target_id w.db w ≡ (ok tt, w'))
  unfolding transfer_super_admin transaction
  transfer-run target_id h = ground arith

  transfer_found :
      (target_id : String) (committed : T.Db)
      → transfer_body s auth target_id committed w ≡ (ok tt, w')
      → (ts : List User) × (t : User) × (s.repo.find_by_ids (target_id ∷ []) w.db ≡ ok ts)
        × (transfer_target target_id ts ≡ ok t)
  unfolding transfer_body
  transfer_found target_id committed h = ground arith

  transfer_wrote :
      (target_id : String) (committed : T.Db) (ts : List User) (t : User)
      → s.repo.find_by_ids (target_id ∷ []) w.db ≡ ok ts
      → transfer_target target_id ts ≡ ok t
      → transfer_body s auth target_id committed w ≡ (ok tt, w')
      → (s.authority.transfer_super_admin (wallet_from_user auth) t w.chain ≡ (ok tt, w'.chain))
        × (is_ok
              (s.repo.update_role
                (transfer_row auth Role.admin ∷ transfer_row t Role.super_admin ∷ [])
                w.db).0
            ≡ true)
  unfolding transfer_body transfer_on_chain as_code
  transfer_wrote target_id committed ts t f g h = (ground arith, ground arith)

  transfer_pre-ok :
      (target_id : String) → transfer_pre_fetch auth target_id ≡ ok tt → auth.id ≢ target_id
  unfolding transfer_pre_fetch
  transfer_pre-ok target_id h q = ground (arith, eq_iff auth.id target_id)

  -- A transfer that succeeds went to the first row found for the target, a live user other than
  -- the caller, was accepted by the contract, and was followed by one write that makes the caller
  -- an admin and the target the super admin, which succeeded.
  pub transfer-ok :
      (target_id : String)
      → transfer_super_admin s auth target_id w ≡ (ok tt, w')
      → (auth.id ≢ target_id)
        × (t : User) × (ts : List User) × (s.repo.find_by_ids (target_id ∷ []) w.db ≡ ok (t ∷ ts))
        × (t.deleted_at ≡ none)
        × (s.authority.transfer_super_admin (wallet_from_user auth) t w.chain ≡ (ok tt, w'.chain))
        × (is_ok
              (s.repo.update_role
                (record empty_user {
                  id = auth.id;
                  wallet_address = auth.wallet_address;
                  encrypted_wallet_private_key = auth.encrypted_wallet_private_key;
                  role = Role.admin;
                }
                  ∷ record empty_user {
                    id = t.id;
                    wallet_address = t.wallet_address;
                    encrypted_wallet_private_key = t.encrypted_wallet_private_key;
                    role = Role.super_admin;
                  }
                  ∷ [])
                w.db).0
            ≡ true)
  unfolding transfer_row role_row
  transfer-ok target_id h =
      let (pre, run) = transfer-run target_id h in
      let (ts, t, found, target) = transfer_found target_id w.db run in
      let (chain, wrote) = transfer_wrote target_id w.db ts t found target run in
      let (rest, shape, live) = transfer_target-ok target_id ts t target in
      (transfer_pre-ok target_id pre, t, rest, found ∙ ap ok shape, live, chain, wrote)

  -- The contract is called before the database: where it accepts the transfer to a live target
  -- other than the caller, and the write of the roles then fails, the request fails with that
  -- error, the database is as it was, and the chain keeps the transfer.
  pub transfer_splits_roles :
      (target_id : String) (t : User) (ts : List User) (c : T.Chain) (d : T.Db) (e : Error)
      → auth.id ≢ target_id
      → s.begin w.db ≡ ok tt
      → s.repo.find_by_ids (target_id ∷ []) w.db ≡ ok (t ∷ ts)
      → t.deleted_at ≡ none
      → s.authority.transfer_super_admin (wallet_from_user auth) t w.chain ≡ (ok tt, c)
      → s.repo.update_role
          (transfer_row auth Role.admin ∷ transfer_row t Role.super_admin ∷ [])
          w.db
        ≡ (err e, d)
      → transfer_super_admin s auth target_id w ≡ (err e, record w { chain = c })
  unfolding transfer_super_admin transfer_pre_fetch transaction transfer_body transfer_target
      transfer_on_chain as_code
  transfer_splits_roles target_id t ts c d e n b f l k u = ground (arith, eq_iff auth.id target_id)

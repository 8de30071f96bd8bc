-- ===== src/User/Policy/Escalation.antt =====
-- No privilege escalation: what an administrator, and anybody, may grant and touch.
use cred_chain_golang.Base.{
  All-map, ◌≡◌, ◌≢◌, ◌<◌, List, [], ◌∷◌, All, none, arith, slice_to_map, some, Option-cases,
  Bool-cases, false, inl, inr, ap, sym, ◌∙◌, eq_iff, nat_eq,
}
use cred_chain_golang.Domain.Role.{Role, rank, role_eq, role_eq_refl}
use cred_chain_golang.Domain.User.{User, UserRoleUpdate}
use cred_chain_golang.Domain.Fault.{ok}
use cred_chain_golang.Effect.{check_all}
use cred_chain_golang.Effect.Laws.{check_all-ok}
use cred_chain_golang.User.Policy.{
  store_one, update_target, update_change, update_role_target, delete_post_fetch, update_post_fetch,
  store_policy, update_role_pre_fetch, update_role_post_fetch, update_role_pre_one, delete_one,
}

-- A role that `auth` may hand out: never super admin, and below admin where `auth` is an admin.
pub record MayGrant (auth : User) (r : Role) : Type 0 where
  pub not_super : r ≢ Role.super_admin
  pub below_admin : auth.role ≡ Role.admin → rank r < rank Role.admin

-- A user that `auth` may change: below admin where `auth` is an admin.
pub record MayTouch (auth : User) (t : User) : Type 0 where
  pub below_admin : auth.role ≡ Role.admin → rank t.role < rank Role.admin

module _ (auth : User) where
  store_one-ok : (u : User) → store_one auth u ≡ ok tt → MayGrant auth u.role
  unfolding store_one role_eq rank
  store_one-ok u h = ground arith

  -- A user whom a batch update may change: not trashed, no super admin but the caller, and below
  -- admin where the caller is an admin.
  pub record MayEdit (t : User) : Type 0 where
    pub live : t.deleted_at ≡ none
    pub not_super : t.role ≡ Role.super_admin → t.id ≡ auth.id
    pub reach : MayTouch auth t

  -- What a batch update may set: a role that the caller may hand out, and no email of the caller's own.
  pub record MayChange (u : User) : Type 0 where
    pub grant : MayGrant auth u.role
    pub own_email : u.id ≡ auth.id → u.email ≡ ""

  update_target-ok : (t : User) → update_target auth t ≡ ok tt → MayEdit t
  unfolding update_target role_eq rank
  update_target-ok t h = record {
    live = ground arith;
    not_super = λ e. ground (arith, eq_iff t.id auth.id);
    reach = record { below_admin = λ e. ground arith };
  }

  update_change-ok : (u : User) → update_change auth u ≡ ok tt → MayChange u
  unfolding update_change role_eq rank
  update_change-ok u h = record {
    grant = record { not_super = λ e. ground arith; below_admin = λ e. ground arith };
    own_email = λ e. ground (arith, eq_iff u.id auth.id, eq_iff u.email "");
  }

  -- A batch creation that passes the policy grants no role beyond the caller's reach.
  pub store_policy-ok :
      (us : List User) → store_policy auth us ≡ ok tt → All (λ u. MayGrant auth u.role) us
  unfolding store_policy
  store_policy-ok us h = All-map store_one-ok us (check_all-ok (store_one auth) us h)

  update_post_fetch-parts :
      (ts us : List User)
      → update_post_fetch auth ts us ≡ ok tt
      → (check_all (update_target auth) ts ≡ ok tt) × (check_all (update_change auth) us ≡ ok tt)
  unfolding update_post_fetch
  update_post_fetch-parts ts us h = ground arith

  -- A batch update that passes the check finds no trashed user, no super admin other than the caller
  -- and, where the caller is an admin, nobody of an admin's rank or above; it makes nobody a super
  -- admin and, where the caller is an admin, nobody an admin; and it does not change the caller's email.
  pub update_post_fetch-ok :
      (ts us : List User) → update_post_fetch auth ts us ≡ ok tt → All MayEdit ts × All MayChange us
  update_post_fetch-ok ts us h =
      let p = update_post_fetch-parts ts us h in
      (
        All-map update_target-ok ts (check_all-ok (update_target auth) ts p.0),
        All-map update_change-ok us (check_all-ok (update_change auth) us p.1),
      )

  -- What one role update has to satisfy: another user, who exists, is not trashed and holds another
  -- role, both roles within the caller's reach.
  pub record MayAssign (targets : List User) (u : UserRoleUpdate) : Type 0 where
    pub target : User
    pub found : slice_to_map (λ t. t.id) (λ t. t) targets u.user_id ≡ some target
    pub live : target.deleted_at ≡ none
    pub changes : target.role ≢ u.role
    pub reach : MayTouch auth target
    pub below : auth.role ≡ Role.admin → rank u.role < rank Role.admin

  update_role_target-ok :
      (u : UserRoleUpdate) (t : User)
      → update_role_target auth u (some t) ≡ ok tt
      → (t.deleted_at ≡ none)
        × (role_eq t.role u.role ≡ false)
        × MayTouch auth t
        × (auth.role ≡ Role.admin → rank u.role < rank Role.admin)
  unfolding update_role_target role_eq rank
  update_role_target-ok u t h = ground arith

  update_role_target-none : (u : UserRoleUpdate) → update_role_target auth u none ≡ ok tt → ⊥
  unfolding update_role_target
  update_role_target-none u h = ground arith

  role_target-MayAssign :
      (targets : List User) (u : UserRoleUpdate)
      → update_role_target auth u (slice_to_map (λ t. t.id) (λ t. t) targets u.user_id) ≡ ok tt
      → MayAssign targets u
  role_target-MayAssign targets u h =
      elim (Option-cases (slice_to_map (λ t. t.id) (λ t. t) targets u.user_id)) [
        | inl e ↦ absurd (missing e)
        | inr (t, e) ↦
            let (live, differ, reach, below) =
              update_role_target-ok u t (ap (update_role_target auth u) (sym e) ∙ h) in
            record {
              target = t;
              found = e;
              live = live;
              changes = λ q. ground (arith, role_eq_refl u.role);
              reach = reach;
              below = below;
            }
      ]
    where
      missing : slice_to_map (λ t. t.id) (λ t. t) targets u.user_id ≡ none → ⊥
      missing e = update_role_target-none u (ap (update_role_target auth u) (sym e) ∙ h)

  update_role_pre_one-ok :
      (u : UserRoleUpdate)
      → update_role_pre_one auth u ≡ ok tt
      → (u.role ≢ Role.super_admin) × (u.user_id ≢ auth.id)
  unfolding update_role_pre_one role_eq
  update_role_pre_one-ok u h = (λ q. ground arith, λ q. ground (arith, eq_iff u.user_id auth.id))

  -- The two checks of a batch role update together: nobody is made super admin, nobody changes their
  -- own role, and every target exists, is live, changes role, and stays within the caller's reach.
  pub update_role-ok :
      (targets : List User) (us : List UserRoleUpdate)
      → update_role_pre_fetch auth us ≡ ok tt
      → update_role_post_fetch auth targets us ≡ ok tt
      → All (λ u. (u.role ≢ Role.super_admin) × (u.user_id ≢ auth.id)) us
        × All (MayAssign targets) us
  unfolding update_role_pre_fetch update_role_post_fetch
  update_role-ok targets us h k = (
    All-map update_role_pre_one-ok us (check_all-ok _ us h),
    All-map (role_target-MayAssign targets) us (check_all-ok _ us k),
  )

  delete_one-ok : (t : User) → delete_one auth t ≡ ok tt → MayTouch auth t
  unfolding delete_one rank
  delete_one-ok t h = ground arith

  All-free : (auth.role ≢ Role.admin) → (ts : List User) → All (MayTouch auth) ts
  All-free n [] = tt
  All-free n (t ∷ ts) = (record { below_admin = λ q. absurd (n q) }, All-free n ts)

  -- An admin who passes the check of a batch deletion deletes nobody of their rank or above.
  pub delete_post_fetch-ok :
      (ts : List User) → delete_post_fetch auth ts ≡ ok tt → All (MayTouch auth) ts
  unfolding delete_post_fetch rank
  delete_post_fetch-ok ts h = elim (Bool-cases (nat_eq (rank auth.role) (rank Role.admin))) [
    | inl e ↦ All-map delete_one-ok ts (check_all-ok (delete_one auth) ts (ground arith))
    | inr e ↦ All-free (λ q. ground arith) ts
  ]

-- ===== src/User/Service/Batch.antt =====
-- What a batch that Store accepts satisfies, feature/user/user_service.go.
use cred_chain_golang.Base.{
  All-map, ◌≡◌, refl, ℕ, suc, String, List, [], ◌∷◌, map, All, Option, none, some, arith, false,
  contains, if◌then◌else◌, ◌==◌, eq_iff,
}
use cred_chain_golang.Domain.Fault.{Result, ok, err}
use cred_chain_golang.Domain.User.{User}
use cred_chain_golang.Effect.{Backend, World}
use cred_chain_golang.User.Ports.{UserService}
use cred_chain_golang.User.Policy.{store_policy}
use cred_chain_golang.User.Policy.Escalation.{MayGrant, store_policy-ok}
use cred_chain_golang.User.Service.Create.{
  duplicate_emails, taken_emails, store, store_validate_emails,
}

-- No text of the list stands in it twice.
unfoldable pub Unique : List String → Type 0
Unique [] = Unit
Unique (x ∷ xs) = (contains xs x ≡ false) × Unique xs

contains-none :
    (x : String) (us : List User)
    → All (λ u. (x == u.email) ≡ false) us
    → contains (map (λ u. u.email) us) x ≡ false
unfolding contains
contains-none x [] h = refl
contains-none x (u ∷ us) h =
    ground (arith, contains-none x us h.1, eq_iff x u.email, eq_iff u.email x)

seen_none :
    (seen : String → Option ℕ) (i : ℕ) (x k : String)
    → (if x == k then some i else seen k) ≡ none
    → ((x == k) ≡ false) × (seen k ≡ none)
seen_none seen i x k h = ground arith

-- Where the first pass finds nothing, the emails of the batch are all different, and none was seen before.
duplicate_emails-nil :
    (seen : String → Option ℕ) (i : ℕ) (us : List User)
    → duplicate_emails seen i us ≡ []
    → Unique (map (λ u. u.email) us) × All (λ u. seen u.email ≡ none) us
unfolding duplicate_emails Unique
duplicate_emails-nil seen i [] h = (tt, tt)
duplicate_emails-nil seen i (u ∷ us) h =
    let seen' = λ (k : String). if u.email == k then some i else seen k in
    let (unique, fresh) = duplicate_emails-nil seen' (suc i) us (ground arith) in
    (
      (
        contains-none u.email us (All-map (λ v p. (seen_none seen i u.email v.email p).0) us fresh),
        unique,
      ),
      (ground arith, All-map (λ v p. (seen_none seen i u.email v.email p).1) us fresh),
    )

taken_emails-nil :
    (existing : List String) (i : ℕ) (us : List User)
    → taken_emails existing i us ≡ []
    → All (λ u. contains existing u.email ≡ false) us
unfolding taken_emails
taken_emails-nil existing i [] h = tt
taken_emails-nil existing i (u ∷ us) h =
    (ground arith, taken_emails-nil existing (suc i) us (ground arith))

module _ {T : Backend} (s : UserService T) (users : List User) where
  duplicates-nil :
      (db : T.Db)
      → store_validate_emails s users db ≡ []
      → duplicate_emails (λ k. none) 0 users ≡ []
  unfolding store_validate_emails
  duplicates-nil db h = ground arith

  store_validate_emails-nil :
      (db : T.Db) (existing : List User)
      → s.repo.find_by_emails (map (λ u. u.email) users) db ≡ ok existing
      → store_validate_emails s users db ≡ []
      → taken_emails (map (λ e. e.email) existing) 0 users ≡ []
  unfolding store_validate_emails
  store_validate_emails-nil db existing f h = ground arith

  -- No user of the batch has an email of the rows that a look-up gave; a look-up that failed gave none.
  abbrev pub AreNew : Result (List User) → Type 0
  AreNew (err e) = Unit
  AreNew (ok existing) = All (λ u. contains (map (λ e. e.email) existing) u.email ≡ false) users

  validated-AreNew :
      (db : T.Db) (r : Result (List User))
      → s.repo.find_by_emails (map (λ u. u.email) users) db ≡ r
      → store_validate_emails s users db ≡ []
      → AreNew r
  validated-AreNew db (err e) f h = tt
  validated-AreNew db (ok existing) f h =
      taken_emails-nil (map (λ e. e.email) existing) 0 users
        (store_validate_emails-nil db existing f h)

  store-run :
      (auth : User) (w w' : World T) (created : List User)
      → store s auth users w ≡ (ok created, w')
      → (store_policy auth users ≡ ok tt) × (store_validate_emails s users w.db ≡ [])
  unfolding store
  store-run auth w w' created h = ground arith

  -- A creation that succeeds makes nobody a super admin and, where the caller is an admin, nobody an
  -- admin; it names each email once; and, where the look-up of the emails answered, it names none that
  -- the database holds.
  pub store-ok :
      (auth : User) (w w' : World T) (created : List User)
      → store s auth users w ≡ (ok created, w')
      → All (λ u. MayGrant auth u.role) users
        × Unique (map (λ u. u.email) users)
        × AreNew (s.repo.find_by_emails (map (λ u. u.email) users) w.db)
  store-ok auth w w' created h =
      let (policy, emails) = store-run auth w w' created h in
      (
        store_policy-ok auth users policy,
        (duplicate_emails-nil (λ k. none) 0 users (duplicates-nil w.db emails)).0,
        validated-AreNew w.db _ refl emails,
      )

-- ===== src/Credential/Lifecycle/Reviews.antt =====
-- What Approve, Reject and Revoke of feature/credential/credential_service.go do to the lifecycles of
-- the rows, over the repository of feature/credential/gorm_credential_repository.go.
use cred_chain_golang.Base.{
  if◌then◌else◌, sym, All-map, inl, inr, slice_to_map, Option, ◌≡◌, refl, String, List, [], ◌∷◌,
  map, All, arith, none, some, Option, inr, inl, is_empty,
}
use cred_chain_golang.Effect.Laws.{Result-cases, check_all-ok}
use cred_chain_golang.Credential.Notify.{record_lifecycle_notifications, distinct}
use cred_chain_golang.Credential.Mint.Outcome.{jobs-frame}
use mathlib.Core.Path.{subst}
use cred_chain_golang.Effect.{pure, on_db}
use cred_chain_golang.Credential.Ports.{CredentialNotification}
use cred_chain_golang.Credential.Lifecycle.{Lives, here, next, Move, Stamps, stamps}
use cred_chain_golang.Credential.Lifecycle.Patches.{restamped}
use cred_chain_golang.Domain.Clock.{Time}
use cred_chain_golang.Domain.Fault.{ok, Code, review_blockchain_sync_failed}
use cred_chain_golang.Domain.User.{User, Wallet, wallet_from_user}
use cred_chain_golang.Domain.Credential.{Credential, status}
use cred_chain_golang.Effect.{Backend, World, check_all}
use cred_chain_golang.Credential.Ports.{CredentialService, NotificationType}
use cred_chain_golang.Credential.Table.{Database}
use cred_chain_golang.Credential.Lifecycle.Backing.{
  IsBacked, Advances, Advances-IsPreorder, same-Advances, fetched-Advances, stampless-Advances,
}
use cred_chain_golang.Credential.Guards.{review_status_guard, approve_guard}
use cred_chain_golang.Credential.Review.{
  approval_of, rejection_of, revocation_of, approve_body, reject_body, CredentialRejection,
}
use cred_chain_golang.Credential.Mint.{
  mint_credentials, store_minted, token_update, issuance_of, with_tokens,
}
use cred_chain_golang.Credential.Lifecycle.Patches.{Stamper, Stamping, unstamped}
use cred_chain_golang.Effect.Laws.{Result-cases}
use cred_chain_golang.Credential.Mint.Outcome.{jobs-frame}
use cred_chain_golang.Credential.Review.Approve.{review_includes}

review_status_guard-pending :
    (now : Time) (t : Credential)
    → review_status_guard now t ≡ ok tt
    → (t.activated_at ≡ none) × (t.rejected_at ≡ none) × (t.revoked_at ≡ none)
unfolding review_status_guard status
review_status_guard-pending now t h = ground arith

pub approve_guard-pending :
    (now : Time) (t : Credential)
    → approve_guard now t ≡ ok tt
    → (t.activated_at ≡ none) × (t.rejected_at ≡ none) × (t.revoked_at ≡ none)
unfolding approve_guard
approve_guard-pending now t h = review_status_guard-pending now t (ground arith)

pub approval_of-Stamper :
    (auth : User) (now : Time)
    → Stamper
        (record { activated = some now; rejected = none; revoked = none })
        (approval_of auth now)
unfolding approval_of
approval_of-Stamper auth now = record {
  id = λ c. refl;
  activates = λ c. refl;
  rejects = λ c. refl;
  revokes = λ c. refl;
}

rejection_of-Stamper :
    (auth : User) (now : Time) (reasons : String → Option String)
    → Stamper
        (record { activated = none; rejected = some now; revoked = none })
        (rejection_of auth now reasons)
unfolding rejection_of
rejection_of-Stamper auth now reasons = record {
  id = λ c. refl;
  activates = λ c. refl;
  rejects = λ c. refl;
  revokes = λ c. refl;
}

pub revocation_of-Stamper :
    (auth : User) (now : Time) (reasons : String → Option (Option String))
    → Stamper
        (record { activated = none; rejected = none; revoked = some now })
        (revocation_of auth now reasons)
unfolding revocation_of
revocation_of-Stamper auth now reasons = record {
  id = λ c. refl;
  activates = λ c. refl;
  rejects = λ c. refl;
  revokes = λ c. refl;
}

token_update-Stamping : (cs : List Credential) → Stamping unstamped (map token_update cs)
token_update-Stamping [] = record { activates = tt; rejects = tt; revokes = tt }
token_update-Stamping (c ∷ cs) =
    let rest = token_update-Stamping cs in
    record {
      activates = (refl, rest.activates);
      rejects = (refl, rest.rejects);
      revokes = (refl, rest.revokes);
    }

module _ {T : Backend} (s : CredentialService T) where
  store_minted-db :
      (cs out : List Credential) (w w' : World T)
      → store_minted s cs w ≡ (ok out, w')
      → w'.db ≡ (s.repo.update (map token_update cs) w.db).1
  unfolding store_minted
  store_minted-db cs out w w' h =
      ground
        (arith, jobs-frame s cs (record w { db = (s.repo.update (map token_update cs) w.db).1 }))

  mint-db :
      (signer : Wallet) (stored : List Credential) (holders : String → Option User) (code : Code)
      (out : List Credential) (w w' : World T)
      → mint_credentials s signer stored holders code w ≡ (ok out, w')
      → (minted : List Credential) × (w'.db ≡ (s.repo.update (map token_update minted) w.db).1)
  unfolding mint_credentials
  mint-db signer stored holders code out w w' h =
      elim (Result-cases
        (s.registry.issue_credentials signer (map (issuance_of holders) stored) w.chain).0) [
          | inr (e, q) ↦ absurd (ground arith)
          | inl (tokens, q) ↦ elim (Result-cases (with_tokens s.decimal stored tokens)) [
            | inr (e, p) ↦ absurd (ground arith)
            | inl (minted, p) ↦ (
              minted,
              store_minted-db minted out
                  (record w {
                    chain =
                        (s.registry.issue_credentials signer (map (issuance_of holders) stored)
                          w.chain).1;
                  })
                  w' (ground arith),
            )
          ]
        ]

  pub approve_body-run :
      (auth : User) (now : Time) (ids : List String) (committed : T.Db) (w w' : World T)
      (out : List Credential)
      → approve_body s auth now ids committed w ≡ (ok out, w')
      → (targets : List Credential) × (updated : List Credential) × (holders : List User)
        × (s.repo.find_by_ids ids review_includes w.db ≡ ok targets)
        × (check_all (approve_guard now) targets ≡ ok tt)
        × ((s.repo.update (map (approval_of auth now) targets) w.db).0 ≡ ok updated)
        × (let v =
              (record_lifecycle_notifications s targets NotificationType.approved (record w {
                db = (s.repo.update (map (approval_of auth now) targets) w.db).1;
              })).1 in
            mint_credentials s
              (wallet_from_user auth)
              updated
              (slice_to_map (λ h. h.id) (λ h. h) holders)
              review_blockchain_sync_failed
              v
            ≡ (ok out, w'))
  unfolding approve_body
  approve_body-run auth now ids committed w w' out h =
      elim (Result-cases (s.repo.find_by_ids ids review_includes w.db)) [
        | inr (e, f) ↦ absurd (ground arith)
        | inl (targets, f) ↦
            elim (Result-cases (s.find_users (map (λ c. c.holder_user_id) targets) committed)) [
              | inr (e, g) ↦ absurd (ground arith)
              | inl (holders, g) ↦
                  elim (Result-cases (s.repo.update (map (approval_of auth now) targets) w.db).0) [
                    | inr (e, u) ↦ absurd (ground arith)
                    | inl (updated, u) ↦
                        (targets, updated, holders, f, ground arith, u, ground arith)
                  ]
            ]
      ]

  reject_body-run :
      (auth : User) (now : Time) (rs : List CredentialRejection) (committed : T.Db) (w w' : World T)
      (out : List Credential)
      → reject_body s auth now rs committed w ≡ (ok out, w')
      → (targets : List Credential) × (s.repo.find_by_ids (map (λ r. r.id) rs) [] w.db ≡ ok targets)
        × (check_all (review_status_guard now) targets ≡ ok tt)
        × (w'
            ≡ (record_lifecycle_notifications s targets NotificationType.rejected (record w {
              db =
                  (s.repo.update
                    (map
                      (rejection_of auth now (slice_to_map (λ r. r.id) (λ r. r.reason) rs))
                      targets)
                    w.db).1;
            })).1)
  unfolding reject_body
  reject_body-run auth now rs committed w w' out h =
      elim (Result-cases (s.repo.find_by_ids (map (λ r. r.id) rs) [] w.db)) [
        | inr (e, f) ↦ absurd (ground arith)
        | inl (targets, f) ↦ (targets, f, ground arith, ground arith)
      ]

module _ {T : Backend} (s : CredentialService T) (view : T.Db → Database)
    (law : IsBacked s view) where
  maybe_notified-view :
      (ns : List CredentialNotification) (w : World T)
      → view ((if is_empty ns then pure tt else on_db (s.store_notifications ns)) w).1.db
        ≡ view w.db
  maybe_notified-view [] w = refl
  maybe_notified-view (n ∷ ns) w = law.store_notifications (n ∷ ns) w.db

  pub notified-Advances :
      (creds : List Credential) (kind : NotificationType) (w : World T)
      → Advances s view law w.db (record_lifecycle_notifications s creds kind w).1.db
  unfolding record_lifecycle_notifications
  notified-Advances creds kind w =
      same-Advances s view law w.db (record_lifecycle_notifications s creds kind w).1.db (
        maybe_notified-view
          (map
            (λ c. record { notified_user_id = c.holder_user_id; credential_id = c.id; type = kind })
            (distinct [] creds))
          w)

  pub mint-Advances :
      (signer : Wallet) (stored : List Credential) (holders : String → Option User) (code : Code)
      (out : List Credential) (w w' : World T)
      → mint_credentials s signer stored holders code w ≡ (ok out, w')
      → Advances s view law w.db w'.db
  mint-Advances signer stored holders code out w w' h =
      let (minted, e) = mint-db s signer stored holders code out w w' h in
      subst (λ d. Advances s view law w.db d) (sym e)
        (stampless-Advances s view law (map token_update minted) w.db
          (token_update-Stamping minted))

  -- The update of fetched rows, and the notifications that follow it.
  pub reviewed-Advances :
      (at : Stamps) (f : Credential → Credential) (ids includes : List String)
      (targets : List Credential) (kind : NotificationType) (w : World T)
      → Stamper at f
      → s.repo.find_by_ids ids includes w.db ≡ ok targets
      → All (λ t. Lives (stamps t) (restamped at (stamps t))) targets
      → Advances s view law w.db
          (record_lifecycle_notifications s targets kind
            (record w { db = (s.repo.update (map f targets) w.db).1 })).1.db
  reviewed-Advances at f ids includes targets kind w p found h =
      let v = record w { db = (s.repo.update (map f targets) w.db).1 } in
      (Advances-IsPreorder s view law).then w.db v.db
        (record_lifecycle_notifications s targets kind v).1.db
        (fetched-Advances s view law at f ids includes w.db targets p found h)
        (notified-Advances targets kind v)

  pub approve_body-Advances :
      (auth : User) (now : Time) (ids : List String) (committed : T.Db) (w w' : World T)
      (out : List Credential)
      → approve_body s auth now ids committed w ≡ (ok out, w')
      → Advances s view law w.db w'.db
  approve_body-Advances auth now ids committed w w' out h =
      let (targets, updated, holders, found, checked, wrote, minted) =
        approve_body-run s auth now ids committed w w' out h in
      let v =
        (record_lifecycle_notifications s targets NotificationType.approved
          (record w { db = (s.repo.update (map (approval_of auth now) targets) w.db).1 })).1 in
      (Advances-IsPreorder s view law).then w.db v.db w'.db
        (reviewed-Advances _ (approval_of auth now) ids review_includes targets
          NotificationType.approved w (approval_of-Stamper auth now) found
          (All-map
            (λ t g.
              let p = approve_guard-pending now t g in next here (Move.approve now p.0 p.1 p.2))
            targets (check_all-ok (approve_guard now) targets checked)))
        (mint-Advances _ updated _ _ out v w' minted)

  pub reject_body-Advances :
      (auth : User) (now : Time) (rs : List CredentialRejection) (committed : T.Db) (w w' : World T)
      (out : List Credential)
      → reject_body s auth now rs committed w ≡ (ok out, w')
      → Advances s view law w.db w'.db
  reject_body-Advances auth now rs committed w w' out h =
      let (targets, found, checked, e) = reject_body-run s auth now rs committed w w' out h in
      subst (λ (x : World T). Advances s view law w.db x.db) (sym e)
        (reviewed-Advances _ _ _ _ targets NotificationType.rejected w
          (rejection_of-Stamper auth now _) found
          (All-map
            (λ t g.
              let p = review_status_guard-pending now t g in
              next here (Move.reject now p.0 p.1 p.2))
            targets (check_all-ok (review_status_guard now) targets checked)))

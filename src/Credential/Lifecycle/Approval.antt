-- ===== src/Credential/Lifecycle/Approval.antt =====
-- Approve of feature/credential/credential_service.go takes effect in the table of
-- feature/credential/gorm_credential_repository.go.
use cred_chain_golang.Base.{
  ◌≡◌, ℕ, zero, suc, true, String, List, [], ◌∷◌, map, none, some, get_elem?, contains, arith, sym,
  ap, ◌∙◌, eq_iff, Bool-cases, inl, inr, if◌then◌else◌, slice_to_map,
}
use mathlib.Core.Path.{subst}
use cred_chain_golang.Domain.Clock.{Time}
use cred_chain_golang.Domain.Fault.{ok, review_blockchain_sync_failed}
use cred_chain_golang.Domain.User.{User, wallet_from_user}
use cred_chain_golang.Domain.Credential.{Credential}
use cred_chain_golang.Effect.{Backend, World}
use cred_chain_golang.Sql.{select}
use cred_chain_golang.Credential.Ports.{CredentialService, NotificationType}
use cred_chain_golang.Credential.Table.{
  Database, Relations, keys, preload_by_includes, patched, update_batch_case, find_by_ids,
}
use cred_chain_golang.Credential.Table
use cred_chain_golang.Credential.Review.{approval_of, approve}
use cred_chain_golang.Credential.Notify.{record_lifecycle_notifications}
use cred_chain_golang.Credential.Review.Approve.{approve-body, review_includes}
use cred_chain_golang.Credential.Lifecycle.{stamps, Evolves-at, Lives-activated}
use cred_chain_golang.Credential.Lifecycle.{Stamps}
use cred_chain_golang.Credential.Lifecycle.Patches.{
  Stamping, restamped, patched-stamps, Stamper-Stamping,
}
use cred_chain_golang.Credential.Lifecycle.Backing.{IsBacked, Advances-IsPreorder}
use cred_chain_golang.Credential.Lifecycle.Reviews.{
  approve_body-run, approval_of-Stamper, notified-Advances, mint-Advances,
}

get_elem?-map :
    (f : Credential → Credential) (cs : List Credential) (i : ℕ) (c : Credential)
    → get_elem? cs i ≡ some c
    → get_elem? (map f cs) i ≡ some (f c)
get_elem?-map f [] i c h = absurd (ground arith)
get_elem?-map f (d ∷ ds) zero c h = ap (λ (x : Credential). some (f x)) (ground arith)
get_elem?-map f (d ∷ ds) (suc i) c h = get_elem?-map f ds i c h

-- A row whose id is asked for is among the fetched ones.
fetched_key :
    (f : Credential → Credential) (ids includes : List String) (r : Relations)
    (rows : List Credential) (i : ℕ) (c : Credential)
    → ((d : Credential) → (f d).id ≡ d.id)
    → get_elem? rows i ≡ some c
    → contains ids c.id ≡ true
    → contains
        (keys (map f (map (preload_by_includes r includes) (select (λ d. contains ids d.id) rows))))
        c.id
      ≡ true
unfolding select contains preload_by_includes
fetched_key f ids includes r [] i c same h k = absurd (ground arith)
fetched_key f ids includes r (d ∷ ds) zero c same h k =
    let e : d.id ≡ c.id = ground arith in
    ground (
      arith,
      same (preload_by_includes r includes d),
      eq_iff (f (preload_by_includes r includes d)).id c.id,
    )
fetched_key f ids includes r (d ∷ ds) (suc i) c same h k = elim (Bool-cases (contains ids d.id)) [
  | inl q ↦ ground (arith, fetched_key f ids includes r ds i c same h k)
  | inr q ↦ ground (arith, fetched_key f ids includes r ds i c same h k)
]

-- An update that succeeded stamps each row that it names.
stamped_row :
    (at : Stamps) (ps out : List Credential) (db db' : Database) (i : ℕ) (c : Credential)
    → Stamping at ps
    → Table.update ps db ≡ (ok out, db')
    → get_elem? db.rows i ≡ some c
    → contains (keys ps) c.id ≡ true
    → (d : Credential) × (get_elem? db'.rows i ≡ some d)
      × (d.id ≡ c.id)
      × (d.holder_user_id ≡ c.holder_user_id)
      × (d.file_hash ≡ c.file_hash)
      × (stamps d ≡ restamped at (stamps c))
unfolding Table.update update_batch_case contains patched
stamped_row at [] out db db' i c s h g k = absurd (ground arith)
stamped_row at (p ∷ ps) out db db' i c s h g k =
    let row : Credential → Credential =
      λ x. if contains (keys (p ∷ ps)) x.id then patched (p ∷ ps) x else x in
    let rows : map row db.rows ≡ db'.rows = ground arith in
    let here : row c ≡ patched (p ∷ ps) c = ground arith in
    (
      row c,
      subst (λ xs. get_elem? xs i ≡ some (row c)) rows (get_elem?-map row db.rows i c g),
      ap (λ (x : Credential). x.id) here,
      ap (λ (x : Credential). x.holder_user_id) here,
      ap (λ (x : Credential). x.file_hash) here,
      ap stamps here ∙ patched-stamps at (p ∷ ps) c s k,
    )

module _ {T : Backend} (s : CredentialService T) (view : T.Db → Database) (law : IsBacked s view)
    (auth : User) (now : Time) (ids : List String) where
  fetched-named :
      (db : Database) (targets : List Credential) (i : ℕ) (c : Credential)
      → find_by_ids ids review_includes db ≡ ok targets
      → get_elem? db.rows i ≡ some c
      → contains ids c.id ≡ true
      → contains (keys (map (approval_of auth now) targets)) c.id ≡ true
  unfolding find_by_ids
  fetched-named db targets i c found at asked =
      subst (λ ts. contains (keys (map (approval_of auth now) ts)) c.id ≡ true) (ground arith)
        (fetched_key (approval_of auth now) ids review_includes db.relations db.rows i c
          (approval_of-Stamper auth now).id at asked)

  -- After an approval that succeeds, every row of the table whose id was asked for stands in its place,
  -- with its id, its holder and its file, and is activated at `now`.
  pub approve-activates :
      (w w' : World T) (cs : List Credential) (i : ℕ) (c : Credential)
      → approve s auth now ids w ≡ (ok cs, w')
      → get_elem? (view w.db).rows i ≡ some c
      → contains ids c.id ≡ true
      → (d : Credential) × (get_elem? (view w'.db).rows i ≡ some d)
        × (d.id ≡ c.id)
        × (d.holder_user_id ≡ c.holder_user_id)
        × (d.file_hash ≡ c.file_hash)
        × (d.activated_at ≡ some now)
  approve-activates w w' cs i c h at asked =
      let (v, run, same, chained) = approve-body s auth now ids w w' cs h in
      let (targets, updated, holders, found, checked, wrote, minted) =
        approve_body-run s auth now ids w.db w v cs run in
      let items = map (approval_of auth now) targets in
      let mid = record w { db = (s.repo.update items w.db).1 } in
      let noted = (record_lifecycle_notifications s targets NotificationType.approved mid).1 in
      let P = Advances-IsPreorder s view law in
      let named =
        fetched-named (view w.db) targets i c
          (law.find_by_ids ids review_includes w.db targets found) at asked in
      let (e, there, id, holder, file, stamped) =
        stamped_row (record { activated = some now; rejected = none; revoked = none }) items updated
          (view w.db) (view mid.db) i c
          (Stamper-Stamping _ (approval_of auth now) targets (approval_of-Stamper auth now))
          (law.update_ok items updated w.db mid.db cc) at named in
      let path =
        P.then mid.db noted.db v.db
          (notified-Advances s view law targets NotificationType.approved mid)
          (mint-Advances s view law (wallet_from_user auth) updated
            (slice_to_map (λ u. u.id) (λ u. u) holders) review_blockchain_sync_failed cs noted v
            minted) in
      let (d, place, f) = Evolves-at (view mid.db).rows (view v.db).rows i e path there in
      let active : e.activated_at ≡ some now = ap (λ (x : Stamps). x.activated) stamped in
      (
        d,
        subst (λ x. get_elem? (view x).rows i ≡ some d) (sym same) place,
        f.id ∙ id,
        f.holder ∙ holder,
        f.file ∙ file,
        Lives-activated f.life (λ n. ground arith) ∙ active,
      )

-- ===== src/Credential/Maintain/Editing.antt =====
-- What an update lets through, feature/credential/credential_service.go.
use mathlib.Core.Path.{subst}
use cred_chain_golang.Credential.Notify.{number_or_empty}
use cred_chain_golang.Base.{
  refl, ◌==◌, ◌∙◌, ap, sym, Bool-cases, inl, inr, slice_to_map, eq_refl, All-map, ◌≡◌, ◌≢◌, String,
  List, [], ◌∷◌, All, Option, none, some, arith, true, false, contains, eq_iff,
}
use cred_chain_golang.Domain.Clock.{Time}
use cred_chain_golang.Domain.Fault.{
  Code, issue_type_not_found, issue_type_inactive, issue_organization_not_found,
  issue_organization_inactive, Result, ok, err, update_not_found,
}
use cred_chain_golang.Domain.Reference.{Reference}
use cred_chain_golang.Domain.Credential.{Credential, CredentialStatus, status}
use cred_chain_golang.Effect.{Backend, World, check_all}
use cred_chain_golang.Effect.Laws.{check_all-ok}
use cred_chain_golang.Credential.Ports.{CredentialService}
use cred_chain_golang.Credential.Guards.{ids_of, require_found}
use cred_chain_golang.Credential.Guards.Meaning.{require_found-ok}
use cred_chain_golang.Credential.Intake.Sound.{IsUsableRow}
use cred_chain_golang.Credential.Numbers.{holds_pair, taken_strict, orgs_of}
use cred_chain_golang.Credential.Numbers.Unused.{IsUnused, taken_strict-IsUnused}
use cred_chain_golang.Credential.Maintain.{
  target_row, metadata_guard, pending_guard, org_after, new_number, number_guard, edit_guard,
  taken_for, wanted_by_updates, update_found, update, type_guard, organization_guard, Code,
}

metadata_guard-ok :
    (missing inactive : Code) (id : String) (r : Result (Option Reference))
    → metadata_guard missing inactive id r ≡ ok tt
    → IsUsableRow r
unfolding metadata_guard
metadata_guard-ok missing inactive id (ok (some r)) h = ground arith
metadata_guard-ok missing inactive id (ok none) h = absurd (ground arith)
metadata_guard-ok missing inactive id (err e) h = absurd (ground arith)

-- The row that an update names was found and is pending; a type or an organization that it gets is
-- active and approved; and a number that it changes to, and that is not empty, is used by no row of the
-- organization that it will have.
pub record IsEditable {T : Backend} (s : CredentialService T) (now : Time) (db : T.Db)
    (targets : List Credential) (c : Credential) : Type 0 where
  pub target : Credential
  pub found : slice_to_map (λ t. t.id) (λ t. t) targets c.id ≡ some target
  pub pending : status now target ≡ CredentialStatus.pending
  pub type_usable :
      c.type_id ≢ "" → c.type_id ≢ target.type_id → IsUsableRow (s.find_type c.type_id db)
  pub organization_usable :
      c.issuer_organization_id ≢ ""
      → c.issuer_organization_id ≢ target.issuer_organization_id
      → IsUsableRow (s.find_organization c.issuer_organization_id db)
  pub number_moved :
      (n : String)
      → c.number ≡ some n
      → n ≢ ""
      → target.number ≢ some n
      → c.issuer_organization_id ≢ ""
      → IsUnused s.repo c.issuer_organization_id n db
  pub number_kept :
      (n : String)
      → c.number ≡ some n
      → n ≢ ""
      → target.number ≢ some n
      → c.issuer_organization_id ≡ ""
      → IsUnused s.repo target.issuer_organization_id n db

-- A number that an update changes to is not taken in the organization that the row will have.
abbrev pub IsFree : List (String × String) → List Credential → Credential → Type 0
IsFree taken targets c =
    (n : String)
    → new_number (target_row targets c.id) c ≡ some n
    → holds_pair taken (org_after (target_row targets c.id) c) n ≡ false

new_number-some :
    (target c : Credential) (n : String)
    → c.number ≡ some n
    → n ≢ ""
    → target.number ≢ some n
    → new_number target c ≡ some n
unfolding new_number number_or_empty
new_number-some target c n e f g = pick target.number refl
  where
    pick : (o : Option String) → target.number ≡ o → new_number target c ≡ some n
    pick none k = ground (arith, eq_iff n "")
    pick (some m) k = elim (Bool-cases (n == m)) [
      | inl q ↦ let same : n ≡ m = ground (arith, eq_iff n m) in absurd (g (k ∙ ap some (sym same)))
      | inr q ↦ ground arith
    ]

org_after-moved :
    (target c : Credential)
    → c.issuer_organization_id ≢ ""
    → org_after target c ≡ c.issuer_organization_id
unfolding org_after
org_after-moved target c h = ground (arith, eq_iff c.issuer_organization_id "")

org_after-kept :
    (target c : Credential)
    → c.issuer_organization_id ≡ ""
    → org_after target c ≡ target.issuer_organization_id
unfolding org_after
org_after-kept target c h = ground (arith, eq_iff c.issuer_organization_id "")

-- A number that an update changes to is wanted.
abbrev IsWanted : List (String × String) → List Credential → Credential → Type 0
IsWanted wanted targets c =
    (n : String)
    → new_number (target_row targets c.id) c ≡ some n
    → holds_pair wanted (org_after (target_row targets c.id) c) n ≡ true

wanted_by_updates-IsWanted :
    (targets cs : List Credential) → All (IsWanted (wanted_by_updates targets cs) targets) cs
unfolding wanted_by_updates holds_pair
wanted_by_updates-IsWanted targets [] = tt
wanted_by_updates-IsWanted targets (c ∷ cs) = (
  (λ n e. ground (arith, eq_refl (org_after (target_row targets c.id) c), eq_refl n)),
  All-map
      (λ d h n e.
        let known = h n e in later d n (new_number (target_row targets c.id) c) refl known)
      cs (wanted_by_updates-IsWanted targets cs),
)
  where
    later :
        (d : Credential) (n : String) (o : Option String)
        → new_number (target_row targets c.id) c ≡ o
        → holds_pair (wanted_by_updates targets cs) (org_after (target_row targets d.id) d) n ≡ true
        → holds_pair (wanted_by_updates targets (c ∷ cs)) (org_after (target_row targets d.id) d) n
          ≡ true
    later d n none q k = ground arith
    later d n (some m) q k = ground arith

target_row-some :
    (targets : List Credential) (id : String)
    → contains (ids_of targets) id ≡ true
    → slice_to_map (λ t. t.id) (λ t. t) targets id ≡ some (target_row targets id)
unfolding target_row slice_to_map contains
target_row-some [] id h = absurd (ground arith)
target_row-some (t ∷ ts) id h = elim (Bool-cases (contains (ids_of ts) id)) [
  | inl e ↦ ground (arith, target_row-some ts id e)
  | inr e ↦ ground (arith, slice_to_map_missing ts id e)
]
  where
    slice_to_map_missing :
        (xs : List Credential) (k : String)
        → contains (ids_of xs) k ≡ false
        → slice_to_map (λ t. t.id) (λ t. t) xs k ≡ none
    slice_to_map_missing [] k q = refl
    slice_to_map_missing (x ∷ xs) k q = ground (arith, slice_to_map_missing xs k)

pending_guard-ok :
    (now : Time) (id : String) (t : Credential)
    → pending_guard now id t ≡ ok tt
    → status now t ≡ CredentialStatus.pending
unfolding pending_guard
pending_guard-ok now id t h = ground arith

number_guard-ok :
    (taken : List (String × String)) (targets : List Credential) (c : Credential)
    → number_guard taken targets c ≡ ok tt
    → IsFree taken targets c
unfolding number_guard
number_guard-ok taken targets c h n e = ground arith

module _ {T : Backend} (s : CredentialService T) (now : Time) where
  edit_parts :
      (db : T.Db) (targets : List Credential) (c : Credential)
      → edit_guard s now db targets c ≡ ok tt
      → (pending_guard now c.id (target_row targets c.id) ≡ ok tt)
        × (type_guard s db (target_row targets c.id) c ≡ ok tt)
        × (organization_guard s db (target_row targets c.id) c ≡ ok tt)
  unfolding edit_guard
  edit_parts db targets c h = ground arith

  type_guard-ok :
      (db : T.Db) (target c : Credential)
      → type_guard s db target c ≡ ok tt
      → c.type_id ≢ ""
      → c.type_id ≢ target.type_id
      → IsUsableRow (s.find_type c.type_id db)
  type_guard-ok db target c h n k =
      metadata_guard-ok issue_type_not_found issue_type_inactive c.id (s.find_type c.type_id db)
        (ground (arith, eq_iff c.type_id "", eq_iff c.type_id target.type_id))

  organization_guard-ok :
      (db : T.Db) (target c : Credential)
      → organization_guard s db target c ≡ ok tt
      → c.issuer_organization_id ≢ ""
      → c.issuer_organization_id ≢ target.issuer_organization_id
      → IsUsableRow (s.find_organization c.issuer_organization_id db)
  organization_guard-ok db target c h n k =
      metadata_guard-ok issue_organization_not_found issue_organization_inactive c.id
        (s.find_organization c.issuer_organization_id db)
        (ground (
          arith,
          eq_iff c.issuer_organization_id "",
          eq_iff c.issuer_organization_id target.issuer_organization_id,
        ))

  edit_guard-ok :
      (db : T.Db) (targets : List Credential) (taken : List (String × String))
      (wanted : List (String × String)) (c : Credential)
      → contains (ids_of targets) c.id ≡ true
      → edit_guard s now db targets c ≡ ok tt
      → IsWanted wanted targets c
      → taken_strict s.repo (orgs_of wanted) wanted db ≡ ok taken
      → IsFree taken targets c
      → IsEditable s now db targets c
  edit_guard-ok db targets taken wanted c there h asked known free =
      let p = edit_parts db targets c h in
      let target = target_row targets c.id in
      let unused = λ (n : String) (e : new_number target c ≡ some n).
        taken_strict-IsUnused s.repo (org_after target c) n db wanted taken (asked n e) known
          (free n e) in
      record {
        target = target;
        found = target_row-some targets c.id there;
        pending = pending_guard-ok now c.id target p.0;
        type_usable = type_guard-ok db target c p.1;
        organization_usable = organization_guard-ok db target c p.2;
        number_moved = λ n e f g k.
            subst (λ o. IsUnused s.repo o n db) (org_after-moved target c k)
              (unused n (new_number-some target c n e f g));
        number_kept = λ n e f g k.
            subst (λ o. IsUnused s.repo o n db) (org_after-kept target c k)
              (unused n (new_number-some target c n e f g));
      }

  all-IsEditable :
      (db : T.Db) (targets : List Credential) (taken wanted : List (String × String))
      (cs : List Credential)
      → All (λ id. contains (ids_of targets) id ≡ true) (ids_of cs)
      → All (λ c. edit_guard s now db targets c ≡ ok tt) cs
      → All (IsWanted wanted targets) cs
      → taken_strict s.repo (orgs_of wanted) wanted db ≡ ok taken
      → All (IsFree taken targets) cs
      → All (IsEditable s now db targets) cs
  all-IsEditable db targets taken wanted [] a b c k f = tt
  all-IsEditable db targets taken wanted (x ∷ xs) a b c k f = (
    edit_guard-ok db targets taken wanted x a.0 b.0 c.0 k f.0,
    all-IsEditable db targets taken wanted xs a.1 b.1 c.1 k f.1,
  )

  update-run :
      (c : Credential) (cs out : List Credential) (w w' : World T)
      → update s now (c ∷ cs) w ≡ (ok out, w')
      → (targets : List Credential) × (taken : List (String × String)) × (s.repo.find_by_ids
            (ids_of (c ∷ cs))
            []
            w.db
          ≡ ok targets)
        × (require_found update_not_found (ids_of (c ∷ cs)) targets ≡ ok tt)
        × (check_all (edit_guard s now w.db targets) (c ∷ cs) ≡ ok tt)
        × (taken_for s targets (c ∷ cs) w.db ≡ ok taken)
        × (check_all (number_guard taken targets) (c ∷ cs) ≡ ok tt)
        × (s.repo.update (c ∷ cs) w.db ≡ (ok out, w'.db))
  unfolding update update_found
  update-run c cs out w w' h = ground arith

  -- An update that succeeds found a row for every requested id; each row is pending; each type and each
  -- organization that a row gets is active and approved; each number that a row changes to, unless it
  -- is empty, was asked for in the organization that the row will have, and no row of the answer has it;
  -- and the rows are written in one update.
  pub update-ok :
      (c : Credential) (cs out : List Credential) (w w' : World T)
      → update s now (c ∷ cs) w ≡ (ok out, w')
      → (targets : List Credential) × (s.repo.find_by_ids (ids_of (c ∷ cs)) [] w.db ≡ ok targets)
        × All (IsEditable s now w.db targets) (c ∷ cs)
        × (s.repo.update (c ∷ cs) w.db ≡ (ok out, w'.db))
  update-ok c cs out w w' h =
      let (targets, taken, found, present, checked, known, free, wrote) =
        update-run c cs out w w' h in
      (
        targets,
        found,
        all-IsEditable w.db targets taken (wanted_by_updates targets (c ∷ cs)) (c ∷ cs)
            (require_found-ok update_not_found (ids_of (c ∷ cs)) targets present)
            (check_all-ok (edit_guard s now w.db targets) (c ∷ cs) checked)
            (wanted_by_updates-IsWanted targets (c ∷ cs)) known
            (All-map (number_guard-ok taken targets) (c ∷ cs)
              (check_all-ok (number_guard taken targets) (c ∷ cs) free)),
        wrote,
      )

-- ===== src/Units/Parts.antt =====
-- The parts of the operations of feature/user/user_unit_service.go keep the tree, whatever they return.
use cred_chain_golang.Base.{
  ◌≡◌, ◌⊎◌, refl, sym, ap, ◌∙◌, Bool, true, false, String, List, [], ◌∷◌, map, Option, none, some,
  contains, arith, ◌==◌, inl, inr,
}
use mathlib.Core.Path.{subst}
use cred_chain_golang.Domain.Fault.{Result, ok, err, record_not_found}
use cred_chain_golang.Effect.{Backend, World}
use cred_chain_golang.Effect.Laws.{Result-cases}
use cred_chain_golang.Effect.Keeps.{IsPreorder}
use cred_chain_golang.Units.{
  UserUnit, UserUnitService, key, found_or, renamed_item, activated_item, off_item, validate_parent,
  active_under, cascade_off, rename, parent_active_guard, switch, reparent, move,
}
use cred_chain_golang.Units.Table.{Database, patched_if, with_ids, is_taken, is_child, moved}
use cred_chain_golang.Units.Table
use cred_chain_golang.Units.Descent.{lookup, find_with_descendants-IsClosed}
use cred_chain_golang.Units.Tree.{IsTree, lookup-map}
use cred_chain_golang.Units.Backing.{IsBacked, update_table}
use cred_chain_golang.Units.Moves.{
  find-lookup, patched_row, rename-IsTree, activate-IsTree, cascade-IsTree, cascade_under-IsTree,
  move-IsTree, promote-IsTree,
}

module _ {T : Backend} (s : UserUnitService T) (view : T.Db → Database)
    (law : IsBacked s view) where
  abbrev pub Grows : T.Db → T.Db → Type 0
  Grows a b = IsTree (view a).rows → IsTree (view b).rows

  pub order : IsPreorder Grows
  order = record { id = λ a t. t; then = λ a b c f g t. g (f t) }

  -- A statement that fails, or that leads to a tree.
  pub wrote :
      (a b : T.Db) (x : Database)
      → (view b ≡ view a) ⊎ (view b ≡ x)
      → (IsTree (view a).rows → IsTree x.rows)
      → Grows a b
  wrote a b x (inl e) h t = subst (λ d. IsTree d.rows) (sym e) t
  wrote a b x (inr e) h t = subst (λ d. IsTree d.rows) (sym e) (h t)

  pub found :
      (id : String) (db : T.Db) (u : UserUnit)
      → s.unit_repo.find id db ≡ ok u
      → lookup (view db).rows id ≡ some u
  found id db u h = find-lookup id (view db) u (law.find id db u h)

  pub found_or-ok :
      (r : Result UserUnit) (id : String) (u : UserUnit) → found_or r id ≡ ok u → r ≡ ok u
  found_or-ok (ok v) id u h = h
  found_or-ok (err record_not_found) id u h = absurd (ground arith)
  found_or-ok (err e) id u h = absurd (ground arith)

  -- A checked parent exists.
  parent-found :
      (p self_id : String) (db : T.Db)
      → validate_parent s (some p) self_id db ≡ ok tt
      → (q : UserUnit) × (s.unit_repo.find p db ≡ ok q)
  unfolding validate_parent
  parent-found p self_id db h = elim (Result-cases (s.unit_repo.find p db)) [
    | inl (q, e) ↦ (q, e)
    | inr (e, q) ↦ absurd (ground arith)
  ]

  renamed_db :
      (target : UserUnit) (name : String) (w : World T)
      → (s.unit_repo.update (renamed_item target (s.trim_space name) ∷ []) w.db).1
        ≡ (rename s target (some name) w).1.db
  unfolding rename
  renamed_db target name w =
      let r = s.unit_repo.update (renamed_item target (s.trim_space name) ∷ []) w.db in
      elim (Result-cases r.0) [ inl (a, q) ↦ ground arith | inr (e, q) ↦ ground arith ]

  cascade_off-Keeps : (id : String) (w : World T) → Grows w.db (cascade_off s id none w).1.db
  unfolding cascade_off
  cascade_off-Keeps id w = elim (Result-cases (s.unit_repo.find_with_descendants id w.db)) [
    | inr (e, q) ↦ subst (λ d. Grows w.db d) (ground arith) (λ t. t)
    | inl (out, q) ↦
        let items = map (off_item id none) out in
        let closed =
          find_with_descendants-IsClosed id (view w.db) out
            (law.find_with_descendants id w.db out q) in
        subst (λ d. Grows w.db d) (ground arith)
          (wrote w.db (s.unit_repo.update items w.db).1 (Table.update items (view w.db)).1
            (law.update items w.db)
            (λ t.
              update_table items (view w.db) t (cascade-IsTree (view w.db).rows id out closed t)))
  ]

  parent_active :
      (parent_id : Option String) (db : T.Db) (p : String) (u : UserUnit)
      → parent_id ≡ some p
      → parent_active_guard s parent_id db ≡ ok tt
      → lookup (view db).rows p ≡ some u
      → u.active ≡ true
  unfolding parent_active_guard
  parent_active none db p u up h at = absurd (ground arith)
  parent_active (some k) db p u up h at = elim (Result-cases (s.unit_repo.find k db)) [
    | inr (e, q) ↦ absurd (ground arith)
    | inl (v, q) ↦ let there = found k db v q in ground arith
  ]

  moved_table :
      (id : String) (to : Option String) (db : Database)
      → IsTree (map (moved id to) db.rows)
      → IsTree (Table.update_parent id to db).1.rows
  unfolding Table.update_parent
  moved_table id to db h = h

  -- A parent that was checked exists and is not among the unit and its descendants.
  parent_outside :
      (p id : String) (db : T.Db)
      → (id == "") ≡ false
      → validate_parent s (some p) id db ≡ ok tt
      → (out : List UserUnit) × (s.unit_repo.find_with_descendants id db ≡ ok out)
        × (contains (map key out) p ≡ false)
  unfolding validate_parent
  parent_outside p id db named h = elim (Result-cases (s.unit_repo.find p db)) [
    | inr (e, q) ↦ absurd (ground arith)
    | inl (u, q) ↦ elim (Result-cases (s.unit_repo.find_with_descendants id db)) [
      | inr (e, k) ↦ absurd (ground arith)
      | inl (out, k) ↦ (out, k, ground arith)
    ]
  ]

  pub rename-Keeps :
      (target : UserUnit) (name : Option String) (w : World T)
      → lookup (view w.db).rows target.id ≡ some target
      → Grows w.db (rename s target name w).1.db
  unfolding rename
  rename-Keeps target none w at = λ t. t
  rename-Keeps target (some name) w at =
      let text = s.trim_space name in
      let items = renamed_item target text ∷ [] in
      subst (λ d. Grows w.db d) (renamed_db target name w)
        (wrote w.db (s.unit_repo.update items w.db).1 (Table.update items (view w.db)).1
          (law.update items w.db)
          (λ t. update_table items (view w.db) t (rename-IsTree target text (view w.db).rows at t)))

  -- A renaming leaves the unit under the parent that it had.
  pub rename-row :
      (target : UserUnit) (name : Option String) (w : World T)
      → lookup (view w.db).rows target.id ≡ some target
      → (row : UserUnit) × (lookup (view (rename s target name w).1.db).rows target.id ≡ some row)
        × (row.parent_id ≡ target.parent_id)
  unfolding rename Table.update
  rename-row target none w at = (target, at, refl)
  rename-row target (some name) w at =
      let text = s.trim_space name in
      let items = renamed_item target text ∷ [] in
      let db' = (s.unit_repo.update items w.db).1 in
      subst
        (λ d.
          (row : UserUnit) × (lookup (view d).rows target.id ≡ some row)
          × (row.parent_id ≡ target.parent_id))
        (renamed_db target name w)
        (elim (law.update items w.db) [
          | inl e ↦ (target, ap (λ d. lookup (Database.rows d) target.id) e ∙ at, refl)
          | inr e ↦ (
            patched_if items target,
            ap (λ d. lookup (Database.rows d) target.id) e
                ∙ lookup-map (patched_if items) (view w.db).rows target.id target
                    (λ u. (patched_row target text u).0) at,
            (patched_row target text target).1,
          )
        ])

  pub switch-Keeps :
      (target row : UserUnit) (active : Option Bool) (w : World T)
      → lookup (view w.db).rows target.id ≡ some row
      → row.parent_id ≡ target.parent_id
      → Grows w.db (switch s target active w).1.db
  unfolding switch parent_active_guard
  switch-Keeps target row none w at same = λ t. t
  switch-Keeps target row (some false) w at same = cascade_off-Keeps target.id w
  switch-Keeps target row (some true) w at same =
      let items = activated_item target ∷ [] in
      elim (Result-cases (parent_active_guard s target.parent_id w.db)) [
        | inr (e, q) ↦ subst (λ d. Grows w.db d) (ground arith) (λ t. t)
        | inl (_, q) ↦
            let r = s.unit_repo.update items w.db in
            let same_db : r.1 ≡ (switch s target (some true) w).1.db = elim (Result-cases r.0) [
              | inl (a, p) ↦ ground arith
              | inr (e, p) ↦ ground arith
            ] in
            subst (λ d. Grows w.db d) same_db
              (wrote w.db r.1 (Table.update items (view w.db)).1 (law.update items w.db) (λ t.
                update_table items (view w.db) t (
                  activate-IsTree target row (view w.db).rows at same
                    (λ p u up there. parent_active target.parent_id w.db p u up q there) t)))
      ]

  cascade_under_db :
      (id p : String) (out : List UserUnit) (w : World T)
      → s.unit_repo.find_with_descendants id w.db ≡ ok out
      → (s.unit_repo.update (map (off_item id (some p)) out) w.db).1
        ≡ (cascade_off s id (some p) w).1.db
  unfolding cascade_off
  cascade_under_db id p out w q =
      let r = s.unit_repo.update (map (off_item id (some p)) out) w.db in
      elim (Result-cases r.0) [ inl (a, k) ↦ ground arith | inr (e, k) ↦ ground arith ]

  -- The unit goes under an active parent, or is switched off on its way under an inactive one.
  move-Keeps :
      (target : UserUnit) (p : String) (active : Bool) (w : World T)
      → (target.id == "") ≡ false
      → validate_parent s (some p) target.id w.db ≡ ok tt
      → active_under s (some p) w.db ≡ ok active
      → Grows w.db (move s target p active w).1.db
  unfolding active_under
  move-Keeps target p true w named q k =
      let (out, asked, outside) = parent_outside p target.id w.db named q in
      let (v, at) = parent-found p target.id w.db q in
      let there = found p w.db v at in
      let closed =
        find_with_descendants-IsClosed target.id (view w.db) out
          (law.find_with_descendants target.id w.db out asked) in
      wrote w.db (s.unit_repo.update_parent target.id (some p) w.db).1
        (Table.update_parent target.id (some p) (view w.db)).1
        (law.update_parent target.id (some p) w.db)
        (λ t.
          moved_table target.id (some p) (view w.db)
            (move-IsTree (view w.db).rows target.id out closed t p v there outside (ground arith)))
  move-Keeps target p false w named q k =
      let (out, asked, outside) = parent_outside p target.id w.db named q in
      let (v, at) = parent-found p target.id w.db q in
      let there = found p w.db v at in
      let closed =
        find_with_descendants-IsClosed target.id (view w.db) out
          (law.find_with_descendants target.id w.db out asked) in
      let items = map (off_item target.id (some p)) out in
      subst (λ d. Grows w.db d) (cascade_under_db target.id p out w asked)
        (wrote w.db (s.unit_repo.update items w.db).1 (Table.update items (view w.db)).1
          (law.update items w.db)
          (λ t.
            update_table items (view w.db) t
              (cascade_under-IsTree (view w.db).rows target.id out closed t p v there outside)))

  pub reparent-Keeps :
      (target : UserUnit) (set_parent : Bool) (parent_id : Option String) (w : World T)
      → (target.id == "") ≡ false
      → Grows w.db (reparent s target set_parent parent_id w).1.db
  unfolding reparent
  reparent-Keeps target false parent_id w named = λ t. t
  reparent-Keeps target true none w named =
      wrote w.db (s.unit_repo.update_parent target.id none w.db).1
        (Table.update_parent target.id none (view w.db)).1 (law.update_parent target.id none w.db)
        (λ t. moved_table target.id none (view w.db) (promote-IsTree target.id (view w.db).rows t))
  reparent-Keeps target true (some p) w named =
      elim (Result-cases (validate_parent s (some p) target.id w.db)) [
        | inr (e, q) ↦ subst (λ d. Grows w.db d) (ground arith) (λ t. t)
        | inl (_, q) ↦ elim (Result-cases (active_under s (some p) w.db)) [
          | inr (e, k) ↦ subst (λ d. Grows w.db d) (ground arith) (λ t. t)
          | inl (active, k) ↦
              subst (λ d. Grows w.db d) (ground arith) (move-Keeps target p active w named q k)
        ]
      ]

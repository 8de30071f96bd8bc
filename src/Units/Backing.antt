-- ===== src/Units/Backing.antt =====
-- The database of feature/user/user_unit_service.go holds the table of
-- feature/user/gorm_user_unit_repository.go, and each of its statements keeps the tree.
use cred_chain_golang.Base.{
  ◌≡◌, ◌⊎◌, refl, sym, ℕ, true, String, List, [], ◌∷◌, ◌++◌, map, Option, some, contains, arith,
  ◌==◌, Bool-cases, inl, inr, not,
}
use mathlib.Core.Path.{subst}
use cred_chain_golang.Domain.Fault.{ok}
use cred_chain_golang.Effect.{Backend}
use cred_chain_golang.Units.{UserUnit, UserUnitService, key}
use cred_chain_golang.Units.Table.{Database, patched_if, with_ids, is_taken, is_child}
use cred_chain_golang.Units.Table
use cred_chain_golang.Units.Descent.{lookup}
use cred_chain_golang.Units.Tree.{IsTree, append-IsTree, select-IsTree}
use cred_chain_golang.Units.Moves.{count-free}
use cred_chain_golang.Sql.{select}

-- The table that a service's database holds. A read that succeeds reads it; a statement does on it
-- what the repository says, or fails and leaves it.
pub record IsBacked {T : Backend} (s : UserUnitService T) (view : T.Db → Database) : Type 0 where
  pub find :
      (id : String) (db : T.Db) (u : UserUnit)
      → s.unit_repo.find id db ≡ ok u
      → Table.find id (view db) ≡ ok u
  pub find_with_descendants :
      (id : String) (db : T.Db) (us : List UserUnit)
      → s.unit_repo.find_with_descendants id db ≡ ok us
      → Table.find_with_descendants id (view db) ≡ ok us
  pub count_by_parent_ids :
      (ids : List String) (db : T.Db) (n : ℕ)
      → s.unit_repo.count_by_parent_ids ids db ≡ ok n
      → Table.count_by_parent_ids ids (view db) ≡ ok n
  pub store :
      (us : List UserUnit) (db : T.Db)
      → (view (s.unit_repo.store us db).1 ≡ view db)
        ⊎ (view (s.unit_repo.store us db).1 ≡ (Table.store us (view db)).1)
  pub update :
      (us : List UserUnit) (db : T.Db)
      → (view (s.unit_repo.update us db).1 ≡ view db)
        ⊎ (view (s.unit_repo.update us db).1 ≡ (Table.update us (view db)).1)
  pub update_parent :
      (id : String) (parent_id : Option String) (db : T.Db)
      → (view (s.unit_repo.update_parent id parent_id db).1 ≡ view db)
        ⊎ (view (s.unit_repo.update_parent id parent_id db).1
            ≡ (Table.update_parent id parent_id (view db)).1)
  pub destroy :
      (ids : List String) (db : T.Db)
      → (view (s.unit_repo.destroy ids db).1 ≡ view db)
        ⊎ (view (s.unit_repo.destroy ids db).1 ≡ (Table.destroy ids (view db)).1)

pub update_table :
    (items : List UserUnit) (db : Database)
    → IsTree db.rows
    → IsTree (map (patched_if items) db.rows)
    → IsTree (Table.update items db).1.rows
unfolding Table.update
update_table [] db t h = t
update_table (i ∷ is) db t h = h

pub store_table :
    (u : UserUnit) (db : Database)
    → (u.id == "") ≡ true
    → ((p : String)
        → u.parent_id ≡ some p
        → (q : UserUnit) × (lookup db.rows p ≡ some q) × (u.active ≡ true → q.active ≡ true))
    → IsTree db.rows
    → IsTree (Table.store (u ∷ []) db).1.rows
unfolding Table.store with_ids is_taken
store_table u db blank place t =
    let new = record u { id = db.ulid db.drawn } in
    elim (Bool-cases (contains (map key db.rows) (db.ulid db.drawn))) [
      | inl taken ↦
          let same : (Table.store (u ∷ []) db).1.rows ≡ db.rows = ground arith in
          subst IsTree (sym same) t
      | inr free ↦
          let same : (Table.store (u ∷ []) db).1.rows ≡ db.rows ++ (new ∷ []) = ground arith in
          subst IsTree (sym same) (append-IsTree db.rows new free place t)
    ]

List-cases :
    (us : List UserUnit) → (us ≡ []) ⊎ ((x : UserUnit) × (xs : List UserUnit) × (us ≡ x ∷ xs))
List-cases [] = inl refl
List-cases (x ∷ xs) = inr (x, xs, refl)

pub destroy_table :
    (ids : List String) (db : Database)
    → Table.count_by_parent_ids ids db ≡ ok 0
    → IsTree db.rows
    → IsTree (Table.destroy ids db).1.rows
unfolding Table.destroy
destroy_table ids db none_of t =
    let kept = select (λ u. not (contains ids u.id)) db.rows in
    let gone = select (λ u. contains ids u.id) db.rows in
    elim (List-cases (select (λ u. db.assigned u.id) gone)) [
      | inr (x, xs, q) ↦
          (let same : (Table.destroy ids db).1.rows ≡ db.rows = ground arith in
            subst IsTree (sym same) t)
      | inl q ↦ elim (List-cases (select (is_child (map key gone)) kept)) [
        | inr (y, ys, p) ↦
            (let same : (Table.destroy ids db).1.rows ≡ db.rows = ground arith in
              subst IsTree (sym same) t)
        | inl p ↦
            let same : (Table.destroy ids db).1.rows ≡ kept = ground arith in
            subst IsTree (sym same)
              (select-IsTree ids db.rows (λ k p r. count-free ids db k p r none_of) t)
      ]
    ]

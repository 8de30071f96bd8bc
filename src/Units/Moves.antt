-- ===== src/Units/Moves.antt =====
-- The statements of feature/user/gorm_user_unit_repository.go, on the rows that the operations of
-- feature/user/user_unit_service.go give them, keep the tree.
use cred_chain_golang.Base.{
  ◌≡◌, refl, sym, ◌∙◌, ℕ, suc, ◌+◌, Bool, true, false, ◌&&◌, String, List, [], ◌∷◌, map, Option,
  none, some, contains, All, arith, ◌==◌, eq_iff, Bool-cases, inl, inr, if◌then◌else◌, length,
}
use cred_chain_golang.Domain.Fault.{ok}
use cred_chain_golang.Sql.{select, case_value, or_old, case_value-some}
use cred_chain_golang.Units.{UserUnit, key, renamed_item, activated_item, off_item}
use cred_chain_golang.Units.Table.{
  Database, find, patched, patched_if, moved, is_child, count_by_parent_ids,
}
use cred_chain_golang.Units.Descent.{lookup, lookup-id, IsClosed}
use cred_chain_golang.Units.Tree.{IsTree, map-IsTree}

first-lookup :
    (rows : List UserUnit) (id : String) (r : UserUnit)
    → (elim (select (λ u. u.id == id) rows) [ [] ↦ none | u ∷ us ↦ some u ]) ≡ some r
    → lookup rows id ≡ some r
unfolding select lookup
first-lookup [] id r h = h
first-lookup (u ∷ us) id r h = ground (arith, first-lookup us id r)

pub find-lookup :
    (id : String) (db : Database) (r : UserUnit) → find id db ≡ ok r → lookup db.rows id ≡ some r
unfolding find
find-lookup id db r h = first-lookup db.rows id r (ground arith)

-- An item without a parent writes the name and whether the unit is active.
patched_one :
    (item u : UserUnit)
    → item.parent_id ≡ none
    → let v = patched_if (item ∷ []) u in
      (v.id ≡ u.id)
      × (v.parent_id ≡ u.parent_id)
      × (v.active ≡ (if item.id == u.id then item.active else u.active))
unfolding patched_if patched case_value contains
patched_one item u h = (ground arith, ground arith, ground arith)

-- A renamed unit keeps its parent.
pub patched_row :
    (target : UserUnit) (name : String) (u : UserUnit)
    → let v = patched_if (renamed_item target name ∷ []) u in
      (v.id ≡ u.id) × (v.parent_id ≡ u.parent_id)
unfolding renamed_item
patched_row target name u =
    let (id, parent, _) = patched_one (renamed_item target name) u refl in (id, parent)

pub rename-IsTree :
    (target : UserUnit) (name : String) (rows : List UserUnit)
    → lookup rows target.id ≡ some target
    → IsTree rows
    → IsTree (map (patched_if (renamed_item target name ∷ [])) rows)
unfolding renamed_item
rename-IsTree target name rows at t =
    let facts = λ (u : UserUnit). patched_one (renamed_item target name) u refl in
    let still : (k : String) (r : UserUnit)
        → lookup rows k ≡ some r
        → (patched_if (renamed_item target name ∷ []) r).active ≡ r.active =
      λ k r here.
        let (_, _, active) = facts r in
        let id = lookup-id rows k r here in ground (arith, eq_iff target.id r.id) in
    map-IsTree _ rows t.depth (λ u. (facts u).0)
      (λ k p r here up.
        let (_, parent, _) = facts r in
        let h = t.hangs k p r here (ground arith) in
        let mine = still k r here in
        let theirs = still p h.parent h.there in
        (h.parent, h.there, h.deeper, λ a. theirs ∙ h.live (sym mine ∙ a)))

pub activate-IsTree :
    (target row : UserUnit) (rows : List UserUnit)
    → lookup rows target.id ≡ some row
    → row.parent_id ≡ target.parent_id
    → ((p : String) (q : UserUnit)
        → target.parent_id ≡ some p
        → lookup rows p ≡ some q
        → q.active ≡ true)
    → IsTree rows
    → IsTree (map (patched_if (activated_item target ∷ [])) rows)
unfolding activated_item
activate-IsTree target row rows at same checked t =
    let facts = λ (u : UserUnit). patched_one (activated_item target) u refl in
    map-IsTree _ rows t.depth (λ u. (facts u).0)
      (λ k p r here up.
        let (_, parent, mine) = facts r in
        let h = t.hangs k p r here (ground arith) in
        let (_, _, theirs) = facts h.parent in
        let id = lookup-id rows k r here in
        let above : target.id ≡ k → h.parent.active ≡ true = λ e.
          let there : lookup rows k ≡ some row = ground arith in
          checked p h.parent (ground arith) h.there in
        let live = h.live in
        (h.parent, h.there, h.deeper, λ a. ground (arith, eq_iff target.id r.id)))

off-keys :
    (id : String) (to : Option String) (out : List UserUnit) (k : String)
    → contains (map key (map (off_item id to) out)) k ≡ contains (map key out) k
unfolding contains off_item
off-keys id to [] k = refl
off-keys id to (d ∷ ds) k = ground (arith, off-keys id to ds k)

off-inactive :
    (id : String) (to : Option String) (out : List UserUnit)
    → All (λ p. some p.active ≡ some false) (map (off_item id to) out)
unfolding off_item
off-inactive id to [] = tt
off-inactive id to (d ∷ ds) = (refl, off-inactive id to ds)

off-parent :
    (id : String) (to : Option String) (out : List UserUnit) (k : String)
    → case_value key (λ p. p.parent_id) (map (off_item id to) out) k
      ≡ (if contains (map key out) k && k == id then to else none)
unfolding case_value off_item contains
off-parent id to [] k = refl
off-parent id to (d ∷ ds) k = ground (arith, eq_iff d.id k, off-parent id to ds k)

-- What cascadeOff makes of a row.
patched_off :
    (id : String) (to : Option String) (out : List UserUnit) (u : UserUnit)
    → let v = patched_if (map (off_item id to) out) u in
      let hit = contains (map key out) u.id in
      (v.id ≡ u.id)
      × (v.active ≡ (if hit then false else u.active))
      × (v.parent_id ≡ (if hit && u.id == id then or_old to u.parent_id else u.parent_id))
unfolding patched_if patched
patched_off id to out u =
    let keys = off-keys id to out u.id in
    let parent = off-parent id to out u.id in
    let off =
      case_value-some key (λ p. some p.active) false (map (off_item id to) out) u.id
        (off-inactive id to out) in
    (ground arith, ground arith, ground arith)

-- The depths after the units of `out` went under `p`.
abbrev under : (String → ℕ) → List String → String → String → ℕ
under depth out p k = if contains out k then suc (depth p + depth k) else depth k

module _ (rows : List UserUnit) (id : String) (out : List UserUnit) (closed : IsClosed rows id out)
    (t : IsTree rows) where
  pub cascade-IsTree : IsTree (map (patched_if (map (off_item id none) out)) rows)
  cascade-IsTree =
      map-IsTree _ rows t.depth (λ u. (patched_off id none out u).0)
        (λ k p r here up.
          let (_, mine, parent) = patched_off id none out r in
          let old : r.parent_id ≡ some p = ground arith in
          let h = t.hangs k p r here old in
          let (_, theirs, _) = patched_off id none out h.parent in
          let mine_id = lookup-id rows k r here in
          let their_id = lookup-id rows p h.parent h.there in
          let down = closed.children k p r here old in
          let live = h.live in (h.parent, h.there, h.deeper, λ a. ground arith))

  module _ (p0 : String) (q0 : UserUnit) (there : lookup rows p0 ≡ some q0)
      (outside : contains (map key out) p0 ≡ false) where
    pub cascade_under-IsTree : IsTree (map (patched_if (map (off_item id (some p0)) out)) rows)
    cascade_under-IsTree =
        map-IsTree _ rows (under t.depth (map key out) p0) (λ u. (patched_off id (some p0) out u).0)
          (λ k p r here up.
            let (_, mine, parent) = patched_off id (some p0) out r in
            let mine_id = lookup-id rows k r here in
            elim (Bool-cases (contains (map key out) k && k == id)) [
              | inl top ↦
                  let e : p0 ≡ p = ground arith in
                  (q0, ground arith, ground arith, λ a. absurd (ground arith))
              | inr rest ↦
                  let old : r.parent_id ≡ some p = ground arith in
                  let h = t.hangs k p r here old in
                  let (_, theirs, _) = patched_off id (some p0) out h.parent in
                  let their_id = lookup-id rows p h.parent h.there in
                  let down = closed.children k p r here old in
                  let live = h.live in
                  let deep = h.deeper in (h.parent, h.there, ground arith, λ a. ground arith)
            ])

    pub move-IsTree : q0.active ≡ true → IsTree (map (moved id (some p0)) rows)
    unfolding moved
    move-IsTree on =
        map-IsTree _ rows (under t.depth (map key out) p0) (λ u. ground arith)
          (λ k p r here up.
            let mine_id = lookup-id rows k r here in
            elim (Bool-cases (k == id)) [
              | inl top ↦
                  let e : p0 ≡ p = ground arith in
                  let same : k ≡ id = ground (arith, eq_iff k id) in
                  let self = closed.self r (ground arith) in
                  (q0, ground arith, ground arith, λ a. ground arith)
              | inr rest ↦
                  let old : r.parent_id ≡ some p = ground arith in
                  let h = t.hangs k p r here old in
                  let down = closed.children k p r here old in
                  let live = h.live in
                  let deep = h.deeper in (h.parent, h.there, ground arith, λ a. ground arith)
            ])

pub promote-IsTree :
    (id : String) (rows : List UserUnit) → IsTree rows → IsTree (map (moved id none) rows)
unfolding moved
promote-IsTree id rows t =
    map-IsTree _ rows t.depth (λ u. ground arith)
      (λ k p r here up.
        let old : r.parent_id ≡ some p = ground arith in
        let h = t.hangs k p r here old in
        let live = h.live in (h.parent, h.there, h.deeper, λ a. ground arith))

select-none :
    (p : UserUnit → Bool) (rows : List UserUnit) (k : String) (r : UserUnit)
    → length (select p rows) ≡ 0
    → lookup rows k ≡ some r
    → p r ≡ false
unfolding select lookup
select-none p [] k r h at = absurd (ground arith)
select-none p (u ∷ us) k r h at = ground (arith, select-none p us k r)

-- No unit has a parent among the ids whose children were counted to none.
pub count-free :
    (ids : List String) (db : Database) (k p : String) (r : UserUnit)
    → count_by_parent_ids ids db ≡ ok 0
    → lookup db.rows k ≡ some r
    → r.parent_id ≡ some p
    → contains ids p ≡ false
unfolding count_by_parent_ids
count-free ids db k p r h at up =
    let none_of = select-none (is_child ids) db.rows k r (ground arith) at in ground arith

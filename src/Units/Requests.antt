-- ===== src/Units/Requests.antt =====
-- The operations of feature/user/user_unit_service.go in any sequence, over a database whose table
-- user_units is that of feature/user/gorm_user_unit_repository.go.
use cred_chain_golang.Base.{
  All, ◌≡◌, refl, sym, ap, ◌∙◌, Bool, true, false, String, List, [], ◌∷◌, Option, none, some, arith,
  ◌==◌, Bool-cases, inl, inr, ltb, ◌||◌,
}
use mathlib.Core.Path.{subst}
use cred_chain_golang.Domain.Fault.{ok}
use cred_chain_golang.Effect.{Backend, World}
use cred_chain_golang.Effect.Laws.{Result-cases}
use cred_chain_golang.Effect.Keeps.{bind-Keeps}
use cred_chain_golang.Units.{
  UserUnit, UserUnitService, empty_unit, find, validate_parent, active_under, store, rename, switch,
  reparent, update, destroy,
}
use cred_chain_golang.Units.Table.{Database, patched_if, with_ids, is_taken, is_child, moved}
use cred_chain_golang.Units.Table
use cred_chain_golang.Units.Descent.{lookup, lookup-id}
use cred_chain_golang.Units.Tree.{IsTree}
use cred_chain_golang.Units.Backing.{IsBacked, store_table, destroy_table}
use cred_chain_golang.Units.Parts.{
  Grows, order, found, found_or-ok, rename-row, rename-Keeps, switch-Keeps, reparent-Keeps, wrote,
}

-- A request of the unit endpoints, with the arguments of its operation.
pub data UnitRequest : Type 0 where
  storing : String → Option String → UnitRequest
  updating : String → Option String → Option String → Bool → Option Bool → UnitRequest
  destroying : List String → UnitRequest

-- The route of an update has an id.
unfoldable pub IsNamed : UnitRequest → Type 0
IsNamed (UnitRequest.updating id name parent_id set_parent active) = (id == "") ≡ false
IsNamed _ = Unit

unfoldable pub serve : {T : Backend} → UserUnitService T → UnitRequest → World T → World T
serve s (UnitRequest.storing name parent_id) w = (store s name parent_id w).1
serve s (UnitRequest.updating id name parent_id set_parent active) w =
    (update s id name parent_id set_parent active w).1
serve s (UnitRequest.destroying ids) w = (destroy s ids w).1

unfoldable pub serve_all : {T : Backend} → UserUnitService T → List UnitRequest → World T → World T
unfolding serve
serve_all s [] w = w
serve_all s (r ∷ rs) w = serve_all s rs (serve s r w)

module _ {T : Backend} (s : UserUnitService T) (view : T.Db → Database)
    (law : IsBacked s view) where
  update-Keeps :
      (id : String) (name parent_id : Option String) (set_parent : Bool) (active : Option Bool)
      (w : World T)
      → (id == "") ≡ false
      → Grows s view law w.db (update s id name parent_id set_parent active w).1.db
  unfolding update
  update-Keeps id name parent_id set_parent active w named =
      bind-Keeps (Grows s view law) (order s view law) (find s id) _ w (λ t. t)
        (λ target h.
          let at =
            found s view law id w.db target
              (found_or-ok s view law (s.unit_repo.find id w.db) id target (ap (λ r. r.0) h)) in
          let same = lookup-id (view w.db).rows id target at in
          let here : lookup (view w.db).rows target.id ≡ some target =
            subst (λ k. lookup (view w.db).rows k ≡ some target) (sym same) at in
          let (row, there, under) = rename-row s view law target name w here in
          bind-Keeps (Grows s view law) (order s view law) (rename s target name) _ w
            (rename-Keeps s view law target name w here)
            (λ _ _.
              let w1 = (rename s target name w).1 in
              bind-Keeps (Grows s view law) (order s view law) (switch s target active) _ w1
                (switch-Keeps s view law target row active w1 there under)
                (λ _ _.
                  let w2 = (switch s target active w1).1 in
                  bind-Keeps (Grows s view law) (order s view law)
                    (reparent s target set_parent parent_id) _ w2
                    (reparent-Keeps s view law target set_parent parent_id w2
                      (subst (λ k. (k == "") ≡ false) (sym same) named))
                    (λ _ _ t. t))))

  parent_place :
      (parent_id : Option String) (active : Bool) (db : T.Db) (p : String)
      → active_under s parent_id db ≡ ok active
      → parent_id ≡ some p
      → (q : UserUnit) × (lookup (view db).rows p ≡ some q) × (active ≡ true → q.active ≡ true)
  unfolding active_under
  parent_place none active db p h up = absurd (ground arith)
  parent_place (some k) active db p h up = elim (Result-cases (s.unit_repo.find k db)) [
    | inr (e, q) ↦ absurd (ground arith)
    | inl (v, q) ↦
        let there = found s view law k db v q in
        let same : k ≡ p = ground arith in
        let live : active ≡ v.active = ground arith in
        (v, subst (λ x. lookup (view db).rows x ≡ some v) same there, λ a. sym live ∙ a)
  ]

  store-Keeps :
      (name : String) (parent_id : Option String) (w : World T)
      → Grows s view law w.db (store s name parent_id w).1.db
  unfolding store
  store-Keeps name parent_id w = elim (Result-cases (validate_parent s parent_id "" w.db)) [
    | inr (e, q) ↦ subst (λ d. Grows s view law w.db d) (ground arith) (λ t. t)
    | inl (_, q) ↦ elim (Result-cases (active_under s parent_id w.db)) [
      | inr (e, k) ↦ subst (λ d. Grows s view law w.db d) (ground arith) (λ t. t)
      | inl (active, k) ↦
          let u = record empty_unit {
            parent_id = parent_id;
            name = s.trim_space name;
            active = active;
          } in
          let r = s.unit_repo.store (u ∷ []) w.db in
          let same : r.1 ≡ (store s name parent_id w).1.db = elim (Result-cases r.0) [
            | inl (a, p) ↦ ground arith
            | inr (e, p) ↦ ground arith
          ] in
          subst (λ d. Grows s view law w.db d) same
            (wrote s view law w.db r.1 (Table.store (u ∷ []) (view w.db)).1
              (law.store (u ∷ []) w.db)
              (store_table u (view w.db) refl (λ p up. parent_place parent_id active w.db p k up)))
    ]
  ]

  destroy-Keeps : (ids : List String) (w : World T) → Grows s view law w.db (destroy s ids w).1.db
  unfolding destroy
  destroy-Keeps [] w = λ t. t
  destroy-Keeps (id ∷ ids) w = elim (Result-cases (s.count_by_unit_ids (id ∷ ids) w.db)) [
    | inr (e, q) ↦ subst (λ d. Grows s view law w.db d) (ground arith) (λ t. t)
    | inl (n, q) ↦ elim (Result-cases (s.unit_repo.count_by_parent_ids (id ∷ ids) w.db)) [
      | inr (e, k) ↦ subst (λ d. Grows s view law w.db d) (ground arith) (λ t. t)
      | inl (m, k) ↦ elim (Bool-cases (ltb 0 n || ltb 0 m)) [
        | inl used ↦ subst (λ d. Grows s view law w.db d) (ground arith) (λ t. t)
        | inr free ↦
            let zero_m : m ≡ 0 = ground arith in
            let counted = law.count_by_parent_ids (id ∷ ids) w.db m k in
            subst (λ d. Grows s view law w.db d) (ground arith)
              (wrote s view law w.db (s.unit_repo.destroy (id ∷ ids) w.db).1
                (Table.destroy (id ∷ ids) (view w.db)).1 (law.destroy (id ∷ ids) w.db)
                (destroy_table (id ∷ ids) (view w.db) (
                  subst (λ x. Table.count_by_parent_ids (id ∷ ids) (view w.db) ≡ ok x) zero_m
                    counted)))
      ]
    ]
  ]

  serve-Keeps : (r : UnitRequest) (w : World T) → IsNamed r → Grows s view law w.db (serve s r w).db
  unfolding serve IsNamed
  serve-Keeps (UnitRequest.storing name parent_id) w h = store-Keeps name parent_id w
  serve-Keeps (UnitRequest.updating id name parent_id set_parent active) w h =
      update-Keeps id name parent_id set_parent active w h
  serve-Keeps (UnitRequest.destroying ids) w h = destroy-Keeps ids w

  -- Over a database that holds the repository's table: after any sequence of requests to the unit
  -- service, those that fail on their way included, each parent of a unit exists, the parents have no
  -- cycle, and no active unit is under an inactive one, if this holds before and each update names an
  -- id. A unit is the row that its key finds.
  pub serve_all-IsTree :
      (rs : List UnitRequest) (w : World T)
      → All IsNamed rs
      → IsTree (view w.db).rows
      → IsTree (view (serve_all s rs w).db).rows
  unfolding serve_all
  serve_all-IsTree [] w h t = t
  serve_all-IsTree (r ∷ rs) w h t = serve_all-IsTree rs (serve s r w) h.1 (serve-Keeps r w h.0 t)

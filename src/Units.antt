-- ===== src/Units.antt =====
-- feature/user/user_unit_service.go: the tree of organizational units. No unit of work spans its
-- statements: what an operation wrote before it failed stays.
pub mod Table
pub mod Descent
pub mod Tree
pub mod Moves
pub mod Backing
pub mod Parts
pub mod Requests
use cred_chain_golang.Base.{
  ℕ, Bool, true, false, String, List, [], ◌∷◌, map, Option, none, some, if◌then◌else◌, ◌==◌,
  contains, ltb, ◌&&◌, is_some,
}
use cred_chain_golang.Domain.Fault.{
  domain, record_not_found, Error, Result, ok, err, system_internal, user_unit_not_found,
  user_unit_parent_invalid, user_unit_parent_inactive, user_unit_destroy_in_use,
}
use cred_chain_golang.Effect.{Backend, M, ◌>>=◌, ◌>>◌, pure, raise, lift, read_db, on_db}

-- domain.UserUnit
pub record UserUnit : Type 0 where
  pub id : String
  pub parent_id : Option String
  pub name : String
  pub active : Bool

-- domain.UserUnitRepository, with the methods that the service uses.
pub record UserUnitRepository (Db : Type 0) : Type 0 where
  pub find : String → Db → Result UserUnit
  pub store : List UserUnit → Db → Result (List UserUnit) × Db
  pub update : List UserUnit → Db → Result (List UserUnit) × Db
  pub update_parent : String → Option String → Db → Result (Unit {0}) × Db
  pub find_with_descendants : String → Db → Result (List UserUnit)
  pub destroy : List String → Db → Result ℕ × Db
  pub count_by_parent_ids : List String → Db → Result ℕ

-- `count_by_unit_ids` is the method of the user repository; `trim_space` is `strings.TrimSpace`.
pub record UserUnitService (T : Backend) : Type 0 where
  pub unit_repo : UserUnitRepository T.Db
  pub count_by_unit_ids : List String → T.Db → Result ℕ
  pub trim_space : String → String

abbrev pub empty_unit : UserUnit
empty_unit = record { id = ""; parent_id = none; name = ""; active = false }

abbrev pub key : UserUnit → String
key u = u.id

abbrev found_or : Result UserUnit → String → Result UserUnit
found_or (ok u) id = ok u
found_or (err record_not_found) id = err (domain user_unit_not_found (id ∷ []))
found_or (err e) id = err e

abbrev first_or : Error → List UserUnit → Result UserUnit
first_or e [] = err e
first_or e (u ∷ us) = ok u

-- The partial rows that the service gives to `Update`: a renaming, an activation, and the items of
-- cascadeOff, of which the top one may get a parent.
unfoldable pub renamed_item : UserUnit → String → UserUnit
renamed_item target name = record empty_unit { id = target.id; name = name; active = target.active }

unfoldable pub activated_item : UserUnit → UserUnit
activated_item target = record empty_unit { id = target.id; active = true }

unfoldable pub off_item : String → Option String → UserUnit → UserUnit
off_item id reparent_to d = record empty_unit {
  id = d.id;
  parent_id = if d.id == id then reparent_to else none;
}

abbrev pub active_of : Result UserUnit → Result Bool
active_of (ok u) = ok u.active
active_of (err e) = err e

abbrev pub cycle_guard : String → String → Result (List UserUnit) → Result (Unit {0})
cycle_guard p self_id (ok descendants) =
    if contains (map key descendants) p
    then err (domain user_unit_parent_invalid (p ∷ []))
    else ok tt
cycle_guard p self_id (err e) = err e

abbrev in_use : List String → ℕ → Result (Unit {0})
in_use ids n = if ltb 0 n then err (domain user_unit_destroy_in_use ids) else ok tt

module _ {T : Backend} (s : UserUnitService T) where
  abbrev pub find : String → M T UserUnit
  find id = read_db (λ db. found_or (s.unit_repo.find id db) id)

  unfoldable pub validate_parent : Option String → String → T.Db → Result (Unit {0})
  validate_parent none self_id db = ok tt
  validate_parent (some p) self_id db = elim (s.unit_repo.find p db) [
    | err e ↦ err (domain user_unit_parent_invalid (p ∷ []))
    | ok u ↦
        if self_id == ""
        then ok tt
        else cycle_guard p self_id (s.unit_repo.find_with_descendants self_id db)
  ]

  unfoldable pub active_under : Option String → T.Db → Result Bool
  active_under none db = ok true
  active_under (some p) db = active_of (s.unit_repo.find p db)

  unfoldable pub store : String → Option String → M T UserUnit
  store name parent_id = do
    read_db (validate_parent parent_id "")
    active ← read_db (active_under parent_id)
    stored ← on_db (
        s.unit_repo.store (
          record empty_unit { parent_id = parent_id; name = s.trim_space name; active = active }
          ∷ []))
    lift (first_or (domain system_internal []) stored)

  unfoldable pub cascade_off : String → Option String → M T (Unit {0})
  cascade_off id reparent_to = do
    desc ← read_db (s.unit_repo.find_with_descendants id)
    on_db (s.unit_repo.update (map (off_item id reparent_to) desc))
    pure tt

  -- The three parts of Update, in its order.
  unfoldable pub rename : UserUnit → Option String → M T (Unit {0})
  rename target none = pure tt
  rename target (some name) = do
    on_db (s.unit_repo.update (renamed_item target (s.trim_space name) ∷ []))
    pure tt

  abbrev pub inactive_guard : String → Bool → Result (Unit {0})
  inactive_guard p active =
      if active then ok tt else err (domain user_unit_parent_inactive (p ∷ []))

  unfoldable pub parent_active_guard : Option String → T.Db → Result (Unit {0})
  parent_active_guard none db = ok tt
  parent_active_guard (some p) db = elim (s.unit_repo.find p db) [
    | ok u ↦ inactive_guard p u.active
    | err e ↦ err e
  ]

  unfoldable pub switch : UserUnit → Option Bool → M T (Unit {0})
  switch target none = pure tt
  switch target (some false) = cascade_off target.id none
  switch target (some true) = do
    read_db (parent_active_guard target.parent_id)
    on_db (s.unit_repo.update (activated_item target ∷ []))
    pure tt

  abbrev pub move : UserUnit → String → Bool → M T (Unit {0})
  move target p true = on_db (s.unit_repo.update_parent target.id (some p))
  move target p false = cascade_off target.id (some p)

  unfoldable pub reparent : UserUnit → Bool → Option String → M T (Unit {0})
  reparent target false parent_id = pure tt
  reparent target true none = on_db (s.unit_repo.update_parent target.id none)
  reparent target true (some p) = do
    read_db (validate_parent (some p) target.id)
    active ← read_db (active_under (some p))
    move target p active

  unfoldable pub update : String → Option String → Option String → Bool → Option Bool → M T UserUnit
  update id name parent_id set_parent active = do
    target ← find id
    rename target name
    switch target active
    reparent target set_parent parent_id
    find id

  unfoldable pub destroy : List String → M T ℕ
  destroy [] = pure 0
  destroy (id ∷ ids) = do
    n ← read_db (s.count_by_unit_ids (id ∷ ids))
    lift (in_use (id ∷ ids) n)
    children ← read_db (s.unit_repo.count_by_parent_ids (id ∷ ids))
    lift (in_use (id ∷ ids) children)
    on_db (s.unit_repo.destroy (id ∷ ids))

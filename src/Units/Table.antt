-- ===== src/Units/Table.antt =====
-- feature/user/gorm_user_unit_repository.go: the statements on the table user_units. SQL is read on a
-- list of rows; every statement reaches the database. `updated_at` is left out, and the sort of an
-- update's items by their ids, which decides nothing where each id is given once.
-- The foreign key of `parent_id` refuses a deletion; that it refuses a write is left out.
use cred_chain_golang.Base.{
  ℕ, zero, suc, ◌+◌, Bool, false, not, ◌||◌, String, List, [], ◌∷◌, ◌++◌, map, Option, none, some,
  contains, length, if◌then◌else◌, ◌==◌,
}
use cred_chain_golang.Domain.Fault.{
  domain, record_not_found, raw, Result, ok, err, user_unit_destroy_in_use,
}
use cred_chain_golang.Sql.{select, case_value, or_kept, or_old, given_text}
use cred_chain_golang.Units.{UserUnit, UserUnitRepository, key}

-- The rows; the foreign key of `users` onto them; how many rounds a recursive query gets before it is
-- cancelled; and the source of identifiers with the number that it drew.
pub record Database : Type 0 where
  pub rows : List UserUnit
  pub assigned : String → Bool
  pub rounds : ℕ
  pub ulid : ℕ → String
  pub drawn : ℕ

abbrev first_row : List UserUnit → Result UserUnit
first_row [] = err record_not_found
first_row (u ∷ us) = ok u

unfoldable pub find : String → Database → Result UserUnit
unfolding select
find id db = first_row (select (λ u. u.id == id) db.rows)

unfoldable pub find_by_ids : List String → Database → Result (List UserUnit)
unfolding select contains
find_by_ids ids db = ok (select (λ u. contains ids u.id) db.rows)

-- The columns of Update: `active` is always given.
unfoldable pub patched : List UserUnit → UserUnit → UserUnit
unfolding case_value
patched items u = record u {
  name = or_kept (case_value key (λ p. given_text p.name) items u.id) u.name;
  parent_id = or_old (case_value key (λ p. p.parent_id) items u.id) u.parent_id;
  active = or_kept (case_value key (λ p. some p.active) items u.id) u.active;
}

unfoldable pub patched_if : List UserUnit → UserUnit → UserUnit
unfolding contains patched
patched_if items u = if contains (map key items) u.id then patched items u else u

unfoldable pub update : List UserUnit → Database → Result (List UserUnit) × Database
unfolding find_by_ids
update [] db = (ok [], db)
update (u ∷ us) db =
    let db' = record db { rows = map (patched_if (u ∷ us)) db.rows } in
    (find_by_ids (map key (u ∷ us)) db', db')

unfoldable pub moved : String → Option String → UserUnit → UserUnit
moved id parent_id u = if u.id == id then record u { parent_id = parent_id } else u

unfoldable pub update_parent : String → Option String → Database → Result (Unit {0}) × Database
update_parent id parent_id db = (ok tt, record db { rows = map (moved id parent_id) db.rows })

-- `WITH RECURSIVE descendants`: each round joins the rows of the round before with their children.
abbrev pub is_child : List String → UserUnit → Bool
is_child ids u = elim u.parent_id [ none ↦ false | some p ↦ contains ids p ]

abbrev pub joined : List UserUnit → Option (List UserUnit) → Option (List UserUnit)
joined level none = none
joined level (some rest) = some (level ++ rest)

unfoldable pub descend : ℕ → List UserUnit → List UserUnit → Option (List UserUnit)
unfolding select contains
descend zero rows level = none
descend (suc n) rows [] = some []
descend (suc n) rows (u ∷ us) =
    joined (u ∷ us) (descend n rows (select (is_child (map key (u ∷ us))) rows))

abbrev pub answered : Option (List UserUnit) → Result (List UserUnit)
answered none = err (raw "57014")
answered (some us) = ok us

unfoldable pub find_with_descendants : String → Database → Result (List UserUnit)
unfolding descend select
find_with_descendants id db =
    answered (descend db.rounds db.rows (select (λ u. u.id == id) db.rows))

unfoldable pub count_by_parent_ids : List String → Database → Result ℕ
unfolding select contains
count_by_parent_ids ids db = ok (length (select (is_child ids) db.rows))

abbrev lacks_id : UserUnit → Bool
lacks_id u = u.id == ""

unfoldable pub with_ids : (ℕ → String) → ℕ → List UserUnit → List UserUnit
with_ids ulid n [] = []
with_ids ulid n (u ∷ us) =
    (if lacks_id u then record u { id = ulid n } else u)
    ∷ with_ids ulid (if lacks_id u then suc n else n) us

-- The primary key refuses a row whose id is taken.
unfoldable pub is_taken : List String → List UserUnit → Bool
unfolding contains
is_taken ids [] = false
is_taken ids (u ∷ us) = contains ids u.id || is_taken (u.id ∷ ids) us

unfoldable pub store : List UserUnit → Database → Result (List UserUnit) × Database
unfolding with_ids is_taken select
store [] db = (ok [], db)
store (u ∷ us) db =
    let new = with_ids db.ulid db.drawn (u ∷ us) in
    let db' = record db { drawn = length (select lacks_id (u ∷ us)) + db.drawn } in
    if is_taken (map key db.rows) new
    then (err (raw "23505"), db')
    else (ok new, record db' { rows = db.rows ++ new })

-- A foreign key of a user onto one of the rows, or of a unit that stays, refuses the statement.
unfoldable pub destroy : List String → Database → Result ℕ × Database
unfolding select contains
destroy ids db =
    let gone = select (λ u. contains ids u.id) db.rows in
    let kept = select (λ u. not (contains ids u.id)) db.rows in
    elim (select (λ u. db.assigned u.id) gone) [
      | _ ∷ _ ↦ (err (domain user_unit_destroy_in_use ids), db)
      | [] ↦ elim (select (is_child (map key gone)) kept) [
        | _ ∷ _ ↦ (err (domain user_unit_destroy_in_use ids), db)
        | [] ↦ (ok (length gone), record db { rows = kept })
      ]
    ]

unfoldable pub repository : UserUnitRepository Database
repository = record {
  find = find;
  store = store;
  update = update;
  update_parent = update_parent;
  find_with_descendants = find_with_descendants;
  destroy = destroy;
  count_by_parent_ids = count_by_parent_ids;
}

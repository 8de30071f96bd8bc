-- ===== src/Taxonomy/Statements.antt =====
-- What the statements of the three taxonomy repositories (feature/credential/gorm_*_repository.go) do to
-- the rows: the index stays satisfied, and the rows follow their lifecycles.
use cred_chain_golang.Base.{
  ◌≡◌, ◌≢◌, inl, inr, refl, Bool, true, false, String, List, [], ◌∷◌, All, All-map, some, arith,
  map, contains, ◌==◌, eq_iff, if◌then◌else◌, Bool-cases, ℕ, ◌++◌, suc, not,
}
use mathlib.Core.Path.{subst}
use cred_chain_golang.Domain.Clock.{Time}
use cred_chain_golang.Domain.Fault.{ok}
use cred_chain_golang.Domain.User.{User}
use cred_chain_golang.Domain.Reference.{Reference}
use cred_chain_golang.Sql.{select, case_value}
use cred_chain_golang.Taxonomy.{approved_row, rejected_row, Kind}
use cred_chain_golang.Taxonomy.Table
use cred_chain_golang.Taxonomy.Table.{
  Database, key, patched, update_rows, is_unique, is_fresh, conflicts, find, first_row, with_ids,
  lacks_id,
}
use cred_chain_golang.Taxonomy.Lifecycle.{
  Lives, here, Evolves, Evolves-refl, keep, new, drop, IsCoherent, Evolves-append,
}

abbrev pub IsUnique : Database → Type 0
IsUnique db = is_unique db.lower db.rows ≡ true

-- The partial rows that the services update with.
pub patched-approved :
    (auth : User) (now : Time) (target r : Reference)
    → target.id ≡ r.id
    → patched (approved_row auth now target ∷ []) r
      ≡ record r { active = true; approver_user_id = some auth.id; activated_at = some now }
unfolding patched approved_row case_value
patched-approved auth now target r h = ground (arith, eq_iff target.id r.id)

pub patched-rejected :
    (auth : User) (now : Time) (reason : String) (target r : Reference)
    → target.id ≡ r.id
    → patched (rejected_row auth now reason target ∷ []) r ≡ record r {
      active = false;
      rejecter_user_id = some auth.id;
      rejected_at = some now;
      rejection_reason = some reason;
    }
unfolding patched rejected_row case_value
patched-rejected auth now reason target r h = ground (arith, eq_iff target.id r.id)

-- An update of one row.
pub update_one-Evolves :
    (p : Reference) (rows : List Reference)
    → All (λ r. p.id ≡ r.id → Lives r (patched (p ∷ []) r)) rows
    → Evolves rows (update_rows (p ∷ []) rows)
unfolding update_rows contains
update_one-Evolves p [] h = Evolves-refl []
update_one-Evolves p (r ∷ rs) h =
    keep (pick (contains (map key (p ∷ [])) r.id) refl) (update_one-Evolves p rs h.1)
  where
    pick :
        (b : Bool)
        → contains (map key (p ∷ [])) r.id ≡ b
        → Lives r (if b then patched (p ∷ []) r else r)
    pick true e = h.0 (ground (arith, eq_iff p.id r.id))
    pick false e = here

-- Where the key is unique, the row that a query by id finds is the only one of its id.
fresh-All :
    (lower : String → String) (r : Reference) (rs : List Reference)
    → is_fresh lower r rs ≡ true
    → All (λ q. r.id ≢ q.id) rs
unfolding is_fresh conflicts
fresh-All lower r [] h = tt
fresh-All lower r (q ∷ qs) h =
    (λ e. ground (arith, eq_iff r.id q.id), fresh-All lower r qs (ground arith))

first_only :
    (lower : String → String) (id : String) (rows : List Reference) (r : Reference)
    → is_unique lower rows ≡ true
    → first_row (select (λ q. q.id == id) rows) ≡ ok r
    → (r.id ≡ id) × All (λ q. q.id ≡ id → q ≡ r) rows
unfolding is_unique select
first_only lower id [] r u h = absurd (ground arith)
first_only lower id (q ∷ qs) r u h = elim (Bool-cases (q.id == id)) [
  | inl e ↦
      let same : q ≡ r = ground arith in
      (
        ground (arith, eq_iff q.id id),
        (
          λ _. same,
          All-map (λ p n k. absurd (n (ground (arith, eq_iff q.id id)))) qs
              (fresh-All lower q qs (ground arith)),
        ),
      )
  | inr e ↦
      let rest = first_only lower id qs r (ground arith) (ground arith) in
      (rest.0, (λ k. absurd (ground (arith, eq_iff q.id id)), rest.1))
]

pub find-only :
    (db : Database) (id : String) (r : Reference)
    → IsUnique db
    → find id db ≡ ok r
    → (r.id ≡ id) × All (λ q. q.id ≡ id → q ≡ r) db.rows
unfolding find
find-only db id r u h = first_only db.lower id db.rows r u h

-- A row that is not there any more.
select-fresh :
    (lower : String → String) (p : Reference → Bool) (r : Reference) (rs : List Reference)
    → is_fresh lower r rs ≡ true
    → is_fresh lower r (select p rs) ≡ true
unfolding is_fresh select
select-fresh lower p r [] h = refl
select-fresh lower p r (q ∷ qs) h = ground (arith, select-fresh lower p r qs)

select_unique :
    (lower : String → String) (p : Reference → Bool) (rs : List Reference)
    → is_unique lower rs ≡ true
    → is_unique lower (select p rs) ≡ true
unfolding is_unique select
select_unique lower p [] h = refl
select_unique lower p (r ∷ rs) h =
    ground (arith, select_unique lower p rs, select-fresh lower p r rs)

select-Evolves : (p : Reference → Bool) (rs : List Reference) → Evolves rs (select p rs)
unfolding select
select-Evolves p [] = new [] tt
select-Evolves p (r ∷ rs) = pick (p r) (select-Evolves p rs)
  where
    pick :
        (b : Bool)
        → Evolves rs (select p rs)
        → Evolves (r ∷ rs) (if b then r ∷ select p rs else select p rs)
    pick true e = keep here e
    pick false e = drop e

with_ids-IsCoherent :
    (ulid : ℕ → String) (rs : List Reference) (n : ℕ)
    → All IsCoherent rs
    → All IsCoherent (with_ids ulid n rs)
unfolding with_ids
with_ids-IsCoherent ulid [] n h = tt
with_ids-IsCoherent ulid (r ∷ rs) n h =
    (pick (lacks_id r), with_ids-IsCoherent ulid rs (if lacks_id r then suc n else n) h.1)
  where
    pick : (b : Bool) → IsCoherent (if b then record r { id = ulid n } else r)
    pick true = h.0
    pick false = h.0

-- From one state of the table to a later one.
abbrev pub Grows : Database → Database → Type 0
Grows a b = IsUnique a → IsUnique b × Evolves a.rows b.rows

pub Grows-refl : (a : Database) → Grows a a
Grows-refl a u = (u, Evolves-refl a.rows)

module _ (kind : Kind) where
  pub store-Grows :
      (rs : List Reference) (db : Database)
      → All IsCoherent rs
      → Grows db (Table.store kind rs db).1
  unfolding Table.store
  store-Grows [] db h u = (u, Evolves-refl db.rows)
  store-Grows (r ∷ rs) db h u =
      pick (is_unique db.lower (db.rows ++ with_ids db.ulid db.drawn (r ∷ rs))) refl
    where
      pick :
          (b : Bool)
          → is_unique db.lower (db.rows ++ with_ids db.ulid db.drawn (r ∷ rs)) ≡ b
          → IsUnique (Table.store kind (r ∷ rs) db).1
            × Evolves db.rows (Table.store kind (r ∷ rs) db).1.rows
      pick true e = (
        ground arith,
        subst (Evolves db.rows) (ground arith) (
            Evolves-append db.rows (with_ids db.ulid db.drawn (r ∷ rs))
              (with_ids-IsCoherent db.ulid (r ∷ rs) db.drawn h)),
      )
      pick false e = (ground arith, subst (Evolves db.rows) (ground arith) (Evolves-refl db.rows))

  pub update-Grows :
      (p : Reference) (db : Database)
      → All (λ r. p.id ≡ r.id → Lives r (patched (p ∷ []) r)) db.rows
      → Grows db (Table.update kind (p ∷ []) db).1
  unfolding Table.update
  update-Grows p db h u = pick (is_unique db.lower (update_rows (p ∷ []) db.rows)) refl
    where
      pick :
          (b : Bool)
          → is_unique db.lower (update_rows (p ∷ []) db.rows) ≡ b
          → IsUnique (Table.update kind (p ∷ []) db).1
            × Evolves db.rows (Table.update kind (p ∷ []) db).1.rows
      pick true e =
          (ground arith, subst (Evolves db.rows) (ground arith) (update_one-Evolves p db.rows h))
      pick false e = (ground arith, subst (Evolves db.rows) (ground arith) (Evolves-refl db.rows))

  pub destroy-Grows : (ids : List String) (db : Database) → Grows db (Table.destroy kind ids db).1
  unfolding Table.destroy
  destroy-Grows ids db u =
      pick (select (λ r. db.referenced r.id) (select (λ r. contains ids r.id) db.rows)) refl
    where
      pick :
          (used : List Reference)
          → select (λ r. db.referenced r.id) (select (λ r. contains ids r.id) db.rows) ≡ used
          → IsUnique (Table.destroy kind ids db).1
            × Evolves db.rows (Table.destroy kind ids db).1.rows
      pick [] e =
          let left = select (λ r. not (contains ids r.id)) db.rows in
          let done : record db { rows = left } ≡ (Table.destroy kind ids db).1 = ground arith in
          (
            subst IsUnique done (select_unique db.lower (λ r. not (contains ids r.id)) db.rows u),
            subst (λ (d : Database). Evolves db.rows d.rows) done
                (select-Evolves (λ r. not (contains ids r.id)) db.rows),
          )
      pick (q ∷ qs) e =
          (ground arith, subst (Evolves db.rows) (ground arith) (Evolves-refl db.rows))

-- ===== src/Units/Descent.antt =====
-- The recursive query of feature/user/gorm_user_unit_repository.go, FindWithDescendants: what its
-- answer holds, and when it comes to an end.
use mathlib.Core.Path.{subst}
use cred_chain_golang.Base.{
  All-pure, ◌≡◌, refl, ℕ, zero, suc, ◌+◌, ◌≤◌, ◌<◌, Bool, true, ◌||◌, String, List, [], ◌∷◌, ◌++◌,
  map, Option, none, some, contains, All, arith, ◌==◌, eq_iff, Bool-cases, inl, inr, if◌then◌else◌,
  ◌⊎◌,
}
use cred_chain_golang.Domain.Fault.{ok}
use cred_chain_golang.Sql.{select}
use cred_chain_golang.Units.{UserUnit, key}
use cred_chain_golang.Units.Table.{Database, is_child, descend, find_with_descendants}

-- The row that a key finds.
unfoldable pub lookup : List UserUnit → String → Option UserUnit
lookup [] k = none
lookup (u ∷ us) k = if u.id == k then some u else lookup us k

pub lookup-id : (us : List UserUnit) (k : String) (u : UserUnit) → lookup us k ≡ some u → u.id ≡ k
unfolding lookup
lookup-id [] k u h = absurd (ground arith)
lookup-id (v ∷ us) k u h = ground (arith, eq_iff v.id k, lookup-id us k u)

-- A row that a key finds is selected, where the clause picks it.
pub select-holds :
    (p : UserUnit → Bool) (us : List UserUnit) (k : String) (u : UserUnit)
    → lookup us k ≡ some u
    → p u ≡ true
    → contains (map key (select p us)) k ≡ true
unfolding lookup select contains
select-holds p [] k u h q = absurd (ground arith)
select-holds p (v ∷ us) k u h q = ground (arith, select-holds p us k u)

contains-append :
    (us vs : List UserUnit) (k : String)
    → contains (map key (us ++ vs)) k ≡ (contains (map key us) k || contains (map key vs) k)
unfolding contains
contains-append [] vs k = refl
contains-append (u ∷ us) vs k = ground (arith, contains-append us vs k)

Option-cases : (o : Option (List UserUnit)) → (o ≡ none) ⊎ ((us : List UserUnit) × (o ≡ some us))
Option-cases none = inl refl
Option-cases (some us) = inr (us, refl)

descend-level :
    (n : ℕ) (rows level out : List UserUnit) (k : String)
    → descend n rows level ≡ some out
    → contains (map key level) k ≡ true
    → contains (map key out) k ≡ true
unfolding descend contains
descend-level zero rows level out k h q = absurd (ground arith)
descend-level (suc n) rows [] out k h q = absurd (ground arith)
descend-level (suc n) rows (u ∷ us) out k h q =
    let next = select (is_child (map key (u ∷ us))) rows in
    elim (Option-cases (descend n rows next)) [
      | inl e ↦ absurd (ground arith)
      | inr (rest, e) ↦
          let same : (u ∷ us) ++ rest ≡ out = ground arith in
          ground (arith, contains-append (u ∷ us) rest k)
    ]

descend-children :
    (n : ℕ) (rows level out : List UserUnit) (k p : String) (r : UserUnit)
    → descend n rows level ≡ some out
    → lookup rows k ≡ some r
    → r.parent_id ≡ some p
    → contains (map key out) p ≡ true
    → contains (map key out) k ≡ true
unfolding descend contains
descend-children zero rows level out k p r h at up q = absurd (ground arith)
descend-children (suc n) rows [] out k p r h at up q =
    let same : [] ≡ out = ground arith in absurd (ground arith)
descend-children (suc n) rows (u ∷ us) out k p r h at up q =
    let next = select (is_child (map key (u ∷ us))) rows in
    elim (Option-cases (descend n rows next)) [
      | inl e ↦ absurd (ground arith)
      | inr (rest, e) ↦
          let same : (u ∷ us) ++ rest ≡ out = ground arith in
          let whole = contains-append (u ∷ us) rest p in
          let there = contains-append (u ∷ us) rest k in
          elim (Bool-cases (contains (map key (u ∷ us)) p)) [
            | inl here ↦
                let child : is_child (map key (u ∷ us)) r ≡ true = ground arith in
                let found = descend-level n rows next rest k e (select-holds _ rows k r at child) in
                ground arith
            | inr below ↦
                let found = descend-children n rows next rest k p r e at up (ground arith) in
                ground arith
          ]
    ]

-- What the service uses of the answer: it has the unit, and with a unit the children of the unit.
pub record IsClosed (rows : List UserUnit) (id : String) (out : List UserUnit) : Type 0 where
  pub self : (r : UserUnit) → lookup rows id ≡ some r → contains (map key out) id ≡ true
  pub children :
      (k p : String) (r : UserUnit)
      → lookup rows k ≡ some r
      → r.parent_id ≡ some p
      → contains (map key out) p ≡ true
      → contains (map key out) k ≡ true

pub find_with_descendants-IsClosed :
    (id : String) (db : Database) (out : List UserUnit)
    → find_with_descendants id db ≡ ok out
    → IsClosed db.rows id out
unfolding find_with_descendants
find_with_descendants-IsClosed id db out h =
    let level = select (λ u. u.id == id) db.rows in
    elim (Option-cases (descend db.rounds db.rows level)) [
      | inl e ↦ absurd (ground arith)
      | inr (us, e) ↦
          let same : us ≡ out = ground arith in
          record {
            self = λ r at.
                let found = descend-level db.rounds db.rows level us id e (
                  select-holds _ db.rows id r at
                    (ground (arith, lookup-id db.rows id r at, eq_iff r.id id))) in
                ground arith;
            children = λ k p r at up q.
                let found =
                  descend-children db.rounds db.rows level us k p r e at up (ground arith) in
                ground arith;
          }
    ]

-- A unit's depth is at most `height`, and its parent is less deep.
abbrev pub IsBelow : (String → ℕ) → ℕ → UserUnit → Type 0
IsBelow depth height u =
    (depth u.id ≤ height) × ((p : String) → u.parent_id ≡ some p → depth p < depth u.id)

-- A level whose units are at least `least` deep.
abbrev IsDeep : (String → ℕ) → ℕ → List UserUnit → Type 0
IsDeep depth least = All λ u. least ≤ depth u.id

deep-parent :
    (depth : String → ℕ) (least : ℕ) (level : List UserUnit) (p : String)
    → IsDeep depth least level
    → contains (map key level) p ≡ true
    → least ≤ depth p
unfolding contains
deep-parent depth least [] p d h = absurd (ground arith)
deep-parent depth least (u ∷ us) p d h = elim (Bool-cases (u.id == p)) [
  | inl e ↦
      let same : u.id ≡ p = ground (arith, eq_iff u.id p) in subst (λ k. least ≤ depth k) same d.0
  | inr e ↦ deep-parent depth least us p d.1 (ground arith)
]

child-parent :
    (ids : List String) (u : UserUnit)
    → is_child ids u ≡ true
    → (p : String) × (u.parent_id ≡ some p) × (contains ids p ≡ true)
child-parent ids u h = pick u.parent_id refl
  where
    pick :
        (o : Option String)
        → u.parent_id ≡ o
        → (p : String) × (u.parent_id ≡ some p) × (contains ids p ≡ true)
    pick none e = absurd (ground arith)
    pick (some p) e = (p, e, ground arith)

select-IsDeep :
    (depth : String → ℕ) (height least : ℕ) (level rows : List UserUnit)
    → IsDeep depth least level
    → All (IsBelow depth height) rows
    → IsDeep depth (suc least) (select (is_child (map key level)) rows)
unfolding select
select-IsDeep depth height least level [] d h = tt
select-IsDeep depth height least level (u ∷ us) d h =
    let rest = select-IsDeep depth height least level us d h.1 in
    elim (Bool-cases (is_child (map key level) u)) [
      | inr e ↦ subst (IsDeep depth (suc least)) (ground arith) rest
      | inl e ↦
          let (p, up, within) = child-parent (map key level) u e in
          let above = deep-parent depth least level p d within in
          let below = h.0.1 p up in
          let mine : suc least ≤ depth u.id = omega arith in
          let eq : u ∷ select (is_child (map key level)) us
              ≡ select (is_child (map key level)) (u ∷ us) =
            ground arith in
          let both : IsDeep depth (suc least) (u ∷ select (is_child (map key level)) us) =
            (mine, rest) in
          subst (IsDeep depth (suc least)) eq both
    ]

select-IsBelow :
    (depth : String → ℕ) (height : ℕ) (p : UserUnit → Bool) (rows : List UserUnit)
    → All (IsBelow depth height) rows
    → All (IsBelow depth height) (select p rows)
unfolding select
select-IsBelow depth height p [] h = tt
select-IsBelow depth height p (u ∷ us) h =
    let rest = select-IsBelow depth height p us h.1 in
    elim (Bool-cases (p u)) [
      | inr e ↦ subst (All (IsBelow depth height)) (ground arith) rest
      | inl e ↦
          let both : All (IsBelow depth height) (u ∷ select p us) = (h.0, rest) in
          let eq : u ∷ select p us ≡ select p (u ∷ us) = ground arith in
          subst (All (IsBelow depth height)) eq both
    ]

descend_returns :
    (depth : String → ℕ) (height least n : ℕ) (rows level : List UserUnit)
    → All (IsBelow depth height) rows
    → All (IsBelow depth height) level
    → IsDeep depth least level
    → suc height < least + n
    → 1 ≤ n
    → (out : List UserUnit) × (descend n rows level ≡ some out)
unfolding descend
descend_returns depth height least zero rows level b l d k one = absurd (omega arith)
descend_returns depth height least (suc n) rows [] b l d k one = ([], refl)
descend_returns depth height least (suc n) rows (u ∷ us) b l d k one =
    let next = select (is_child (map key (u ∷ us))) rows in
    let low = l.0.0 in
    let high = d.0 in
    let (rest, e) =
      descend_returns depth height (suc least) n rows next b
        (select-IsBelow depth height (is_child (map key (u ∷ us))) rows b)
        (select-IsDeep depth height least (u ∷ us) rows d b) (omega arith) (omega arith) in
    ((u ∷ us) ++ rest, ground arith)

-- On a table where the depth of every unit is at most `height` and more than that of its parent, the
-- recursive query is done within two rounds more than the height and gives an answer, which has the
-- unit, if the table has it, and with a unit all its children.
pub find_with_descendants_returns :
    (depth : String → ℕ) (height : ℕ) (id : String) (db : Database)
    → All (IsBelow depth height) db.rows
    → suc height < db.rounds
    → (out : List UserUnit) × (find_with_descendants id db ≡ ok out) × IsClosed db.rows id out
unfolding find_with_descendants
find_with_descendants_returns depth height id db b k =
    let level = select (λ u. u.id == id) db.rows in
    let (out, e) =
      descend_returns depth height 0 db.rounds db.rows level b
        (select-IsBelow depth height (λ u. u.id == id) db.rows b)
        (All-pure (λ u. omega arith) level) (omega arith) (omega arith) in
    let done : find_with_descendants id db ≡ ok out = ground arith in
    (out, done, find_with_descendants-IsClosed id db out done)

-- ===== src/Units/Tree.antt =====
-- The tree that the table user_units holds, and which rewritings of its rows keep it.
use cred_chain_golang.Base.{
  ◌≡◌, ℕ, suc, ◌<◌, Bool, true, false, not, String, List, [], ◌∷◌, ◌++◌, map, Option, none, some,
  contains, arith, ◌==◌, eq_iff, Bool-cases, inl, inr, if◌then◌else◌, ◌⊎◌,
}
use cred_chain_golang.Sql.{select}
use cred_chain_golang.Units.{UserUnit, key}
use cred_chain_golang.Units.Descent.{lookup}

-- Where a unit with a parent stands: the parent exists, is less deep, and is active if the unit is.
pub record Hangs (depth : String → ℕ) (rows : List UserUnit) (k p : String) (active : Bool)
    : Type 0 where
  pub parent : UserUnit
  pub there : lookup rows p ≡ some parent
  pub deeper : depth p < depth k
  pub live : active ≡ true → parent.active ≡ true

-- Every parent exists, the parents have no cycle, and no active unit is under an inactive one.
pub record IsTree (rows : List UserUnit) : Type 0 where
  pub depth : String → ℕ
  pub hangs :
      (k p : String) (r : UserUnit)
      → lookup rows k ≡ some r
      → r.parent_id ≡ some p
      → Hangs depth rows k p r.active

pub lookup-map :
    (f : UserUnit → UserUnit) (rows : List UserUnit) (k : String) (r : UserUnit)
    → ((u : UserUnit) → (f u).id ≡ u.id)
    → lookup rows k ≡ some r
    → lookup (map f rows) k ≡ some (f r)
unfolding lookup
lookup-map f [] k r same h = absurd (ground arith)
lookup-map f (u ∷ us) k r same h = ground (arith, same u, lookup-map f us k r same)

pub lookup-unmap :
    (f : UserUnit → UserUnit) (rows : List UserUnit) (k : String) (r' : UserUnit)
    → ((u : UserUnit) → (f u).id ≡ u.id)
    → lookup (map f rows) k ≡ some r'
    → (r : UserUnit) × (lookup rows k ≡ some r) × (r' ≡ f r)
unfolding lookup
lookup-unmap f [] k r' same h = absurd (ground arith)
lookup-unmap f (u ∷ us) k r' same h = elim (Bool-cases (u.id == k)) [
  | inl e ↦ (u, ground arith, ground (arith, same u))
  | inr e ↦
      let (r, at, eq) = lookup-unmap f us k r' same (ground (arith, same u)) in
      (r, ground arith, eq)
]

-- A rewriting keeps the tree if every rewritten unit has its place among the units before.
pub map-IsTree :
    (f : UserUnit → UserUnit) (rows : List UserUnit) (depth : String → ℕ)
    → ((u : UserUnit) → (f u).id ≡ u.id)
    → ((k p : String) (r : UserUnit)
        → lookup rows k ≡ some r
        → (f r).parent_id ≡ some p
        → (q : UserUnit) × (lookup rows p ≡ some q)
          × (depth p < depth k)
          × ((f r).active ≡ true → (f q).active ≡ true))
    → IsTree (map f rows)
map-IsTree f rows depth same h = record {
  depth = depth;
  hangs = λ k p r' at up.
      let (r, before, eq) = lookup-unmap f rows k r' same at in
      let (q, there, deeper, live) = h k p r before (ground arith) in
      record {
        parent = f q;
        there = lookup-map f rows p q same there;
        deeper = deeper;
        live = λ a. live (ground arith);
      };
}

lookup-select :
    (ids : List String) (rows : List UserUnit) (k : String) (r : UserUnit)
    → contains ids k ≡ false
    → lookup rows k ≡ some r
    → lookup (select (λ u. not (contains ids u.id)) rows) k ≡ some r
unfolding lookup select
lookup-select ids [] k r h at = absurd (ground arith)
lookup-select ids (u ∷ us) k r h at = elim (Bool-cases (u.id == k)) [
  | inl e ↦ let same : u.id ≡ k = ground (arith, eq_iff u.id k) in ground arith
  | inr e ↦ ground (arith, lookup-select ids us k r h)
]

lookup-unselect :
    (ids : List String) (rows : List UserUnit) (k : String) (r : UserUnit)
    → lookup (select (λ u. not (contains ids u.id)) rows) k ≡ some r
    → (lookup rows k ≡ some r) × (contains ids k ≡ false)
unfolding lookup select
lookup-unselect ids [] k r at = absurd (ground arith)
lookup-unselect ids (u ∷ us) k r at = elim (Bool-cases (contains ids u.id)) [
  | inl gone ↦
      let (before, out) = lookup-unselect ids us k r (ground arith) in
      elim (Bool-cases (u.id == k)) [
        | inl e ↦ let same : u.id ≡ k = ground (arith, eq_iff u.id k) in absurd (ground arith)
        | inr e ↦ (ground arith, out)
      ]
  | inr kept ↦ elim (Bool-cases (u.id == k)) [
    | inl e ↦ let same : u.id ≡ k = ground (arith, eq_iff u.id k) in (ground arith, ground arith)
    | inr e ↦ let (before, out) = lookup-unselect ids us k r (ground arith) in (ground arith, out)
  ]
]

-- A deletion keeps the tree if no unit has a parent among the deleted.
pub select-IsTree :
    (ids : List String) (rows : List UserUnit)
    → ((k p : String) (r : UserUnit)
        → lookup rows k ≡ some r
        → r.parent_id ≡ some p
        → contains ids p ≡ false)
    → IsTree rows
    → IsTree (select (λ u. not (contains ids u.id)) rows)
select-IsTree ids rows free t = record {
  depth = t.depth;
  hangs = λ k p r at up.
      let (before, out) = lookup-unselect ids rows k r at in
      let h = t.hangs k p r before up in
      record {
        parent = h.parent;
        there = lookup-select ids rows p h.parent (free k p r before up) h.there;
        deeper = h.deeper;
        live = h.live;
      };
}

lookup-appended :
    (rows : List UserUnit) (u : UserUnit) (k : String) (r : UserUnit)
    → lookup rows k ≡ some r
    → lookup (rows ++ (u ∷ [])) k ≡ some r
unfolding lookup
lookup-appended [] u k r h = absurd (ground arith)
lookup-appended (v ∷ vs) u k r h = ground (arith, lookup-appended vs u k r)

lookup-unappended :
    (rows : List UserUnit) (u : UserUnit) (k : String) (r : UserUnit)
    → lookup (rows ++ (u ∷ [])) k ≡ some r
    → (lookup rows k ≡ some r) ⊎ ((r ≡ u) × (u.id ≡ k))
unfolding lookup
lookup-unappended [] u k r h = elim (Bool-cases (u.id == k)) [
  | inl e ↦ inr (ground arith, ground (arith, eq_iff u.id k))
  | inr e ↦ absurd (ground arith)
]
lookup-unappended (v ∷ vs) u k r h = elim (Bool-cases (v.id == k)) [
  | inl e ↦ inl (ground arith)
  | inr e ↦ elim (lookup-unappended vs u k r (ground arith)) [
    | inl at ↦ inl (ground arith)
    | inr same ↦ inr same
  ]
]

pub lookup-contains :
    (rows : List UserUnit) (k : String) (r : UserUnit)
    → lookup rows k ≡ some r
    → contains (map key rows) k ≡ true
unfolding lookup contains
lookup-contains [] k r h = absurd (ground arith)
lookup-contains (u ∷ us) k r h = ground (arith, lookup-contains us k r)

abbrev above_new : (String → ℕ) → Option String → ℕ
above_new depth none = 0
above_new depth (some p) = suc (depth p)

-- The depths with a new unit.
abbrev with_new : (String → ℕ) → UserUnit → String → ℕ
with_new depth u k = if k == u.id then above_new depth u.parent_id else depth k

-- An insert keeps the tree if the new id is free and the new unit has a place among the units before.
pub append-IsTree :
    (rows : List UserUnit) (u : UserUnit)
    → contains (map key rows) u.id ≡ false
    → ((p : String)
        → u.parent_id ≡ some p
        → (q : UserUnit) × (lookup rows p ≡ some q) × (u.active ≡ true → q.active ≡ true))
    → IsTree rows
    → IsTree (rows ++ (u ∷ []))
append-IsTree rows u free place t = record {
  depth = with_new t.depth u;
  hangs = λ k p r at up. elim (lookup-unappended rows u k r at) [
    | inl before ↦
        let h = t.hangs k p r before up in
        let known = lookup-contains rows k r before in
        let above = lookup-contains rows p h.parent h.there in
        record {
          parent = h.parent;
          there = lookup-appended rows u p h.parent h.there;
          deeper = let deep = h.deeper in ground (arith, eq_iff k u.id, eq_iff p u.id);
          live = h.live;
        }
    | inr (same, id) ↦
        let (q, there, live) = place p (ground arith) in
        let above = lookup-contains rows p q there in
        record {
          parent = q;
          there = lookup-appended rows u p q there;
          deeper = ground (arith, eq_iff k u.id, eq_iff p u.id);
          live = λ a. live (ground arith);
        }
  ];
}

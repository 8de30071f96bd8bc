-- ===== src/Examples/Units.antt =====
-- The unit service over the repository's table, on a tree of three units.
use cred_chain_golang.Base.{
  ◌≡◌, refl, ℕ, Bool, true, false, String, List, [], ◌∷◌, none, some, All, arith, ◌==◌,
  if◌then◌else◌, inl, inr, ◌<◌, Bool-cases, eq_iff,
}
use mathlib.Core.Path.{subst}
use cred_chain_golang.Domain.Fault.{ok}
use cred_chain_golang.Effect.{Backend, World}
use cred_chain_golang.Units.{UserUnit, UserUnitService}
use cred_chain_golang.Units.Table.{Database, repository, find_with_descendants}
use cred_chain_golang.Units.Descent.{lookup, IsClosed, IsBelow, find_with_descendants_returns}
use cred_chain_golang.Units.Tree.{IsTree, Hangs}
use cred_chain_golang.Units.Backing.{IsBacked}
use cred_chain_golang.Units.Requests.{UnitRequest, IsNamed, serve_all, serve_all-IsTree}

abbrev faculty : UserUnit
faculty = record { id = "N1"; parent_id = none; name = "Faculty"; active = true }

abbrev program : UserUnit
program = record { id = "N2"; parent_id = some "N1"; name = "Program"; active = true }

abbrev group : UserUnit
group = record { id = "N3"; parent_id = some "N2"; name = "Group"; active = false }

abbrev units : Database
units = record {
  rows = faculty ∷ program ∷ group ∷ [];
  assigned = λ id. false;
  rounds = 5;
  ulid = λ n. "N4";
  drawn = 0;
}

abbrev tables : Backend
tables = record { Db = Database; Chain = ℕ; Queue = ℕ; Files = List String; Cache = ℕ }

abbrev service : UserUnitService tables
service = record {
  unit_repo = repository;
  count_by_unit_ids = λ ids db. ok 0;
  trim_space = λ text. text;
}

abbrev world : World tables
world = record { db = units; chain = 0; queue = 0; files = []; cache = 0; drawn = 0 }

abbrev whole : Database → Database
whole db = db

law : IsBacked service whole
unfolding repository
law = record {
  find = λ id db u h. h;
  find_with_descendants = λ id db us h. h;
  count_by_parent_ids = λ ids db n h. h;
  store = λ us db. inr refl;
  update = λ us db. inr refl;
  update_parent = λ id p db. inr refl;
  destroy = λ ids db. inr refl;
}

abbrev depth : String → ℕ
depth k = if k == "N3" then 2 else (if k == "N2" then 1 else 0)

program-Hangs : Hangs depth units.rows "N2" "N1" true
unfolding lookup
program-Hangs = record { parent = faculty; there = refl; deeper = omega arith; live = λ a. refl }

group-Hangs : Hangs depth units.rows "N3" "N2" false
unfolding lookup
group-Hangs = record { parent = program; there = refl; deeper = omega arith; live = λ a. refl }

placed :
    (k l p q : String) (a b : Bool)
    → Hangs depth units.rows k p a
    → k ≡ l
    → p ≡ q
    → a ≡ b
    → Hangs depth units.rows l q b
placed k l p q a b h e f g =
    subst (λ l. Hangs depth units.rows l q b) e
      (subst (λ q. Hangs depth units.rows k q b) f (subst (Hangs depth units.rows k p) g h))

tree : IsTree units.rows
unfolding lookup
tree = record {
  depth = depth;
  hangs = λ k p r at up. elim (Bool-cases ("N2" == k)) [
    | inl e ↦
        placed "N2" k "N1" p true r.active program-Hangs (ground (arith, eq_iff "N2" k))
          (ground arith) (ground arith)
    | inr e ↦
        placed "N3" k "N2" p false r.active group-Hangs
          (ground (arith, eq_iff "N3" k, eq_iff "N1" k)) (ground arith) (ground arith)
  ];
}

-- A deactivation with all below, a new unit under the deactivated one, a move to the root, and a
-- deletion.
abbrev requests : List UnitRequest
requests =
    UnitRequest.updating "N2" (some "Programme") none false (some false)
    ∷ UnitRequest.storing "Team" (some "N2")
    ∷ UnitRequest.updating "N3" none none true none
    ∷ UnitRequest.destroying ("N3" ∷ [])
    ∷ []

named : All IsNamed requests
unfolding IsNamed
named = (refl, (tt, (refl, (tt, tt))))

serve_all-IsTree_example : IsTree (serve_all service requests world).db.rows
serve_all-IsTree_example = serve_all-IsTree service whole law requests world named tree

below : All (IsBelow depth 2) units.rows
below = (
  (omega arith, λ p h. absurd (ground arith)),
  ((omega arith, λ p h. one p (ground arith)), ((omega arith, λ p h. two p (ground arith)), tt)),
)
  where
    one : (p : String) → "N1" ≡ p → depth p < 1
    one p e = subst (λ p. depth p < 1) e (omega arith)

    two : (p : String) → "N2" ≡ p → depth p < 2
    two p e = subst (λ p. depth p < 2) e (omega arith)

find_with_descendants_returns_example :
    (out : List UserUnit) × (find_with_descendants "N2" units ≡ ok out)
    × IsClosed units.rows "N2" out
find_with_descendants_returns_example =
    find_with_descendants_returns depth 2 "N2" units below (omega arith)

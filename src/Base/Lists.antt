-- ===== src/Base/Lists.antt =====
-- Lists of texts as the services use them: membership, `lo.Difference`, `lo.Uniq`, `lo.SliceToMap`,
-- and predicates that hold at every element.
use Prim.Native.Nat.{ℕ, zero, suc}
use Prim.Native.String.{String}
use mathlib.Core.Path.{◌≡◌}
use mathlib.Core.Bool.{Bool, true, false, ◌||◌}
use mathlib.Core.Option.{Option, none, some}
use mathlib.Core.List.{List, [], ◌∷◌, map}
use mathlib.Core.Logic.{◌⊎◌, inl}
use native.Mathlib.Omega.{arith}
use text.Mathlib.Text.{◌==◌}
use text.Mathlib.TextEquality.{eq_iff}
use cred_chain_golang.Base.Tests.{if◌then◌else◌}

module _ {ℓ} {A : Type ℓ} where
  abbrev pub length : List A → ℕ
  length [] = 0
  length (x ∷ xs) = suc (length xs)

  abbrev pub is_empty : List A → Bool
  is_empty [] = true
  is_empty (x ∷ xs) = false

  abbrev pub get_elem? : List A → ℕ → Option A
  get_elem? [] i = none
  get_elem? (x ∷ xs) zero = some x
  get_elem? (x ∷ xs) (suc i) = get_elem? xs i

abbrev pub All {ℓ κ} : {A : Type ℓ} → (A → Type κ) → List A → Type κ
All P [] = Unit
All P (x ∷ xs) = P x × All P xs

-- What holds at every element still holds when it is weakened.
pub All-map {ℓ κ} :
    {A : Type ℓ} {P Q : A → Type κ} (f : (a : A) → P a → Q a) (xs : List A) → All P xs → All Q xs
All-map f [] h = tt
All-map f (x ∷ xs) h = (f x h.0, All-map f xs h.1)

pub All-pure {ℓ κ} : {A : Type ℓ} {P : A → Type κ} (f : (a : A) → P a) (xs : List A) → All P xs
All-pure f [] = tt
All-pure f (x ∷ xs) = (f x, All-pure f xs)

unfoldable pub contains : List String → String → Bool
contains [] k = false
contains (x ∷ xs) k = x == k || contains xs k

-- The left half of `lo.Difference(xs, ys)`: the elements of `xs` that `ys` lacks, in order.
unfoldable pub difference : List String → List String → List String
unfolding contains
difference [] ys = []
difference (x ∷ xs) ys = let rest = difference xs ys in if contains ys x then rest else x ∷ rest

-- `lo.Uniq`: the first occurrence of each element. `seen` holds what was kept so far.
unfoldable pub uniq_from : List String → List String → List String
unfolding contains
uniq_from seen [] = []
uniq_from seen (x ∷ xs) =
    let known = contains seen x in
    let rest = uniq_from (if known then seen else x ∷ seen) xs in if known then rest else x ∷ rest

unfoldable pub uniq : List String → List String
unfolding uniq_from
uniq xs = uniq_from [] xs

-- `lo.SliceToMap`: a later element replaces an earlier one of the same key.
unfoldable pub slice_to_map {ℓ κ} :
    {A : Type ℓ} {B : Type κ} → (A → String) → (A → B) → List A → String → Option B
slice_to_map key val [] k = none
slice_to_map key val (x ∷ xs) k = elim (slice_to_map key val xs k) [
  | some v ↦ some v
  | none ↦ if key x == k then some (val x) else none
]

-- A key that the difference leaves out is in the second list.
pub difference-nil :
    (xs ys : List String) → difference xs ys ≡ [] → All (λ x. contains ys x ≡ true) xs
unfolding difference
difference-nil [] ys h = tt
difference-nil (x ∷ xs) ys h = (ground arith, difference-nil xs ys (ground arith))

-- What the map holds at a key is the value of an element of the slice with that key.
pub slice_to_map-contains {ℓ} :
    {A : Type ℓ} (key : A → String) (xs : List A) (k : String) (v : A)
    → slice_to_map key (λ x. x) xs k ≡ some v
    → key v ≡ k
unfolding slice_to_map
slice_to_map-contains key [] k v h = ground arith
slice_to_map-contains key (x ∷ xs) k v h =
    ground (arith, eq_iff (key x) k, slice_to_map-contains key xs k v)

-- Two lists of one length, related element by element.
abbrev pub Aligned : {A B : Type 0} → (A → B → Type 0) → List A → List B → Type 0
Aligned R [] [] = Unit
Aligned R [] (b ∷ bs) = ⊥
Aligned R (a ∷ as') [] = ⊥
Aligned R (a ∷ as') (b ∷ bs) = R a b × Aligned R as' bs

pub map-Aligned :
    {A B : Type 0} (R : A → B → Type 0) (f : A → B)
    → ((a : A) → R a (f a))
    → (xs : List A) → Aligned R xs (map f xs)
map-Aligned R f h [] = tt
map-Aligned R f h (x ∷ xs) = (h x, map-Aligned R f h xs)

pub map_of_All-Aligned :
    {A B : Type 0} {P : A → Type 0} (R : A → B → Type 0) (f : A → B)
    → ((a : A) → P a → R a (f a))
    → (xs : List A) → All P xs
    → Aligned R xs (map f xs)
map_of_All-Aligned R f h [] ps = tt
map_of_All-Aligned R f h (x ∷ xs) ps = (h x ps.0, map_of_All-Aligned R f h xs ps.1)

-- A filter that rewrites what it keeps: each element of the first list is left out, and then `N` holds
-- of it, or is kept, and then `R` relates it to the element of the second list at its turn.
abbrev pub Filtered : {A B : Type 0} → (A → Type 0) → (A → B → Type 0) → List A → List B → Type 0
Filtered N R [] [] = Unit
Filtered N R [] (b ∷ bs) = ⊥
Filtered N R (a ∷ as') [] = N a × Filtered N R as' []
Filtered N R (a ∷ as') (b ∷ bs) = (N a × Filtered N R as' (b ∷ bs)) ⊎ (R a b × Filtered N R as' bs)

-- An element is left out, whatever was kept of the rest.
pub Filtered-out :
    {A B : Type 0} (N : A → Type 0) (R : A → B → Type 0) (a : A) (xs : List A) (ys : List B)
    → N a
    → Filtered N R xs ys
    → Filtered N R (a ∷ xs) ys
Filtered-out N R a xs [] n h = (n, h)
Filtered-out N R a xs (y ∷ ys) n h = inl (n, h)

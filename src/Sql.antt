-- ===== src/Sql.antt =====
-- infrastructure/database/gorm/helpers.go and the WHERE clauses of the repositories: what the SQL that
-- they build does to a list of rows, of any table with a text key.
use cred_chain_golang.Base.{
  ◌≡◌, refl, Bool, true, String, List, [], ◌∷◌, map, Option, none, some, contains, All, arith, ◌==◌,
  if◌then◌else◌,
}

-- The rows that a WHERE clause picks.
unfoldable pub select {ℓ} : {R : Type ℓ} → (R → Bool) → List R → List R
select p [] = []
select p (c ∷ cs) = let rest = select p cs in if p c then c ∷ rest else rest

-- `CASE id WHEN ? THEN ? ... ELSE column END` of BuildCaseColumnSQL: the first pair of the row's id
-- gives the value, and `none` stands for ELSE. `get` is the function handed to `addCol`.
unfoldable pub case_value {ℓ κ} :
    {R : Type ℓ} {A : Type κ} → (R → String) → (R → Option A) → List R → String → Option A
case_value key get [] id = none
case_value key get (p ∷ ps) id =
    let rest = case_value key get ps id in
    if key p == id then elim (get p) [ some v ↦ some v | none ↦ rest ] else rest

abbrev pub or_kept {ℓ} : {A : Type ℓ} → Option A → A → A
or_kept none old = old
or_kept (some v) old = v

abbrev pub or_old {ℓ} : {A : Type ℓ} → Option A → Option A → Option A
or_old none old = old
or_old (some v) old = some v

-- `if c.Name != "" { return c.Name, true }`
abbrev pub given_text : String → Option String
given_text text = if text == "" then none else some text

module _ {ℓ κ} {R : Type ℓ} {A : Type κ} (key : R → String) (get : R → Option A) where
  -- A column that no item gives falls to its ELSE.
  pub case_value-none :
      (ps : List R) (id : String) → All (λ p. get p ≡ none) ps → case_value key get ps id ≡ none
  unfolding case_value
  case_value-none [] id h = refl
  case_value-none (p ∷ ps) id h = ground (arith, case_value-none ps id h.1)

  -- A column that every item gives the same value has it in the rows that the items name.
  pub case_value-some :
      (v : A) (ps : List R) (id : String)
      → All (λ p. get p ≡ some v) ps
      → case_value key get ps id ≡ (if contains (map key ps) id then some v else none)
  unfolding case_value contains
  case_value-some v [] id h = refl
  case_value-some v (p ∷ ps) id h = ground (arith, case_value-some v ps id h.1)

  -- The items that name a row agree on a column, or leave it out.
  pub case_value-same :
      (at : Option A) (ps : List R) (id : String)
      → All (λ p. get p ≡ at) ps
      → contains (map key ps) id ≡ true
      → case_value key get ps id ≡ at
  case_value-same none ps id h k = case_value-none ps id h
  case_value-same (some v) ps id h k = ground (arith, case_value-some v ps id h)

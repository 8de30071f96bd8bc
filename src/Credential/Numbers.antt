-- ===== src/Credential/Numbers.antt =====
-- The number checks that issueValidate, submitValidate and updateValidateNumberUniqueness share: a
-- number is taken if a row of the same organization has it. A wanted number is the pair of its
-- organization and itself; the source joins the two by a NUL. The organizations are asked in the order
-- in which they first occur, where Go ranges over a map.
pub mod Unused
use mathlib.Core.Path.{subst}
use cred_chain_golang.Effect.Laws.{Result-cases}
use cred_chain_golang.Base.{
  ◌≡◌, ◌≢◌, refl, sym, All, contains, uniq_from, true, arith, Bool-cases, inl, inr, eq_iff, eq_refl,
  Option, Bool, false, ◌&&◌, ◌||◌, String, List, [], ◌∷◌, ◌++◌, map, none, some, uniq,
  if◌then◌else◌, ◌==◌,
}
use cred_chain_golang.Domain.Fault.{Result, ok, err}
use cred_chain_golang.Domain.Credential.{Credential}
use cred_chain_golang.Credential.Ports.{CredentialRepository}

unfoldable pub numbers_of_org : String → List (String × String) → List String
numbers_of_org org [] = []
numbers_of_org org ((o, n) ∷ wanted) =
    let rest = numbers_of_org org wanted in if o == org then n ∷ rest else rest

abbrev pub orgs_of : List (String × String) → List String
orgs_of wanted = uniq (map (λ (w : String × String). w.0) wanted)

-- `duplicateNumbers[org+"\x00"+*r.Number] = true` for the rows of one organization.
unfoldable pub pairs_of_rows : String → List Credential → List (String × String)
pairs_of_rows org [] = []
pairs_of_rows org (r ∷ rs) =
    let rest = pairs_of_rows org rs in elim r.number [ none ↦ rest | some n ↦ (org, n) ∷ rest ]

unfoldable pub holds_pair : List (String × String) → String → String → Bool
holds_pair [] org n = false
holds_pair ((o, m) ∷ ps) org n = o == org && m == n || holds_pair ps org n

module _ {Db : Type 0} (repo : CredentialRepository Db) where
  abbrev pub rows_or_none : Result (List Credential) → List Credential
  rows_or_none (ok rows) = rows
  rows_or_none (err e) = []

  -- Issue and Submit go on past an organization whose query fails.
  unfoldable pub taken_from : List String → List (String × String) → Db → List (String × String)
  taken_from [] wanted db = []
  taken_from (org ∷ orgs) wanted db =
      pairs_of_rows org (rows_or_none (repo.rows_by_numbers org (numbers_of_org org wanted) db))
      ++ taken_from orgs wanted db

  unfoldable pub taken_numbers : List (String × String) → Db → List (String × String)
  unfolding taken_from
  taken_numbers wanted db = taken_from (orgs_of wanted) wanted db

  -- Update stops at it.
  unfoldable pub taken_strict :
      List String → List (String × String) → Db → Result (List (String × String))
  taken_strict [] wanted db = ok []
  taken_strict (org ∷ orgs) wanted db =
      let rest = taken_strict orgs wanted db in
      elim (repo.rows_by_numbers org (numbers_of_org org wanted) db) [
        | err e ↦ err e
        | ok rows ↦ elim rest [ err e ↦ err e | ok more ↦ ok (pairs_of_rows org rows ++ more) ]
      ]

-- ===== src/Credential/Numbers/Unused.antt =====
-- What it means that a wanted number is not taken: no row that the repository gave for its organization
-- has it.
use mathlib.Core.Path.{subst}
use cred_chain_golang.Effect.Laws.{Result-cases}
use cred_chain_golang.Base.{
  ◌≡◌, ◌≢◌, refl, sym, All, contains, uniq_from, true, arith, Bool-cases, inl, inr, eq_iff, eq_refl,
  Option, false, String, List, [], ◌∷◌, ◌++◌, map, none, some, uniq, ◌==◌,
}
use cred_chain_golang.Domain.Fault.{Result, ok, err}
use cred_chain_golang.Domain.Credential.{Credential}
use cred_chain_golang.Credential.Ports.{CredentialRepository}
use cred_chain_golang.Credential.Numbers.{
  numbers_of_org, orgs_of, pairs_of_rows, holds_pair, rows_or_none, taken_from, taken_numbers,
  taken_strict,
}

module _ {Db : Type 0} (repo : CredentialRepository Db) where
  -- A number was asked for in its organization, and no row of the answer has it.
  pub record IsUnused (org n : String) (db : Db) : Type 0 where
    pub asked : List String
    pub rows : List Credential
    pub among : contains asked n ≡ true
    pub answered : repo.rows_by_numbers org asked db ≡ ok rows
    pub unused : All (λ r. r.number ≢ some n) rows

  -- The same, where an organization whose query fails is passed over.
  abbrev pub IsUnusedIn : String → List String → Result (List Credential) → String → Type 0
  IsUnusedIn org asked (err e) n = contains asked n ≡ true
  IsUnusedIn org asked (ok rows) n = (contains asked n ≡ true) × All (λ r. r.number ≢ some n) rows

-- A pair of an organization and a number stands in the list.
pub holds_pair-append :
    (ps qs : List (String × String)) (org n : String)
    → holds_pair (ps ++ qs) org n ≡ false
    → (holds_pair ps org n ≡ false) × (holds_pair qs org n ≡ false)
unfolding holds_pair
holds_pair-append [] qs org n h = (refl, h)
holds_pair-append ((o, m) ∷ ps) qs org n h =
    let (a, b) = holds_pair-append ps qs org n (ground arith) in (ground arith, b)

numbers_of_org-contains :
    (wanted : List (String × String)) (org n : String)
    → holds_pair wanted org n ≡ true
    → contains (numbers_of_org org wanted) n ≡ true
unfolding numbers_of_org holds_pair contains
numbers_of_org-contains [] org n h = absurd (ground arith)
numbers_of_org-contains ((o, m) ∷ ps) org n h = elim (Bool-cases (holds_pair ps org n)) [
  | inl e ↦ ground (arith, numbers_of_org-contains ps org n e)
  | inr e ↦ ground arith
]

pairs_of_rows-none :
    (org n : String) (rows : List Credential)
    → holds_pair (pairs_of_rows org rows) org n ≡ false
    → All (λ r. r.number ≢ some n) rows
unfolding pairs_of_rows holds_pair
pairs_of_rows-none org n [] h = tt
pairs_of_rows-none org n (r ∷ rs) h = pick r.number refl (pairs_of_rows-none org n rs)
  where
    pick :
        (o : Option String)
        → r.number ≡ o
        → (holds_pair (pairs_of_rows org rs) org n ≡ false → All (λ r. r.number ≢ some n) rs)
        → (r.number ≢ some n) × All (λ r. r.number ≢ some n) rs
    pick none e rest = ((λ q. ground arith), rest (ground arith))
    pick (some m) e rest = (
      (λ q. let same : m ≡ n = ground arith in ground (arith, eq_refl org, eq_refl n, eq_iff m n)),
      rest (ground arith),
    )

orgs_of-contains :
    (wanted : List (String × String)) (org n : String)
    → holds_pair wanted org n ≡ true
    → contains (map (λ (w : String × String). w.0) wanted) org ≡ true
unfolding holds_pair contains
orgs_of-contains [] org n h = absurd (ground arith)
orgs_of-contains ((o, m) ∷ ps) org n h = elim (Bool-cases (holds_pair ps org n)) [
  | inl e ↦ ground (arith, orgs_of-contains ps org n e)
  | inr e ↦ ground arith
]

uniq_from-contains :
    (seen xs : List String) (x : String)
    → contains xs x ≡ true
    → contains seen x ≡ false
    → contains (uniq_from seen xs) x ≡ true
unfolding uniq_from contains
uniq_from-contains seen [] x h k = absurd (ground arith)
uniq_from-contains seen (y ∷ ys) x h k = elim (Bool-cases (y == x)) [
  | inl e ↦ let same : y ≡ x = ground (arith, eq_iff y x) in ground arith
  | inr e ↦ elim (Bool-cases (contains seen y)) [
    | inl q ↦ ground (arith, uniq_from-contains seen ys x)
    | inr q ↦ ground (arith, uniq_from-contains (y ∷ seen) ys x)
  ]
]

module _ {Db : Type 0} (repo : CredentialRepository Db) (org n : String) (db : Db) where
  taken_strict_answer :
      (orgs : List String) (wanted taken : List (String × String))
      → contains orgs org ≡ true
      → holds_pair wanted org n ≡ true
      → taken_strict repo orgs wanted db ≡ ok taken
      → holds_pair taken org n ≡ false
      → IsUnused repo org n db
  unfolding taken_strict contains
  taken_strict_answer [] wanted taken m w h k = absurd (ground arith)
  taken_strict_answer (o ∷ os) wanted taken m w h k =
      elim (Result-cases (repo.rows_by_numbers o (numbers_of_org o wanted) db)) [
        | inr (e, q) ↦ absurd (ground arith)
        | inl (rows, q) ↦ elim (Result-cases (taken_strict repo os wanted db)) [
          | inr (e, p) ↦ absurd (ground arith)
          | inl (more, p) ↦
              let same : pairs_of_rows o rows ++ more ≡ taken = ground arith in
              let parts =
                holds_pair-append (pairs_of_rows o rows) more org n
                  (subst (λ t. holds_pair t org n ≡ false) (sym same) k) in
              elim (Bool-cases (o == org)) [
                | inr e ↦ taken_strict_answer os wanted more (ground arith) w p parts.1
                | inl e ↦
                    let here : o ≡ org = ground (arith, eq_iff o org) in
                    record {
                      asked = numbers_of_org org wanted;
                      rows = rows;
                      among = numbers_of_org-contains wanted org n w;
                      answered =
                          subst (λ x. repo.rows_by_numbers x (numbers_of_org x wanted) db ≡ ok rows)
                            here q;
                      unused = pairs_of_rows-none org n rows (
                          subst (λ x. holds_pair (pairs_of_rows x rows) org n ≡ false) here
                            parts.0);
                    }
              ]
        ]
      ]

  -- A number that was wanted and is not among the taken ones is used by no row that was asked for.
  pub taken_strict-IsUnused :
      (wanted taken : List (String × String))
      → holds_pair wanted org n ≡ true
      → taken_strict repo (orgs_of wanted) wanted db ≡ ok taken
      → holds_pair taken org n ≡ false
      → IsUnused repo org n db
  unfolding uniq
  taken_strict-IsUnused wanted taken w h k =
      taken_strict_answer (orgs_of wanted) wanted taken
        (uniq_from-contains [] (map (λ (w : String × String). w.0) wanted) org
          (orgs_of-contains wanted org n w) (unfold contains in refl))
        w h k

  taken_from-unused :
      (orgs : List String) (wanted : List (String × String))
      → contains orgs org ≡ true
      → holds_pair wanted org n ≡ true
      → holds_pair (taken_from repo orgs wanted db) org n ≡ false
      → (asked : List String) × IsUnusedIn repo org asked (repo.rows_by_numbers org asked db) n
  unfolding taken_from contains
  taken_from-unused [] wanted m w k = absurd (ground arith)
  taken_from-unused (o ∷ os) wanted m w k =
      let parts = holds_pair-append (pairs_of_rows o _) _ org n k in
      elim (Bool-cases (o == org)) [
        | inr e ↦ taken_from-unused os wanted (ground arith) w parts.1
        | inl e ↦
            let here : o ≡ org = ground (arith, eq_iff o org) in
            (
              numbers_of_org org wanted,
              answer here (repo.rows_by_numbers org (numbers_of_org org wanted) db) refl parts.0,
            )
      ]
    where
      answer :
          o ≡ org
          → (r : Result (List Credential))
          → repo.rows_by_numbers org (numbers_of_org org wanted) db ≡ r
          → holds_pair
              (pairs_of_rows o
                (rows_or_none repo (repo.rows_by_numbers o (numbers_of_org o wanted) db)))
              org
              n
            ≡ false
          → IsUnusedIn repo org (numbers_of_org org wanted) r n
      answer here (err e) q p = numbers_of_org-contains wanted org n w
      answer here (ok rows) q p =
          (numbers_of_org-contains wanted org n w, pairs_of_rows-none org n rows (ground arith))

  -- The same for Issue and Submit.
  pub taken_numbers-unused :
      (wanted : List (String × String))
      → holds_pair wanted org n ≡ true
      → holds_pair (taken_numbers repo wanted db) org n ≡ false
      → (asked : List String) × IsUnusedIn repo org asked (repo.rows_by_numbers org asked db) n
  unfolding taken_numbers uniq
  taken_numbers-unused wanted w k =
      taken_from-unused (orgs_of wanted) wanted
        (uniq_from-contains [] (map (λ (w : String × String). w.0) wanted) org
          (orgs_of-contains wanted org n w) (unfold contains in refl))
        w k

-- ===== src/Credential/Intake/Facts.antt =====
-- What issueValidate looks up for a batch, in terms of what it asked the database and the chain.
use cred_chain_golang.Base.{
  ℕ, ◌≡◌, ◌≢◌, refl, sym, true, false, String, List, [], ◌∷◌, ◌++◌, map, All, All-map, Option, none,
  some, arith, contains, slice_to_map, uniq, is_empty, Bool-cases, inl, inr, eq_iff, eq_refl, ◌∙◌,
}
use mathlib.Core.Path.{subst}
use cred_chain_golang.Domain.Fault.{ok}
use cred_chain_golang.Domain.Reference.{Reference}
use cred_chain_golang.Domain.User.{User}
use cred_chain_golang.Effect.{Backend}
use cred_chain_golang.Effect.Laws.{Result-cases}
use cred_chain_golang.Credential.Ports.{CredentialService}
use cred_chain_golang.Credential.Numbers.{holds_pair}
use cred_chain_golang.Credential.Numbers.Unused.{IsUnusedIn, taken_numbers-unused}
use cred_chain_golang.Credential.Intake.Validate.{
  CredentialIssuance, active_hashes, wanted_number, wanted_by_issuances, existing_competencies,
  issue_facts, all_ids, BatchFacts,
}
use cred_chain_golang.Credential.Intake.Sound.{IsUsableRow, IsFreeNumber, IsIssuable}

-- No file of the batch is on chain: no status, at its place, is 1, which stands for Issued.
abbrev pub NotIssued : List CredentialIssuance → List ℕ → Type 0
NotIssued [] sts = Unit
NotIssued (it ∷ its) [] = Unit
NotIssued (it ∷ its) (st ∷ sts) = (st ≢ 1) × NotIssued its sts

active_hashes-head :
    (h : String) (hs : List String) (st : ℕ) (sts : List ℕ)
    → contains (active_hashes (h ∷ hs) (st ∷ sts)) h ≡ false
    → st ≢ 1
unfolding active_hashes contains
active_hashes-head h hs st sts k e = ground (arith, eq_refl h)

active_hashes-tail :
    (h : String) (hs : List String) (st : ℕ) (sts : List ℕ) (k : String)
    → contains (active_hashes (h ∷ hs) (st ∷ sts)) k ≡ false
    → contains (active_hashes hs sts) k ≡ false
unfolding active_hashes contains
active_hashes-tail h hs st sts k e = ground arith

wanted-append :
    (ps qs : List (String × String)) (org n : String)
    → holds_pair qs org n ≡ true
    → holds_pair (ps ++ qs) org n ≡ true
unfolding holds_pair
wanted-append [] qs org n h = h
wanted-append ((o, m) ∷ ps) qs org n h = ground (arith, wanted-append ps qs org n h)

-- A number of an item is wanted.
abbrev IsWanted : List (String × String) → CredentialIssuance → Type 0
IsWanted wanted it =
    (n : String)
    → it.number ≡ some n
    → n ≢ ""
    → holds_pair wanted it.issuer_organization_id n ≡ true

wanted_by_issuances-IsWanted :
    (its : List CredentialIssuance) → All (IsWanted (wanted_by_issuances its)) its
unfolding wanted_by_issuances
wanted_by_issuances-IsWanted [] = tt
wanted_by_issuances-IsWanted (it ∷ its) = (
  (λ n e f.
      unfold holds_pair in
      ground (arith, eq_iff n "", eq_refl it.issuer_organization_id, eq_refl n)),
  All-map
      (λ x h n e f.
        wanted-append (wanted_number it.issuer_organization_id it.number) (wanted_by_issuances its)
          x.issuer_organization_id n (h n e f))
      its (wanted_by_issuances-IsWanted its),
)

module _ {T : Backend} (s : CredentialService T) (db : T.Db) where
  -- A competency that a query of the request found, and found active.
  pub record IsActive (id : String) : Type 0 where
    pub asked : List String
    pub found : List Reference
    pub answered : s.find_competencies asked db ≡ ok found
    pub active : slice_to_map (λ r. r.id) (λ r. r.active) found id ≡ some true

  -- An item that may be issued: its holder is among those found; its type and its organization are active
  -- and approved; its number, unless it is empty, was asked for in its organization, and no row of the
  -- answer, where there is one, has it; and its competencies are active.
  pub record IsAdmissible (holders : List User) (it : CredentialIssuance) : Type 0 where
    pub holder_known : contains (map (λ h. h.id) holders) it.holder_user_id ≡ true
    pub type_usable : IsUsableRow (s.find_type it.type_id db)
    pub organization_usable : IsUsableRow (s.find_organization it.issuer_organization_id db)
    pub number_unused :
        (n : String)
        → it.number ≡ some n
        → n ≢ ""
        → (asked : List String) × IsUnusedIn s.repo it.issuer_organization_id asked
            (s.repo.rows_by_numbers it.issuer_organization_id asked db)
            n
    pub competencies_active : All IsActive it.competency_ids

  existing-IsActive :
      (ids : List String) (id : String)
      → existing_competencies s (λ c. c.active) ids db id ≡ some true
      → IsActive id
  unfolding existing_competencies
  existing-IsActive ids id h = elim (Bool-cases (is_empty (uniq ids))) [
    | inl e ↦ absurd (ground arith)
    | inr e ↦ elim (Result-cases (s.find_competencies (uniq ids) db)) [
      | inr (x, q) ↦ absurd (ground arith)
      | inl (found, q) ↦ record {
        asked = uniq ids;
        found = found;
        answered = q;
        active = ground arith;
      }
    ]
  ]

  free-unused :
      (wanted : List (String × String)) (taken : List (String × String)) (it : CredentialIssuance)
      → ((n : String)
          → holds_pair wanted it.issuer_organization_id n ≡ true
          → holds_pair taken it.issuer_organization_id n ≡ false
          → (asked : List String) × IsUnusedIn s.repo it.issuer_organization_id asked
              (s.repo.rows_by_numbers it.issuer_organization_id asked db)
              n)
      → IsWanted wanted it
      → (o : Option String) → it.number ≡ o
      → IsFreeNumber taken it.issuer_organization_id o
      → (n : String) → it.number ≡ some n
      → n ≢ ""
      → (asked : List String) × IsUnusedIn s.repo it.issuer_organization_id asked
          (s.repo.rows_by_numbers it.issuer_organization_id asked db)
          n
  free-unused wanted taken it answer w none e f n k nz = absurd (ground arith)
  free-unused wanted taken it answer w (some m) e f n k nz =
      let same : m ≡ n = ground arith in
      answer n (w n k nz) (
        subst (λ x. holds_pair taken it.issuer_organization_id x ≡ false) same
          (f (λ z. nz (sym same ∙ z))))

  module _ (batch : List CredentialIssuance) (holders : List User) (statuses : List ℕ) where
    abbrev facts : BatchFacts
    facts = issue_facts s batch (map (λ h. h.id) holders) statuses db

    one-IsAdmissible :
        (it : CredentialIssuance)
        → IsWanted (wanted_by_issuances batch) it
        → IsIssuable s facts db it
        → IsAdmissible holders it
    unfolding issue_facts
    one-IsAdmissible it w i = record {
      holder_known = i.holder_known;
      type_usable = i.type_usable;
      organization_usable = i.organization_usable;
      number_unused =
          free-unused (wanted_by_issuances batch) facts.taken it
            (λ n a b.
              taken_numbers-unused s.repo it.issuer_organization_id n db (wanted_by_issuances batch)
                a b)
            w it.number refl i.number_free;
      competencies_active =
          All-map (existing-IsActive (all_ids (λ it. it.competency_ids) batch)) it.competency_ids
            i.competencies_active;
    }

    all-IsAdmissible :
        (its : List CredentialIssuance)
        → All (IsWanted (wanted_by_issuances batch)) its
        → All (IsIssuable s facts db) its
        → All (IsAdmissible holders) its
    all-IsAdmissible [] w h = tt
    all-IsAdmissible (it ∷ its) w h = (one-IsAdmissible it w.0 h.0, all-IsAdmissible its w.1 h.1)

    pub issuable-IsAdmissible : All (IsIssuable s facts db) batch → All (IsAdmissible holders) batch
    issuable-IsAdmissible h = all-IsAdmissible batch (wanted_by_issuances-IsWanted batch) h

  hashes-NotIssued :
      (its : List CredentialIssuance) (sts : List ℕ)
      → All
          (λ it.
            contains
              (active_hashes (map (λ x. s.storage.keccak_hex x.file_bytes) its) sts)
              (s.storage.keccak_hex it.file_bytes)
            ≡ false)
          its
      → NotIssued its sts
  hashes-NotIssued [] sts h = tt
  hashes-NotIssued (it ∷ its) [] h = tt
  hashes-NotIssued (it ∷ its) (st ∷ sts) h =
      let hash = λ (x : CredentialIssuance). s.storage.keccak_hex x.file_bytes in
      (
        active_hashes-head (hash it) (map hash its) st sts h.0,
        hashes-NotIssued its sts (
            All-map (λ x k. active_hashes-tail (hash it) (map hash its) st sts (hash x) k) its h.1),
      )

  pub issuable-NotIssued :
      (batch : List CredentialIssuance) (holders : List String) (statuses : List ℕ)
      → All (IsIssuable s (issue_facts s batch holders statuses db) db) batch
      → NotIssued batch statuses
  unfolding issue_facts
  issuable-NotIssued batch holders statuses h =
      hashes-NotIssued batch statuses (All-map (λ it i. i.file_new) batch h)

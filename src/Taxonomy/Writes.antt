-- ===== src/Taxonomy/Writes.antt =====
-- What each operation of the three taxonomy services (feature/credential/competency_service.go and its
-- two siblings) wrote, whatever it returned: nothing, or one statement on rows that passed the checks.
use cred_chain_golang.Base.{
  ◌==◌, Bool-cases, ◌≡◌, ◌⊎◌, inl, inr, refl, String, List, [], ◌∷◌, Option, none, some, arith,
  Bool,
}
use cred_chain_golang.Domain.Clock.{Time}
use cred_chain_golang.Domain.Fault.{Result, ok, err}
use cred_chain_golang.Domain.User.{User}
use cred_chain_golang.Domain.Reference.{Reference, ReferenceStatus, status}
use cred_chain_golang.Effect.{Backend, World}
use cred_chain_golang.Effect.Laws.{Result-cases}
use cred_chain_golang.Taxonomy.{
  TaxonomyService, Kind, found_or, pending_guard, approved_row, submit, store, reject, destroy,
  update, rejected_row, submitted_row, require_unused, updated_row, stored_row, check_name_unique,
  require_user, name_guard,
}
use cred_chain_golang.Domain.Fault.{record_not_found}
use cred_chain_golang.Taxonomy.{approve, find}

pub pending_guard-ok :
    (k : Kind) (id : String) (r : Reference)
    → pending_guard k id r ≡ ok tt
    → status r ≡ ReferenceStatus.pending
unfolding pending_guard
pending_guard-ok k id r h = ground arith

module _ {T : Backend} (s : TaxonomyService T) where
  find-ok :
      (id : String) (db : T.Db) (r : Reference)
      → found_or (s.repo.find id db) s.kind.not_found id ≡ ok r
      → s.repo.find id db ≡ ok r
  find-ok id db r h = pick (s.repo.find id db) refl
    where
      pick : (x : Result Reference) → s.repo.find id db ≡ x → s.repo.find id db ≡ ok r
      pick (ok q) e = ground arith
      pick (err record_not_found) e = absurd (ground arith)
      pick (err x) e = absurd (ground arith)

  pub approve-db :
      (auth : Option User) (now : Time) (id : String) (w : World T)
      → let v = (approve s auth now id w).1 in
        (v.db ≡ w.db)
        ⊎ ((u : User) × (target : Reference) × (s.repo.find id w.db ≡ ok target)
            × (pending_guard s.kind id target ≡ ok tt)
            × (v.db ≡ (s.repo.update (approved_row u now target ∷ []) w.db).1))
  unfolding approve find
  approve-db none now id w = inl refl
  approve-db (some u) now id w =
      elim (Result-cases (found_or (s.repo.find id w.db) s.kind.not_found id)) [
        | inr (e, q) ↦ inl (ground arith)
        | inl (target, q) ↦ elim (Result-cases (pending_guard s.kind id target)) [
          | inr (e, p) ↦ inl (ground arith)
          | inl (_, p) ↦ inr (u, target, find-ok id w.db target q, p, ground arith)
        ]
      ]

  pub reject-db :
      (auth : Option User) (now : Time) (id reason : String) (w : World T)
      → let v = (reject s auth now id reason w).1 in
        (v.db ≡ w.db)
        ⊎ ((u : User) × (text : String) × (target : Reference) × (s.repo.find id w.db ≡ ok target)
            × (pending_guard s.kind id target ≡ ok tt)
            × (v.db ≡ (s.repo.update (rejected_row u now text target ∷ []) w.db).1))
  unfolding reject find
  reject-db auth now id reason w = elim (Bool-cases (s.trim_space reason == "")) [
    | inl b ↦ inl (ground arith)
    | inr b ↦ elim (Result-cases (require_user auth)) [
      | inr (e, k) ↦ inl (ground arith)
      | inl (u, k) ↦ elim (Result-cases (found_or (s.repo.find id w.db) s.kind.not_found id)) [
        | inr (e, q) ↦ inl (ground arith)
        | inl (target, q) ↦ elim (Result-cases (pending_guard s.kind id target)) [
          | inr (e, p) ↦ inl (ground arith)
          | inl (_, p) ↦
              inr (u, s.trim_space reason, target, find-ok id w.db target q, p, ground arith)
        ]
      ]
    ]
  ]

  pub store-db :
      (auth : Option User) (now : Time) (name : String) (active : Option Bool) (w : World T)
      → let v = (store s auth now name active w).1 in
        (v.db ≡ w.db)
        ⊎ (v.db ≡ (s.repo.store (stored_row auth now (s.trim_space name) active ∷ []) w.db).1)
  unfolding store
  store-db auth now name active w = elim (Bool-cases (s.trim_space name == "")) [
    | inl b ↦ inl (ground arith)
    | inr b ↦ elim (Result-cases (s.repo.find_by_names (s.trim_space name ∷ []) w.db)) [
      | inr (e, q) ↦ inl (ground arith)
      | inl (matches, q) ↦
          elim (Result-cases
            (name_guard s.kind.already_pending s.kind.name_duplicate (s.trim_space name) matches)) [
              | inr (e, p) ↦ inl (ground arith)
              | inl (_, p) ↦ inr (ground arith)
            ]
    ]
  ]

  pub submit-db :
      (auth : Option User) (name : String) (w : World T)
      → let v = (submit s auth name w).1 in
        (v.db ≡ w.db)
        ⊎ ((u : User) × (v.db ≡ (s.repo.store (submitted_row u (s.trim_space name) ∷ []) w.db).1))
  unfolding submit
  submit-db auth name w = elim (Bool-cases (s.trim_space name == "")) [
    | inl b ↦ inl (ground arith)
    | inr b ↦ elim (Result-cases (s.repo.find_by_names (s.trim_space name ∷ []) w.db)) [
      | inr (e, q) ↦ inl (ground arith)
      | inl (matches, q) ↦
          elim (Result-cases (
            name_guard s.kind.already_pending s.kind.already_approved (s.trim_space name)
              matches)) [
                | inr (e, p) ↦ inl (ground arith)
                | inl (_, p) ↦ elim (Result-cases (require_user auth)) [
                  | inr (e, k) ↦ inl (ground arith)
                  | inl (u, k) ↦ inr (u, ground arith)
                ]
              ]
    ]
  ]

  pub update-db :
      (id : String) (name : Option String) (active : Option Bool) (w : World T)
      → let v = (update s id name active w).1 in
        (v.db ≡ w.db)
        ⊎ ((target : Reference) × (v.db
              ≡ (s.repo.update (updated_row s name active target ∷ []) w.db).1))
  unfolding update find
  update-db id name active w =
      elim (Result-cases (found_or (s.repo.find id w.db) s.kind.not_found id)) [
        | inr (e, q) ↦ inl (ground arith)
        | inl (target, q) ↦ elim (Result-cases (check_name_unique s name id w.db)) [
          | inr (e, p) ↦ inl (ground arith)
          | inl (_, p) ↦ inr (target, ground arith)
        ]
      ]

  pub destroy-db :
      (ids : List String) (w : World T)
      → let v = (destroy s ids w).1 in (v.db ≡ w.db) ⊎ (v.db ≡ (s.repo.destroy ids w.db).1)
  unfolding destroy
  destroy-db [] w = inl refl
  destroy-db (id ∷ ids) w = elim (Result-cases (s.count_uses (id ∷ ids) w.db)) [
    | inr (e, q) ↦ inl (ground arith)
    | inl (n, q) ↦ elim (Result-cases (require_unused s (id ∷ ids) n)) [
      | inr (e, p) ↦ inl (ground arith)
      | inl (_, p) ↦ inr (ground arith)
    ]
  ]

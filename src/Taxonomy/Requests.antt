-- ===== src/Taxonomy/Requests.antt =====
-- Sequences of requests to feature/credential/competency_service.go, credential_type_service.go or
-- issuer_organization_service.go, over the repository of the same kind: what they do to the table.
use cred_chain_golang.Base.{
  true, false, ◌==◌, ◌∙◌, ◌≡◌, ◌⊎◌, inl, inr, refl, String, List, [], ◌∷◌, Option, arith, Bool, sym,
  All-map, All-pure,
}
use mathlib.Core.Path.{subst}
use cred_chain_golang.Taxonomy.Lifecycle.{
  Lives, here, next, Move, Evolves, IsCoherent, Evolves-trans, Evolves-refl,
}
use cred_chain_golang.Taxonomy.Statements.{
  IsUnique, Grows, Grows-refl, find-only, store-Grows, patched-rejected, update-Grows,
  patched-approved, destroy-Grows,
}
use cred_chain_golang.Domain.Clock.{Time}
use cred_chain_golang.Domain.Fault.{ok}
use cred_chain_golang.Domain.User.{User}
use cred_chain_golang.Domain.Reference.{Reference}
use cred_chain_golang.Effect.{Backend, World}
use cred_chain_golang.Taxonomy.{
  TaxonomyService, pending_guard, approved_row, submit, store, reject, destroy, update,
  rejected_row, submitted_row, updated_row, stored_row,
}
use cred_chain_golang.Taxonomy.{approve}
use cred_chain_golang.Taxonomy.Table
use cred_chain_golang.Taxonomy.Table.{Database, patched}
use cred_chain_golang.Sql.{case_value, or_kept, given_text}
use cred_chain_golang.Taxonomy.Writes.{
  pending_guard-ok, approve-db, store-db, submit-db, approve-db, reject-db, update-db, destroy-db,
}

-- `view` finds the kind's table in the database. A statement that reaches the database is the
-- repository's; one that does not leaves the table as it was.
pub record IsBacked {T : Backend} (s : TaxonomyService T) (view : T.Db → Database) : Type 0 where
  pub find :
      (id : String) (db : T.Db) (r : Reference)
      → s.repo.find id db ≡ ok r
      → Table.find id (view db) ≡ ok r
  pub store :
      (rs : List Reference) (db : T.Db)
      → (view (s.repo.store rs db).1 ≡ view db)
        ⊎ (view (s.repo.store rs db).1 ≡ (Table.store s.kind rs (view db)).1)
  pub update :
      (rs : List Reference) (db : T.Db)
      → (view (s.repo.update rs db).1 ≡ view db)
        ⊎ (view (s.repo.update rs db).1 ≡ (Table.update s.kind rs (view db)).1)
  pub destroy :
      (ids : List String) (db : T.Db)
      → (view (s.repo.destroy ids db).1 ≡ view db)
        ⊎ (view (s.repo.destroy ids db).1 ≡ (Table.destroy s.kind ids (view db)).1)

-- A request to the service, with its user and the time at which it reads the clock.
pub data Request : Type 0 where
  storing : Option User → Time → String → Option Bool → Request
  submitting : Option User → String → Request
  approving : Option User → Time → String → Request
  rejecting : Option User → Time → String → String → Request
  updating : String → Option String → Option Bool → Request
  destroying : List String → Request

module _ {T : Backend} (s : TaxonomyService T) where
  unfoldable pub serve : Request → World T → World T
  serve (storing auth now name active) w = (store s auth now name active w).1
  serve (submitting auth name) w = (submit s auth name w).1
  serve (approving auth now id) w = (approve s auth now id w).1
  serve (rejecting auth now id reason) w = (reject s auth now id reason w).1
  serve (updating id name active) w = (update s id name active w).1
  serve (destroying ids) w = (destroy s ids w).1

  unfoldable pub serve_all : List Request → World T → World T
  unfolding serve
  serve_all [] w = w
  serve_all (q ∷ qs) w = serve_all qs (serve q w)

edited-Lives :
    {T : Backend} (s : TaxonomyService T) (name : Option String) (active : Option Bool)
    (target r : Reference)
    → Lives r (patched (updated_row s name active target ∷ []) r)
unfolding patched updated_row case_value
edited-Lives s name active target r = pick (target.id == r.id) refl
  where
    p : Reference
    p = updated_row s name active target

    pick : (b : Bool) → (target.id == r.id) ≡ b → Lives r (patched (p ∷ []) r)
    pick true e =
        subst (Lives r) (ground arith)
          (next here (Move.edit (or_kept (given_text p.name) r.name) p.active))
    pick false e = subst (Lives r) (ground arith) here

module _ {T : Backend} (s : TaxonomyService T) (view : T.Db → Database)
    (law : IsBacked s view) where
  abbrev Advances : T.Db → T.Db → Type 0
  Advances a b = Grows (view a) (view b)

  same-Advances : (a b : T.Db) → b ≡ a → Advances a b
  same-Advances a b e = subst (Advances a) (sym e) (Grows-refl (view a))

  wrote-Advances :
      (a b : T.Db) (after : Database)
      → (view b ≡ view a) ⊎ (view b ≡ after)
      → Grows (view a) after
      → Advances a b
  wrote-Advances a b after (inl e) g = subst (Grows (view a)) (sym e) (Grows-refl (view a))
  wrote-Advances a b after (inr e) g = subst (Grows (view a)) (sym e) g

  stored-Advances :
      (r : Reference) (db : T.Db) → IsCoherent r → Advances db (s.repo.store (r ∷ []) db).1
  stored-Advances r db c =
      wrote-Advances db (s.repo.store (r ∷ []) db).1 (Table.store s.kind (r ∷ []) (view db)).1
        (law.store (r ∷ []) db) (store-Grows s.kind (r ∷ []) (view db) (c, tt))

  -- The update of the row that a query found, where that row may take the step.
  patched-Advances :
      (p target : Reference) (id : String) (db : T.Db)
      → s.repo.find id db ≡ ok target
      → p.id ≡ target.id
      → Lives target (patched (p ∷ []) target)
      → Advances db (s.repo.update (p ∷ []) db).1
  patched-Advances p target id db found same l u =
      let (at, only) = find-only (view db) id target u (law.find id db target found) in
      wrote-Advances db (s.repo.update (p ∷ []) db).1 (Table.update s.kind (p ∷ []) (view db)).1
        (law.update (p ∷ []) db)
        (update-Grows s.kind p (view db) (
          All-map
            (λ r h e. subst (λ x. Lives x (patched (p ∷ []) x)) (sym (h (sym e ∙ same ∙ at))) l)
            (view db).rows only))
        u

  approved-Advances :
      (u : User) (now : Time) (id : String) (target : Reference) (db : T.Db)
      → s.repo.find id db ≡ ok target
      → pending_guard s.kind id target ≡ ok tt
      → Advances db (s.repo.update (approved_row u now target ∷ []) db).1
  approved-Advances u now id target db found pending =
      patched-Advances (approved_row u now target) target id db found (unfold approved_row in refl)
        (subst (Lives target) (sym (patched-approved u now target target refl))
          (next here (Move.approve u.id now (pending_guard-ok s.kind id target pending))))

  rejected-Advances :
      (u : User) (now : Time) (id reason : String) (target : Reference) (db : T.Db)
      → s.repo.find id db ≡ ok target
      → pending_guard s.kind id target ≡ ok tt
      → Advances db (s.repo.update (rejected_row u now reason target ∷ []) db).1
  rejected-Advances u now id reason target db found pending =
      patched-Advances (rejected_row u now reason target) target id db found
        (unfold rejected_row in refl)
        (subst (Lives target) (sym (patched-rejected u now reason target target refl))
          (next here (Move.reject u.id now reason (pending_guard-ok s.kind id target pending))))

  -- One request, whatever comes of it.
  reach : (a b c : T.Db) → c ≡ b → Advances a b → Advances a c
  reach a b c e g = subst (Advances a) (sym e) g

  serve-Advances : (q : Request) (w : World T) → Advances w.db (serve s q w).db
  unfolding serve
  serve-Advances (storing auth now name active) w = elim (store-db s auth now name active w) [
    | inl e ↦ same-Advances w.db (store s auth now name active w).1.db e
    | inr e ↦ reach w.db _ (store s auth now name active w).1.db e (
        stored-Advances (stored_row auth now (s.trim_space name) active) w.db
          (unfold stored_row in λ n. refl))
  ]
  serve-Advances (submitting auth name) w = elim (submit-db s auth name w) [
    | inl e ↦ same-Advances w.db (submit s auth name w).1.db e
    | inr (u, e) ↦ reach w.db _ (submit s auth name w).1.db e (
        stored-Advances (submitted_row u (s.trim_space name)) w.db
          (unfold submitted_row in λ n. refl))
  ]
  serve-Advances (approving auth now id) w = elim (approve-db s auth now id w) [
    | inl e ↦ same-Advances w.db (approve s auth now id w).1.db e
    | inr (u, target, found, pending, e) ↦
        reach w.db _ (approve s auth now id w).1.db e
          (approved-Advances u now id target w.db found pending)
  ]
  serve-Advances (rejecting auth now id reason) w = elim (reject-db s auth now id reason w) [
    | inl e ↦ same-Advances w.db (reject s auth now id reason w).1.db e
    | inr (u, text, target, found, pending, e) ↦
        reach w.db _ (reject s auth now id reason w).1.db e
          (rejected-Advances u now id text target w.db found pending)
  ]
  serve-Advances (updating id name active) w = elim (update-db s id name active w) [
    | inl e ↦ same-Advances w.db (update s id name active w).1.db e
    | inr (target, e) ↦ reach w.db _ (update s id name active w).1.db e (
        let p = updated_row s name active target in
        wrote-Advances w.db (s.repo.update (p ∷ []) w.db).1
          (Table.update s.kind (p ∷ []) (view w.db)).1 (law.update (p ∷ []) w.db)
          (update-Grows s.kind p (view w.db)
            (All-pure (λ r _. edited-Lives s name active target r) (view w.db).rows)))
  ]
  serve-Advances (destroying ids) w = elim (destroy-db s ids w) [
    | inl e ↦ same-Advances w.db (destroy s ids w).1.db e
    | inr e ↦ reach w.db _ (destroy s ids w).1.db e (
        wrote-Advances w.db (s.repo.destroy ids w.db).1 (Table.destroy s.kind ids (view w.db)).1
          (law.destroy ids w.db) (destroy-Grows s.kind ids (view w.db)))
  ]

  -- From a table that satisfies its unique index, whatever requests are served and whatever comes of
  -- each: the index stays satisfied, so that no two rows have one id, and no two unrejected rows one
  -- name in lower case; and each row of the table is either destroyed or further along its life, in
  -- which it is renamed and switched on or off at will, and approved or rejected only while it is
  -- pending.
  pub requests_keep_taxonomy :
      (qs : List Request) (w : World T)
      → IsUnique (view w.db)
      → IsUnique (view (serve_all s qs w).db)
        × Evolves (view w.db).rows (view (serve_all s qs w).db).rows
  unfolding serve_all
  requests_keep_taxonomy [] w u = (u, Evolves-refl (view w.db).rows)
  requests_keep_taxonomy (q ∷ qs) w u =
      let (v, e) = serve-Advances q w u in
      let (x, f) = requests_keep_taxonomy qs (serve s q w) v in (x, Evolves-trans e f)

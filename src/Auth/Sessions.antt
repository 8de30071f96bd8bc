-- ===== src/Auth/Sessions.antt =====
-- What becomes of the refresh tokens under any sequence of requests to feature/auth/auth_service.go, over
-- the repository of feature/user/gorm_user_token_repository.go.
use cred_chain_golang.Base.{
  eq_refl, ◌≡◌, ◌≢◌, ◌⊎◌, inl, inr, refl, Bool, true, false, String, List, [], ◌∷◌, ◌++◌, map, none,
  some, arith, eq_iff, Bool-cases, ◌==◌, sym, ap, All-map,
}
use mathlib.Core.Path.{subst}
use cred_chain_golang.Domain.Clock.{Time}
use cred_chain_golang.Domain.Fault.{Result, ok}
use cred_chain_golang.Effect.{Backend, World}
use cred_chain_golang.Effect.Laws.{Result-cases}
use cred_chain_golang.Sql.{select}
use cred_chain_golang.Auth.{UserToken, AuthService, google_login, refresh, logout, refresh_type}
use cred_chain_golang.Auth.Tokens
use cred_chain_golang.Auth.Rows.{
  Evolves, Keeps, Evolves-refl, Evolves-append, Evolves-map, Evolves-trans, revoked_unique,
  revoked_where-same, Evolves-All, same_ids, spent_after_map,
}
use cred_chain_golang.Auth.Tokens.{
  first_row, revoked_where, is_unique, is_fresh, is_of, overwritten,
}
use cred_chain_golang.Auth.Writes.{google_login-db, refresh-err, refresh-run}

-- A statement that reaches the database is the repository's; one that fails leaves the table alone.
pub record IsBacked {T : Backend} (s : AuthService T) (view : T.Db → List UserToken) : Type 0 where
  pub find_by_token :
      (text : String) (db : T.Db) (t : UserToken)
      → s.tokens.find_by_token text db ≡ ok t
      → Tokens.find_by_token text (view db) ≡ ok t
  pub store :
      (ts : List UserToken) (db : T.Db)
      → (view (s.tokens.store ts db).1 ≡ view db)
        ⊎ (view (s.tokens.store ts db).1 ≡ (Tokens.store ts (view db)).1)
  pub revoke :
      (now : Time) (user_id type : String) (db : T.Db)
      → (view (s.tokens.revoke_by_user_id_and_type now user_id type db).1 ≡ view db)
        ⊎ (view (s.tokens.revoke_by_user_id_and_type now user_id type db).1
            ≡ (Tokens.revoke_by_user_id_and_type now user_id type (view db)).1)
  pub update :
      (t : UserToken) (db : T.Db)
      → (view (s.tokens.update t db).1 ≡ view db)
        ⊎ (view (s.tokens.update t db).1 ≡ (Tokens.update t (view db)).1)
  pub update_ok :
      (t u : UserToken) (db d : T.Db)
      → s.tokens.update t db ≡ (ok u, d)
      → Tokens.update t (view db) ≡ (ok u, view d)

abbrev pub Grows : List UserToken → List UserToken → Type 0
Grows a b = is_unique a ≡ true → (is_unique b ≡ true) × Evolves a b

Grows-refl : (a : List UserToken) → Grows a a
Grows-refl a u = (u, Evolves-refl a)

store-Grows : (ts rows : List UserToken) → Grows rows (Tokens.store ts rows).1
unfolding Tokens.store
store-Grows ts rows u = pick (is_unique (rows ++ ts)) refl
  where
    pick :
        (b : Bool)
        → is_unique (rows ++ ts) ≡ b
        → (is_unique (Tokens.store ts rows).1 ≡ true) × Evolves rows (Tokens.store ts rows).1
    pick true e = (ground arith, subst (Evolves rows) (ground arith) (Evolves-append rows ts))
    pick false e = (ground arith, subst (Evolves rows) (ground arith) (Evolves-refl rows))

revoke-Grows :
    (now : Time) (user_id type : String) (rows : List UserToken)
    → Grows rows (Tokens.revoke_by_user_id_and_type now user_id type rows).1
unfolding Tokens.revoke_by_user_id_and_type
revoke-Grows now user_id type rows u = (
  revoked_unique now user_id type rows u,
  Evolves-map (revoked_where now user_id type)
      (λ t. let p = revoked_where-same now user_id type t in record { token = p.1; spent = p.2 })
      rows,
)

-- The row that Refresh writes back: spent, and otherwise as it was found.
abbrev pub spent_row : Time → UserToken → UserToken
spent_row now t = record t { last_used_at = some now; revoked_at = some now }

overwritten-Keeps :
    (now : Time) (t u : UserToken)
    → (u.id ≡ t.id → u ≡ t)
    → Keeps u (overwritten (spent_row now t) u)
unfolding overwritten
overwritten-Keeps now t u h = elim (Bool-cases (u.id == t.id)) [
  | inl q ↦
      let same = h (ground (arith, eq_iff u.id t.id)) in
      let text : u.token ≡ t.token = ap (λ (z : UserToken). z.token) same in
      record { token = ground arith; spent = λ n k. ground arith }
  | inr q ↦ record { token = ground arith; spent = λ n k. ground arith }
]

update-Grows :
    (now : Time) (text : String) (t : UserToken) (rows : List UserToken)
    → Tokens.find_by_token text rows ≡ ok t
    → Grows rows (Tokens.update (spent_row now t) rows).1
unfolding Tokens.update Tokens.find_by_token
update-Grows now text t rows h u = pick (is_unique (map (overwritten (spent_row now t)) rows)) refl
  where
    pick :
        (b : Bool)
        → is_unique (map (overwritten (spent_row now t)) rows) ≡ b
        → (is_unique (Tokens.update (spent_row now t) rows).1 ≡ true)
          × Evolves rows (Tokens.update (spent_row now t) rows).1
    pick true e = (
      ground arith,
      subst (Evolves rows) (ground arith) (
          Evolves-All (overwritten (spent_row now t)) rows
            (All-map (overwritten-Keeps now t) rows (same_ids text rows t u h))),
    )
    pick false e = (ground arith, subst (Evolves rows) (ground arith) (Evolves-refl rows))

pub update-spends :
    (now : Time) (text : String) (t u : UserToken) (rows rows' : List UserToken)
    → is_unique rows ≡ true
    → Tokens.find_by_token text rows ≡ ok t
    → Tokens.update (spent_row now t) rows ≡ (ok u, rows')
    → (r : UserToken) × (Tokens.find_by_token text rows' ≡ ok r) × (r.revoked_at ≢ none)
unfolding Tokens.update Tokens.find_by_token
update-spends now text t u rows rows' uniq h e =
    let f = overwritten (spent_row now t) in
    let after : map f rows ≡ rows' = ground arith in
    subst
      (λ us.
        (r : UserToken) × (first_row (select (λ x. x.token == text) us) ≡ ok r)
        × (r.revoked_at ≢ none))
      after
      (spent_after_map f text rows t
        (All-map (overwritten-Keeps now t) rows (same_ids text rows t uniq h))
        (unfold overwritten in λ n. ground (arith, eq_refl t.id)) h)

-- A request to the service, with the times at which it reads the clock.
pub data Request : Type 0 where
  logging_in : Time → String → Request
  refreshing : Time → Time → String → Request
  logging_out : Time → String → Request

module _ {T : Backend} (s : AuthService T) where
  unfoldable pub serve : Request → World T → World T
  serve (logging_in now id_token) w = (google_login s now id_token w).1
  serve (refreshing now later text) w = (refresh s now later text w).1
  serve (logging_out now user_id) w = (logout s now user_id w).1

  unfoldable pub serve_all : List Request → World T → World T
  unfolding serve
  serve_all [] w = w
  serve_all (q ∷ qs) w = serve_all qs (serve q w)

module _ {T : Backend} (s : AuthService T) (view : T.Db → List UserToken)
    (law : IsBacked s view) where
  abbrev pub Advances : T.Db → T.Db → Type 0
  Advances a b = Grows (view a) (view b)

  pub Advances-trans : (a b c : T.Db) → Advances a b → Advances b c → Advances a c
  Advances-trans a b c g h u =
      let (v, e) = g u in let (x, f) = h v in (x, Evolves-trans (view a) (view b) (view c) e f)

  same-Advances : (a b : T.Db) → b ≡ a → Advances a b
  same-Advances a b e = subst (Advances a) (sym e) (Grows-refl (view a))

  wrote-Advances :
      (a b : T.Db) (after : List UserToken)
      → (view b ≡ view a) ⊎ (view b ≡ after)
      → Grows (view a) after
      → Advances a b
  wrote-Advances a b after (inl e) g = subst (Grows (view a)) (sym e) (Grows-refl (view a))
  wrote-Advances a b after (inr e) g = subst (Grows (view a)) (sym e) g

  pub stored-Advances : (ts : List UserToken) (db : T.Db) → Advances db (s.tokens.store ts db).1
  stored-Advances ts db =
      wrote-Advances db (s.tokens.store ts db).1 (Tokens.store ts (view db)).1 (law.store ts db)
        (store-Grows ts (view db))

  revoked-Advances :
      (now : Time) (user_id : String) (db : T.Db)
      → Advances db (s.tokens.revoke_by_user_id_and_type now user_id refresh_type db).1
  revoked-Advances now user_id db =
      wrote-Advances db (s.tokens.revoke_by_user_id_and_type now user_id refresh_type db).1
        (Tokens.revoke_by_user_id_and_type now user_id refresh_type (view db)).1
        (law.revoke now user_id refresh_type db) (revoke-Grows now user_id refresh_type (view db))

  pub spent-Advances :
      (later : Time) (text : String) (t u : UserToken) (db d : T.Db)
      → s.tokens.find_by_token text db ≡ ok t
      → s.tokens.update (spent_row later t) db ≡ (ok u, d)
      → Advances db d
  spent-Advances later text t u db d found wrote =
      let after : (Tokens.update (spent_row later t) (view db)).1 ≡ view d =
        ap (λ (p : Result UserToken × List UserToken). p.1)
          (law.update_ok (spent_row later t) u db d wrote) in
      subst (Grows (view db)) after
        (update-Grows later text t (view db) (law.find_by_token text db t found))

  refresh-Advances :
      (now later : Time) (text : String) (w : World T)
      → Advances w.db (refresh s now later text w).1.db
  refresh-Advances now later text w =
      let m = refresh s now later text w in
      elim (Result-cases m.0) [
        | inr (e, q) ↦ same-Advances w.db m.1.db (refresh-err s now later text w m.1 e cc)
        | inl (out, q) ↦
            let (t, u, fresh, d, found, guard, user, wrote, stored, owner) =
              refresh-run s now later text w m.1 out cc in
            Advances-trans w.db d m.1.db (spent-Advances later text t u w.db d found wrote)
              (subst (Advances d) (sym stored) (stored-Advances (fresh ∷ []) d))
      ]

  serve-Advances : (q : Request) (w : World T) → Advances w.db (serve s q w).db
  unfolding serve logout
  serve-Advances (logging_in now id_token) w = elim (google_login-db s now id_token w) [
    | inl e ↦ same-Advances w.db (google_login s now id_token w).1.db e
    | inr (user, inl e) ↦ subst (Advances w.db) (sym e) (revoked-Advances now user.id w.db)
    | inr (user, inr (t, e)) ↦
        let d = (s.tokens.revoke_by_user_id_and_type now user.id refresh_type w.db).1 in
        subst (Advances w.db) (sym e) (
          Advances-trans w.db d (s.tokens.store (t ∷ []) d).1 (revoked-Advances now user.id w.db)
            (stored-Advances (t ∷ []) d))
  ]
  serve-Advances (refreshing now later text) w = refresh-Advances now later text w
  serve-Advances (logging_out now user_id) w = revoked-Advances now user_id w.db

  pub serve_all-Advances : (qs : List Request) (w : World T) → Advances w.db (serve_all s qs w).db
  unfolding serve_all
  serve_all-Advances [] w = Grows-refl (view w.db)
  serve_all-Advances (q ∷ qs) w =
      Advances-trans w.db (serve s q w).db (serve_all s qs (serve s q w)).db (serve-Advances q w)
        (serve_all-Advances qs (serve s q w))

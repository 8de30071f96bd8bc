-- ===== src/Auth/Writes.antt =====
-- What each operation of feature/auth/auth_service.go wrote, whatever it returned.
use cred_chain_golang.Base.{
  ◌+◌, ◌≡◌, ◌⊎◌, inl, inr, refl, String, [], ◌∷◌, none, some, arith, is_some, Bool-cases, ◌==◌, ap,
  sym, ◌∙◌,
}
use mathlib.Core.Path.{subst}
use cred_chain_golang.Domain.Clock.{Time}
use cred_chain_golang.Domain.Fault.{Error, Result, ok, err}
use cred_chain_golang.Domain.User.{User}
use cred_chain_golang.Effect.{Backend, World, transaction}
use cred_chain_golang.Effect.Laws.{Result-cases, bind-ok, bind-err, transaction-ok, transaction-err}
use cred_chain_golang.Auth.{
  UserToken, AuthService, Session, google_login, refresh, refresh_check, refresh_commit,
  refresh_body, token_guard, refresh_type, draw_token, first_user,
}

module _ {T : Backend} (s : AuthService T) where
  refresh_check-ok :
      (now : Time) (text : String) (w w' : World T) (f : UserToken × User)
      → refresh_check s now text w ≡ (ok f, w')
      → (s.tokens.find_by_token text w.db ≡ ok f.0)
        × (token_guard now f.0 ≡ ok tt)
        × (s.find_user f.0.user_id w.db ≡ ok f.1)
        × (w' ≡ w)
  unfolding refresh_check
  refresh_check-ok now text w w' f h = elim (Result-cases (s.tokens.find_by_token text w.db)) [
    | inr (e, q) ↦ absurd (ground arith)
    | inl (t, q) ↦ elim (Result-cases (s.find_user t.user_id w.db)) [
      | inr (e, p) ↦ absurd (ground arith)
      | inl (u, p) ↦ (ground arith, ground arith, ground arith, ground arith)
    ]
  ]

  refresh_check-db : (now : Time) (text : String) (w : World T) → (refresh_check s now text w).1 ≡ w
  unfolding refresh_check
  refresh_check-db now text w = ground arith

  refresh_body-run :
      (now : Time) (t : UserToken) (user : User) (committed : T.Db) (w w' : World T)
      (made : UserToken × String)
      → refresh_body s now t user committed w ≡ (ok made, w')
      → (u fresh : UserToken) × (d : T.Db) × (s.tokens.update
            (record t { last_used_at = some now; revoked_at = some now })
            w.db
          ≡ (ok u, d))
        × (w'.db ≡ (s.tokens.store (fresh ∷ []) d).1)
        × (fresh.user_id ≡ user.id)
  unfolding refresh_body draw_token
  refresh_body-run now t user committed w w' made h =
      let new = record t { last_used_at = some now; revoked_at = some now } in
      let fresh : UserToken = record {
        id = s.ulid w.drawn;
        user_id = user.id;
        type = refresh_type;
        token = s.random_hex w.drawn;
        last_used_at = none;
        expires_at = some (now + s.refresh_expiry);
        revoked_at = none;
      } in
      elim (Result-cases (s.tokens.update new w.db).0) [
        | inr (e, q) ↦ absurd (ground arith)
        | inl (u, q) ↦ (u, fresh, (s.tokens.update new w.db).1, cc, ground arith, refl)
      ]

  commit-run :
      (later : Time) (t : UserToken) (user : User) (w w' : World T) (out : Session)
      → refresh_commit s later t user w ≡ (ok out, w')
      → (u fresh : UserToken) × (d : T.Db) × (s.tokens.update
            (record t { last_used_at = some later; revoked_at = some later })
            w.db
          ≡ (ok u, d))
        × (w'.db ≡ (s.tokens.store (fresh ∷ []) d).1)
        × (fresh.user_id ≡ user.id)
        × (out.user ≡ user)
  unfolding refresh_commit
  commit-run later t user w w' out h =
      let m = transaction s.begin s.commit (refresh_body s later t user) in
      let (made, tx, last) = bind-ok m _ w w' out h in
      let run = transaction-ok s.begin s.commit (refresh_body s later t user) w (m w).1 made tx in
      let (u, fresh, d, wrote, stored, owner) =
        refresh_body-run later t user w.db w (m w).1 made run.0 in
      (u, fresh, d, wrote, ground arith, owner, ground arith)

  -- A refresh that succeeds.
  pub refresh-run :
      (now later : Time) (text : String) (w w' : World T) (out : Session)
      → refresh s now later text w ≡ (ok out, w')
      → (t u fresh : UserToken) × (d : T.Db) × (s.tokens.find_by_token text w.db ≡ ok t)
        × (token_guard now t ≡ ok tt)
        × (s.find_user t.user_id w.db ≡ ok out.user)
        × (s.tokens.update (record t { last_used_at = some later; revoked_at = some later }) w.db
            ≡ (ok u, d))
        × (w'.db ≡ (s.tokens.store (fresh ∷ []) d).1)
        × (fresh.user_id ≡ out.user.id)
  unfolding refresh
  refresh-run now later text w w' out h =
      let (f, check, rest) =
        bind-ok (refresh_check s now text) (λ found. refresh_commit s later found.0 found.1) w w'
          out h in
      let (found, guard, user, same) =
        refresh_check-ok now text w (refresh_check s now text w).1 f check in
      let (u, fresh, d, wrote, stored, owner, who) =
        commit-run later f.0 f.1 w w' out
          (subst (λ v. refresh_commit s later f.0 f.1 v ≡ (ok out, w')) same rest) in
      (
        f.0,
        u,
        fresh,
        d,
        found,
        guard,
        user ∙ ap ok (sym who),
        wrote,
        stored,
        owner ∙ ap (λ (x : User). x.id) (sym who),
      )

  pub refresh-err :
      (now later : Time) (text : String) (w w' : World T) (e : Error)
      → refresh s now later text w ≡ (err e, w')
      → w'.db ≡ w.db
  unfolding refresh refresh_commit
  refresh-err now later text w w' e h =
      elim (bind-err (refresh_check s now text) (λ found. refresh_commit s later found.0 found.1) w
        w' e h) [
          | inl q ↦
              ap (λ (p : Result (UserToken × User) × World T). p.1.db) (sym q)
              ∙ ap (λ (v : World T). v.db) (refresh_check-db now text w)
          | inr (f, q, k) ↦
              let m = transaction s.begin s.commit (refresh_body s later f.0 f.1) in
              let v = (refresh_check s now text w).1 in
              elim (bind-err m _ v w' e k) [
                | inl failed ↦
                    transaction-err s.begin s.commit (refresh_body s later f.0 f.1) v w' e failed
                    ∙ ap (λ (x : World T). x.db) (refresh_check-db now text w)
                | inr (made, run, never) ↦ absurd (ground arith)
              ]
        ]

  pub google_login-db :
      (now : Time) (id_token : String) (w : World T)
      → let v = (google_login s now id_token w).1 in
        (v.db ≡ w.db)
        ⊎ ((user : User) × ((v.db
                ≡ (s.tokens.revoke_by_user_id_and_type now user.id refresh_type w.db).1)
              ⊎ ((t : UserToken) × (v.db
                    ≡ (s.tokens.store
                        (t ∷ [])
                        (s.tokens.revoke_by_user_id_and_type now user.id refresh_type w.db).1).1))))
  unfolding google_login draw_token
  google_login-db now id_token w = elim (Result-cases (s.validate id_token)) [
    | inr (e, q) ↦ inl (ground arith)
    | inl (email, q) ↦ elim (Bool-cases (email == "")) [
      | inl b ↦ inl (ground arith)
      | inr b ↦ elim (Result-cases (first_user (s.find_by_emails (email ∷ []) w.db))) [
        | inr (e, k) ↦ inl (ground arith)
        | inl (user, k) ↦ elim (Bool-cases (is_some user.deleted_at)) [
          | inl gone ↦ inl (ground arith)
          | inr kept ↦ inr (
            user,
            elim (Result-cases
                (s.tokens.revoke_by_user_id_and_type now user.id refresh_type w.db).0) [
                  | inr (e, l) ↦ inl (ground arith)
                  | inl (n, l) ↦ elim (Result-cases (s.generate_jwt user.id now)) [
                    | inr (e, m) ↦ inl (ground arith)
                    | inl (access, m) ↦ inr (token user, ground arith)
                  ]
                ],
          )
        ]
      ]
    ]
  ]
    where
      token : User → UserToken
      token user = record {
        id = s.ulid w.drawn;
        user_id = user.id;
        type = refresh_type;
        token = s.random_hex w.drawn;
        last_used_at = none;
        expires_at = some (now + s.refresh_expiry);
        revoked_at = none;
      }

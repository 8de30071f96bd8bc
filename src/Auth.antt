-- ===== src/Auth.antt =====
-- feature/auth/auth_service.go: GoogleLogin, Refresh and Logout, with the token repository of
-- feature/user/gorm_user_token_repository.go as an interface, and the guards of
-- infrastructure/http/middleware/auth.go in Guard. `now` is one reading of the clock.
pub mod Guard
pub mod Tokens
pub mod Rows
pub mod Writes
pub mod Sessions
pub mod Reuse
use cred_chain_golang.Base.{
  ◌+◌, ℕ, String, List, [], ◌∷◌, Option, none, some, is_some, ltb, if◌then◌else◌, ◌==◌,
}
use cred_chain_golang.Domain.Clock.{Time}
use cred_chain_golang.Domain.Fault.{
  Code, domain, panic, Result, ok, err, system_internal, google_login_invalid_token,
  google_login_user_not_found, google_login_account_deleted, google_login_jwt_failed,
  refresh_invalid_token, refresh_token_expired, refresh_token_revoked, refresh_user_not_found,
  refresh_jwt_failed,
}
use cred_chain_golang.Domain.User.{User}
use cred_chain_golang.Effect.{Backend, M, ◌>>=◌, ◌>>◌, pure, lift, read_db, on_db, transaction}

-- domain.UserToken; its one type in use is "refresh".
pub record UserToken : Type 0 where
  pub id : String
  pub user_id : String
  pub type : String
  pub token : String
  pub last_used_at : Option Time
  pub expires_at : Option Time
  pub revoked_at : Option Time

-- domain.UserTokenRepository, with the methods that the service uses; `revoke_by_user_id_and_type`
-- gets the time that the repository reads.
pub record TokenRepository (Db : Type 0) : Type 0 where
  pub store : List UserToken → Db → Result (List UserToken) × Db
  pub find_by_token : String → Db → Result UserToken
  pub revoke_by_user_id_and_type : Time → String → String → Db → Result ℕ × Db
  pub update : UserToken → Db → Result UserToken × Db

-- `validate` is the Google client with ExtractEmailFromGoogleIdToken behind it, "" for no email;
-- `generate_jwt` is security.GenerateJWT for a user at a time; `random_hex` and `ulid` are the n-th
-- values drawn; `refresh_expiry` is the configured life of a refresh token.
pub record AuthService (T : Backend) : Type 0 where
  pub begin : T.Db → Result (Unit {0})
  pub commit : T.Db → Result (Unit {0})
  pub validate : String → Result String
  pub find_by_emails : List String → T.Db → Result (List User)
  pub find_user : String → T.Db → Result User
  pub tokens : TokenRepository T.Db
  pub generate_jwt : String → Time → Result String
  pub random_hex : ℕ → String
  pub ulid : ℕ → String
  pub refresh_expiry : Time

-- What a client gets: its user, its refresh token and its access token.
pub record Session : Type 0 where
  pub user : User
  pub refresh_token : UserToken
  pub access_token : String

abbrev pub refresh_type : String
refresh_type = "refresh"

abbrev pub coded {ℓ} : {A : Type ℓ} → Code → Result A → Result A
coded code (ok a) = ok a
coded code (err e) = err (domain code [])

abbrev pub first_user : Result (List User) → Result User
first_user (ok []) = err (domain google_login_user_not_found [])
first_user (ok (u ∷ us)) = ok u
first_user (err e) = err (domain google_login_user_not_found [])

-- `storedTokens[0]`
abbrev pub first_token : List UserToken → Result UserToken
first_token [] = err panic
first_token (t ∷ ts) = ok t

-- The checks of Refresh on the row that it finds.
unfoldable pub token_guard : Time → UserToken → Result (Unit {0})
token_guard now t =
    if is_some t.revoked_at then err (domain refresh_token_revoked []) else elim t.expires_at [
      | none ↦ ok tt
      | some expires_at ↦
          if ltb expires_at now then err (domain refresh_token_expired []) else ok tt
    ]

module _ {T : Backend} (s : AuthService T) where
  -- The text and the id of a new refresh token.
  unfoldable pub draw_token : Time → String → M T UserToken
  draw_token now user_id w = (
    ok (record {
      id = s.ulid w.drawn;
      user_id = user_id;
      type = refresh_type;
      token = s.random_hex w.drawn;
      last_used_at = none;
      expires_at = some (now + s.refresh_expiry);
      revoked_at = none;
    }),
    record w { drawn = w.drawn + 1 },
  )

  abbrev coded_db {ℓ} : {A : Type ℓ} → Code → Result A × T.Db → Result A × T.Db
  coded_db code (r, d) = (coded code r, d)

  abbrev pub require_email : String → Result (Unit {0})
  require_email email = if email == "" then err (domain google_login_invalid_token []) else ok tt

  abbrev pub require_kept : User → Result (Unit {0})
  require_kept user =
      if is_some user.deleted_at then err (domain google_login_account_deleted []) else ok tt

  -- No unit of work: the old refresh tokens are revoked first.
  unfoldable pub google_login : Time → String → M T Session
  unfolding draw_token
  google_login now id_token = do
    email ← lift (coded google_login_invalid_token (s.validate id_token))
    lift (require_email email)
    user ← read_db (λ db. first_user (s.find_by_emails (email ∷ []) db))
    lift (require_kept user)
    on_db (λ db.
        coded_db system_internal (s.tokens.revoke_by_user_id_and_type now user.id refresh_type db))
    access ← lift (coded google_login_jwt_failed (s.generate_jwt user.id now))
    token ← draw_token now user.id
    stored ← on_db (λ db. coded_db system_internal (s.tokens.store (token ∷ []) db))
    first ← lift (first_token stored)
    pure (record { user = user; refresh_token = first; access_token = access })

  -- The lookups and checks that Refresh makes before its unit of work.
  unfoldable pub refresh_check : Time → String → M T (UserToken × User)
  unfolding token_guard
  refresh_check now text = do
    token ← read_db (λ db. coded refresh_invalid_token (s.tokens.find_by_token text db))
    lift (token_guard now token)
    user ← read_db (λ db. coded refresh_user_not_found (s.find_user token.user_id db))
    pure (token, user)

  unfoldable pub refresh_body : Time → UserToken → User → T.Db → M T (UserToken × String)
  unfolding draw_token
  refresh_body now token user committed = do
    on_db (λ db.
        coded_db system_internal
          (s.tokens.update (record token { last_used_at = some now; revoked_at = some now }) db))
    access ← lift (coded refresh_jwt_failed (s.generate_jwt user.id now))
    fresh ← draw_token now user.id
    stored ← on_db (λ db. coded_db system_internal (s.tokens.store (fresh ∷ []) db))
    first ← lift (first_token stored)
    pure (first, access)

  unfoldable pub refresh_commit : Time → UserToken → User → M T Session
  refresh_commit now token user = do
    made ← transaction s.begin s.commit (refresh_body now token user)
    pure (record { user = user; refresh_token = made.0; access_token = made.1 })

  unfoldable pub refresh : Time → Time → String → M T Session
  refresh now later text = do found ← refresh_check now text; refresh_commit later found.0 found.1

  unfoldable pub logout : Time → String → M T ℕ
  logout now user_id = on_db (s.tokens.revoke_by_user_id_and_type now user_id refresh_type)

-- ===== src/Auth/Guard.antt =====
-- infrastructure/http/middleware/auth.go: the guards that stand before the handlers, with
-- HasRoleOrAbove of infrastructure/chain/authority_service.go. A guard gives the user that the request
-- goes on with, or the error that is sent.
use cred_chain_golang.Base.{
  ◌↔◌, ◌≡◌, ◌∙◌, ap, Bool, false, String, [], Option, none, some, is_some, leb, arith,
  if◌then◌else◌, ◌==◌, ◌≤◌, inl, inr,
}
use mathlib.Core.Path.{subst}
use cred_chain_golang.Domain.Role.{Role, rank}
use cred_chain_golang.Domain.Fault.{
  domain, record_not_found, Result, ok, err, system_internal, auth_unauthorized, auth_invalid_token,
  auth_forbidden,
}
use cred_chain_golang.Domain.User.{User}
use cred_chain_golang.Effect.{Backend, World}
use cred_chain_golang.Effect.Laws.{Result-cases}
use cred_chain_golang.Effect.Pure.{◌>>=◌}

-- `parse_jwt` is security.ValiparseJWT, which gives the user of a valid token; `trim_bearer` is
-- `strings.TrimPrefix(header, "Bearer ")`; `find_role` reads the authority contract.
pub record Gate (T : Backend) : Type 0 where
  pub parse_jwt : String → Result String
  pub trim_bearer : String → String
  pub find_user : String → T.Db → Result User
  pub find_role : String → T.Chain → Result Role

-- What a request carries: its cookie and its Authorization header, "" where it has none.
pub record Credentials : Type 0 where
  pub cookie : String
  pub header : String

abbrev user_or : Result User → Result User
user_or (ok u) = ok u
user_or (err record_not_found) = err (domain auth_unauthorized [])
user_or (err e) = err (domain system_internal [])

abbrev require_live : User → Result User
require_live u = if is_some u.deleted_at then err (domain auth_unauthorized []) else ok u

module _ {T : Backend} (g : Gate T) where
  unfoldable pub token_of : Credentials → Result String
  token_of c =
      if c.cookie == ""
      then (if c.header == ""
          then err (domain auth_unauthorized [])
          else (if g.trim_bearer c.header == c.header
              then err (domain auth_unauthorized [])
              else ok (g.trim_bearer c.header)))
      else ok c.cookie

  abbrev claims_of : String → Result String
  claims_of token = elim (g.parse_jwt token) [
    | ok user_id ↦ ok user_id
    | err e ↦ err (domain auth_invalid_token [])
  ]

  unfoldable pub authenticate : Credentials → T.Db → Result User
  unfolding token_of
  authenticate c db = do
    token ← token_of c
    user_id ← claims_of token
    user ← user_or (g.find_user user_id db)
    require_live user

  unfoldable pub has_role_or_above : String → Role → T.Chain → Bool
  has_role_or_above address least chain = elim (g.find_role address chain) [
    | err e ↦ false
    | ok role ↦ leb (rank least) (rank role)
  ]

  -- The admin, the issuer and the super-admin guard, by the role that they ask for.
  unfoldable pub role_guard : Role → Option User → T.Chain → Result User
  unfolding has_role_or_above
  role_guard least none chain = err (domain auth_unauthorized [])
  role_guard least (some u) chain =
      if has_role_or_above u.wallet_address least chain
      then ok u
      else err (domain auth_forbidden [])

  -- A route behind both guards.
  unfoldable pub admit : Role → Credentials → World T → Result User
  unfolding authenticate role_guard
  admit least c w = do u ← authenticate c w.db; role_guard least (some u) w.chain

  user_or-ok : (r : Result User) (u : User) → user_or r ≡ ok u → r ≡ ok u
  user_or-ok (ok v) u h = h
  user_or-ok (err record_not_found) u h = absurd (ground arith)
  user_or-ok (err e) u h = absurd (ground arith)

  authenticate-ok :
      (c : Credentials) (db : T.Db) (u : User)
      → authenticate c db ≡ ok u
      → (token user_id : String) × (token_of c ≡ ok token)
        × (g.parse_jwt token ≡ ok user_id)
        × (g.find_user user_id db ≡ ok u)
        × (u.deleted_at ≡ none)
  unfolding authenticate
  authenticate-ok c db u h = elim (Result-cases (token_of c)) [
    | inr (e, q) ↦ absurd (ground arith)
    | inl (token, q) ↦ elim (Result-cases (g.parse_jwt token)) [
      | inr (e, p) ↦ absurd (ground arith)
      | inl (user_id, p) ↦ elim (Result-cases (user_or (g.find_user user_id db))) [
        | inr (e, k) ↦ absurd (ground arith)
        | inl (v, k) ↦ (
          token,
          user_id,
          q,
          p,
          user_or-ok (g.find_user user_id db) u (ground arith),
          ground arith,
        )
      ]
    ]
  ]

  -- What lets a user in: a token that the key verifies and that names the user, who is in the database
  -- and not deleted, and a role on chain of at least the rank asked for.
  pub record IsAdmitted (least : Role) (c : Credentials) (w : World T) (u : User) : Type 0 where
    pub token : String
    pub user_id : String
    pub role : Role
    pub carried : token_of c ≡ ok token
    pub valid : g.parse_jwt token ≡ ok user_id
    pub found : g.find_user user_id w.db ≡ ok u
    pub live : u.deleted_at ≡ none
    pub on_chain : g.find_role u.wallet_address w.chain ≡ ok role
    pub enough : rank least ≤ rank role

  admit-IsAdmitted :
      (least : Role) (c : Credentials) (w : World T) (u : User)
      → admit least c w ≡ ok u
      → IsAdmitted least c w u
  unfolding admit role_guard has_role_or_above
  admit-IsAdmitted least c w u h = elim (Result-cases (authenticate c w.db)) [
    | inr (e, q) ↦ absurd (ground arith)
    | inl (v, q) ↦ elim (Result-cases (g.find_role v.wallet_address w.chain)) [
      | inr (e, p) ↦ absurd (ground arith)
      | inl (role, p) ↦
          let same : v ≡ u = ground arith in
          let (token, user_id, a, b, found, live) = authenticate-ok c w.db u (q ∙ ap ok same) in
          record {
            token = token;
            user_id = user_id;
            role = role;
            carried = a;
            valid = b;
            found = found;
            live = live;
            on_chain = subst (λ (x : User). g.find_role x.wallet_address w.chain ≡ ok role) same p;
            enough = ground arith;
          }
    ]
  ]

  IsAdmitted-admit :
      (least : Role) (c : Credentials) (w : World T) (u : User)
      → IsAdmitted least c w u
      → admit least c w ≡ ok u
  unfolding admit role_guard has_role_or_above authenticate
  IsAdmitted-admit least c w u a =
      let carried = a.carried in
      let valid = a.valid in
      let found = a.found in
      let live = a.live in let on_chain = a.on_chain in let enough = a.enough in ground arith

  -- A route behind both guards is entered, and as a user, exactly with a token that the server's key
  -- verifies and that names the user, who is in the database and not deleted, and whose role on chain
  -- has at least the rank that the route asks for. So the role in the database decides nothing.
  pub admit-ok :
      (least : Role) (c : Credentials) (w : World T) (u : User)
      → (admit least c w ≡ ok u) ↔ IsAdmitted least c w u
  admit-ok least c w u = (admit-IsAdmitted least c w u, IsAdmitted-admit least c w u)

-- ===== src/Examples/Sessions.antt =====
-- The authentication service over its token table, with one refresh token in it.
use cred_chain_golang.Base.{
  ◌≡◌, refl, ℕ, true, List, [], ◌∷◌, none, some, inr, nat_eq, if◌then◌else◌,
}
use cred_chain_golang.Domain.Role.{Role, rank}
use cred_chain_golang.Domain.Fault.{Error, ok, err}
use cred_chain_golang.Effect.{Backend, World, transaction}
use cred_chain_golang.Auth.{
  UserToken, AuthService, Session, refresh, refresh_check, refresh_body, refresh_commit,
  token_guard, draw_token,
}
use cred_chain_golang.Auth.Guard.{
  Gate, Credentials, IsAdmitted, admit, authenticate, token_of, role_guard, has_role_or_above,
  admit-ok,
}
use cred_chain_golang.Auth.Tokens.{
  repository, is_unique, is_fresh, find_by_token, find, update, overwritten, store,
}
use cred_chain_golang.Auth.Sessions.{IsBacked, Request, serve_all}
use cred_chain_golang.Auth.Reuse.{refresh_once}
use cred_chain_golang.Sql.{select}
use cred_chain_golang.Examples.{officer}

abbrev sessions : Backend
sessions = record { Db = List UserToken; Chain = ℕ; Queue = ℕ; Files = ℕ; Cache = ℕ }

abbrev service : AuthService sessions
service = record {
  begin = λ db. ok tt;
  commit = λ db. ok tt;
  validate = λ text. ok "u@x";
  find_by_emails = λ emails db. ok (officer ∷ []);
  find_user = λ id db. ok officer;
  tokens = repository;
  generate_jwt = λ id now. ok "jwt";
  random_hex = λ n. if nat_eq n 0 then "b" else "c";
  ulid = λ n. if nat_eq n 0 then "T2" else "T3";
  refresh_expiry = 100;
}

abbrev whole : List UserToken → List UserToken
whole db = db

law : IsBacked service whole
unfolding repository
law = record {
  find_by_token = λ text db t h. h;
  store = λ ts db. inr refl;
  revoke = λ now user_id type db. inr refl;
  update = λ t db. inr refl;
  update_ok = λ t u db d h. h;
}

abbrev token : UserToken
token = record {
  id = "T1";
  user_id = "U1";
  type = "refresh";
  token = "a";
  last_used_at = none;
  expires_at = some 50;
  revoked_at = none;
}

abbrev world : World sessions
world = record { db = token ∷ []; chain = 0; queue = 0; files = 0; cache = 0; drawn = 0 }

abbrev after : World sessions
after = (refresh service 10 11 "a" world).1

abbrev session : Session
session = record {
  user = officer;
  refresh_token = record token { id = "T2"; token = "b"; expires_at = some 111 };
  access_token = "jwt";
}

refresh_run : refresh service 10 11 "a" world ≡ (ok session, after)
unfolding refresh refresh_check refresh_commit refresh_body token_guard draw_token transaction
    repository find_by_token find update overwritten store is_unique is_fresh select
refresh_run = refl

one_row : is_unique (token ∷ []) ≡ true
unfolding is_unique is_fresh
one_row = refl

refresh_once_example :
    (e : Error) × ((refresh service 20 21 "a" (
        serve_all service
          (Request.refreshing 12 13 "b"
            ∷ Request.logging_out 14 "U1"
            ∷ Request.logging_in 15 "id"
            ∷ [])
          after)).0
      ≡ err e)
refresh_once_example =
    refresh_once service whole law 10 11 20 21 "a" world after session
      (Request.refreshing 12 13 "b" ∷ Request.logging_out 14 "U1" ∷ Request.logging_in 15 "id" ∷ [])
      one_row refresh_run

-- Two refreshes with one token, both of which read it before either writes: both succeed.
refresh_race :
    let second = refresh_commit service 12 token officer after in
    (refresh_check service 10 "a" world ≡ (ok (token, officer), world))
    × (second ≡ (
      ok (record {
        user = officer;
        refresh_token = record token { id = "T3"; token = "c"; expires_at = some 112 };
        access_token = "jwt";
      }),
      second.1,
    ))
unfolding refresh refresh_check refresh_commit refresh_body token_guard draw_token transaction
    repository find_by_token find update overwritten store is_unique is_fresh select
refresh_race = (refl, refl)

abbrev gate : Gate sessions
gate = record {
  parse_jwt = λ text. ok "U1";
  trim_bearer = λ text. text;
  find_user = λ id db. ok officer;
  find_role = λ address chain. ok Role.admin;
}

abbrev with_cookie : Credentials
with_cookie = record { cookie = "jwt"; header = "" }

admit_run : admit gate Role.issuer with_cookie world ≡ ok officer
unfolding admit authenticate token_of role_guard has_role_or_above rank
admit_run = refl

admit-ok_example : IsAdmitted gate Role.issuer with_cookie world officer
admit-ok_example = (admit-ok gate Role.issuer with_cookie world officer).0 admit_run

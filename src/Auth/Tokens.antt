-- ===== src/Auth/Tokens.antt =====
-- feature/user/gorm_user_token_repository.go: the statements on the table of user tokens. SQL is read on
-- a list of rows; every statement reaches the database.
use cred_chain_golang.Base.{
  ℕ, Bool, true, not, ◌&&◌, ◌||◌, String, List, [], ◌∷◌, ◌++◌, map, some, length, if◌then◌else◌,
  ◌==◌,
}
use cred_chain_golang.Domain.Clock.{Time}
use cred_chain_golang.Domain.Fault.{raw, record_not_found, Result, ok, err}
use cred_chain_golang.Sql.{select, or_old}
use cred_chain_golang.Auth.{UserToken, TokenRepository}

abbrev pub first_row : List UserToken → Result UserToken
first_row [] = err record_not_found
first_row (t ∷ ts) = ok t

unfoldable pub find_by_token : String → List UserToken → Result UserToken
unfolding select
find_by_token text rows = first_row (select (λ t. t.token == text) rows)

unfoldable pub find : String → List UserToken → Result UserToken
unfolding select
find id rows = first_row (select (λ t. t.id == id) rows)

-- The key and the unique index on the token's text.
unfoldable pub is_fresh : UserToken → List UserToken → Bool
is_fresh t [] = true
is_fresh t (u ∷ us) = not (t.id == u.id || t.token == u.token) && is_fresh t us

unfoldable pub is_unique : List UserToken → Bool
unfolding is_fresh
is_unique [] = true
is_unique (t ∷ ts) = is_fresh t ts && is_unique ts

unfoldable pub store : List UserToken → List UserToken → Result (List UserToken) × List UserToken
unfolding is_unique
store ts rows = if is_unique (rows ++ ts) then (ok ts, rows ++ ts) else (err (raw "23505"), rows)

abbrev pub is_of : String → String → UserToken → Bool
is_of user_id type t = t.user_id == user_id && t.type == type

-- A token that was revoked before gets the new time as well.
unfoldable pub revoked_where : Time → String → String → UserToken → UserToken
revoked_where now user_id type t =
    if is_of user_id type t then record t { revoked_at = some now } else t

unfoldable pub revoke_by_user_id_and_type :
    Time → String → String → List UserToken → Result ℕ × List UserToken
unfolding select revoked_where
revoke_by_user_id_and_type now user_id type rows =
    (ok (length (select (is_of user_id type) rows)), map (revoked_where now user_id type) rows)

abbrev or_kept_text : String → String → String
or_kept_text text old = if text == "" then old else text

-- gorm's `Updates` with a struct writes the fields that are not zero, in the rows of the id.
unfoldable pub overwritten : UserToken → UserToken → UserToken
overwritten new t =
    if t.id == new.id
    then record t {
      user_id = or_kept_text new.user_id t.user_id;
      type = or_kept_text new.type t.type;
      token = or_kept_text new.token t.token;
      last_used_at = or_old new.last_used_at t.last_used_at;
      expires_at = or_old new.expires_at t.expires_at;
      revoked_at = or_old new.revoked_at t.revoked_at;
    }
    else t

unfoldable pub update : UserToken → List UserToken → Result UserToken × List UserToken
unfolding overwritten find is_unique
update new rows =
    let rows' = map (overwritten new) rows in
    if is_unique rows' then (find new.id rows', rows') else (err (raw "23505"), rows)

unfoldable pub repository : TokenRepository (List UserToken)
repository = record {
  store = store;
  find_by_token = find_by_token;
  revoke_by_user_id_and_type = revoke_by_user_id_and_type;
  update = update;
}

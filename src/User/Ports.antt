-- ===== src/User/Ports.antt =====
-- What feature/user/user_service.go calls and does not implement: the fields of `userService` with the
-- methods that it uses. A repository behind the unit of work and the one outside run the same queries.
use cred_chain_golang.Base.{ℕ, Bool, String, List, Option}
use cred_chain_golang.Domain.Fault.{Result}
use cred_chain_golang.Domain.User.{User, Wallet}
use cred_chain_golang.Effect.{Backend}

-- domain.UserRepository, the user repository of `userService`. A count is the rows affected.
pub record UserRepository (Db : Type 0) : Type 0 where
  pub find : String → Db → Result (Option User)
  pub find_by_ids : List String → Db → Result (List User)
  pub find_by_emails : List String → Db → Result (List User)
  pub store : List User → Db → Result (List User) × Db
  pub update : List User → Db → Result (List User) × Db
  pub update_role : List User → Db → Result (List User × ℕ) × Db
  pub delete : List String → Db → Result ℕ × Db
  pub restore : List String → Db → Result ℕ × Db

-- chain.AuthorityService: the wallet of the caller signs, and the role of each user is written at
-- the user's wallet address.
pub record AuthorityService (Chain : Type 0) : Type 0 where
  pub update_user_role : Wallet → List User → Chain → Result (Unit {0}) × Chain
  pub transfer_super_admin : Wallet → User → Chain → Result (Unit {0}) × Chain

-- domain.UserUnit, as far as the service reads it
pub record UserUnit : Type 0 where
  pub id : String
  pub active : Bool

-- The rest of `userService`. `generate_wallet` is the n-th wallet drawn: a fresh key, its address, and
-- the key encrypted under the configured wallet key; `token_email` is the email claim of a Google id
-- token, "" where the claim is absent; `revoke_refresh_tokens` is `RevokeByUserIdAndType` of a user's
-- refresh tokens.
pub record UserService (T : Backend) : Type 0 where
  pub begin : T.Db → Result (Unit {0})
  pub commit : T.Db → Result (Unit {0})
  pub repo : UserRepository T.Db
  pub find_units : List String → T.Db → Result (List UserUnit)
  pub revoke_refresh_tokens : String → T.Db → Result ℕ × T.Db
  pub authority : AuthorityService T.Chain
  pub token_email : String → Result String
  pub generate_wallet : ℕ → Result Wallet

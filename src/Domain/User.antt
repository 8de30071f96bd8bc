-- ===== src/Domain/User.antt =====
-- domain/user.go and domain/wallet.go: the user row and the wallet that signs for it. The profile
-- fields that no operation reads (joined year, birth date, gender, meta, the two clocks of the row)
-- are left out.
use cred_chain_golang.Base.{String, Option}
use cred_chain_golang.Domain.Clock.{Time}
use cred_chain_golang.Domain.Role.{Role}

-- `blank` is the empty string, which an update carries when it leaves the language alone.
pub data Language : Type 0 where
  indonesian english blank : Language

pub record User : Type 0 where
  pub id : String
  pub name : Option String
  pub number : Option String
  pub unit_id : Option String
  pub email : String
  pub language : Language
  pub role : Role
  pub wallet_address : String
  pub encrypted_wallet_private_key : String
  pub deleted_at : Option Time

pub record UserRoleUpdate : Type 0 where
  pub user_id : String
  pub role : Role

pub record Wallet : Type 0 where
  pub address : String
  pub encrypted_private_key : String

unfoldable pub wallet_from_user : User → Wallet
wallet_from_user user = record {
  address = user.wallet_address;
  encrypted_private_key = user.encrypted_wallet_private_key;
}

-- `domain.User{}`, from which the services build a partial update.
abbrev pub empty_user : User
empty_user = record {
  id = "";
  name = Option.none;
  number = Option.none;
  unit_id = Option.none;
  email = "";
  language = Language.blank;
  role = Role.unset;
  wallet_address = "";
  encrypted_wallet_private_key = "";
  deleted_at = Option.none;
}

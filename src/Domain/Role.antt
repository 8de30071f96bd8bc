-- ===== src/Domain/Role.antt =====
-- domain/user.go: the role hierarchy and its encoding on chain.
use cred_chain_golang.Base.{ℕ, ◌≡◌, ◌≢◌, ◌<◌, Bool, true, false, arith, nat_eq, leb, if◌then◌else◌}

-- `unset` is the empty string, which an update carries when it leaves the role alone.
pub data Role : Type 0 where
  none super_admin admin issuer holder unset : Role

pub Role-discrete : Discrete Role
Role-discrete = hlevel

unfoldable pub rank : Role → ℕ
rank super_admin = 4
rank admin = 3
rank issuer = 2
rank holder = 1
rank none = 0
rank unset = 0

unfoldable pub to_uint8 : Role → ℕ
to_uint8 holder = 1
to_uint8 issuer = 2
to_uint8 admin = 3
to_uint8 super_admin = 4
to_uint8 none = 0
to_uint8 unset = 0

unfoldable pub role_from_uint8 : ℕ → Role
role_from_uint8 v =
    if nat_eq v 1
    then holder
    else if nat_eq v 2
    then issuer
    else if nat_eq v 3
    then admin
    else if nat_eq v 4
    then super_admin
    else none

-- The Go comparison `a == b` of two roles.
unfoldable pub role_eq : Role → Role → Bool
role_eq none none = true
role_eq super_admin super_admin = true
role_eq admin admin = true
role_eq issuer issuer = true
role_eq holder holder = true
role_eq unset unset = true
role_eq _ _ = false

pub role_eq→≡ : (r q : Role) → role_eq r q ≡ true → r ≡ q
unfolding role_eq
role_eq→≡ r q h = ground arith

pub role_eq_refl : (r : Role) → role_eq r r ≡ true
unfolding role_eq
role_eq_refl r = ground arith

-- For every pair of roles, comparing the encodings for the chain gives the same answer as comparing the
-- ranks, which the policies compare.
pub rank-to_uint8 : (r q : Role) → leb (rank q) (rank r) ≡ leb (to_uint8 q) (to_uint8 r)
unfolding rank to_uint8
rank-to_uint8 r q = ground arith

-- Decoding what was encoded for the chain gives back every role but the empty one, and every byte
-- above 4 decodes to `none`.
pub role_from_uint8-to_uint8 :
    (r : Role)
    → r ≢ unset
    → (role_from_uint8 (to_uint8 r) ≡ r) × ((v : ℕ) → 4 < v → role_from_uint8 v ≡ none)
unfolding role_from_uint8 to_uint8
role_from_uint8-to_uint8 r h = (ground arith, λ v p. ground arith)

-- ===== src/Domain/Clock.antt =====
-- `time.Time` as the whole nanoseconds since 1 January of year 1, UTC, which is Go's zero value, and
-- the conversion to the seconds that the contract stores (credentialIssuedAtToChain and
-- credentialExpiresAtToChain of feature/credential/credential_service.go). A time before year 1 and
-- the monotonic reading are not modelled.
use cred_chain_golang.Base.{
  ℕ, ◌+◌, ◌-◌, ◌*◌, ◌/◌, ◌%◌, ◌^◌, ◌≤◌, ◌<◌, ◌≡◌, Bool, Option, none, some, arith, ltb, nat_eq,
  if◌then◌else◌,
}

abbrev pub Time : Type 0
Time = ℕ

abbrev pub second : ℕ
second = 1000000000

-- The seconds from year 1 to 1970.
abbrev pub unix_epoch : ℕ
unix_epoch = 62135596800

abbrev pub is_zero : Time → Bool
is_zero t = nat_eq t 0

abbrev pub before : Time → Time → Bool
before t u = ltb t u

-- `uint64(t.Unix())`: a time before 1970 has a negative count of seconds, which wraps.
unfoldable pub unix_uint64 : Time → ℕ
unix_uint64 t = (t / second + 2 ^ 64 - unix_epoch) % 2 ^ 64

unfoldable pub issued_at_to_chain : Time → ℕ
unfolding unix_uint64
issued_at_to_chain issued_at = if is_zero issued_at then 0 else unix_uint64 issued_at

unfoldable pub expires_at_to_chain : Option Time → ℕ
unfolding unix_uint64
expires_at_to_chain none = 0
expires_at_to_chain (some expires_at) = unix_uint64 expires_at

-- From 1970 to the end of the 64-bit range the seconds on chain give back the time, up to the
-- fraction of a second.
pub issued_at_to_chain_lem :
    (t : Time)
    → unix_epoch * second ≤ t
    → t < (2 ^ 64 + unix_epoch) * second
    → (issued_at_to_chain t + unix_epoch) * second + t % second ≡ t
unfolding issued_at_to_chain
issued_at_to_chain_lem t h k = ground arith

-- An issue date after the zero time and before 1970 is stored on chain as a number of seconds of at
-- least 2^63, a date some 292 billion years ahead.
pub issued_at_to_chain_wraps :
    (t : Time) → 0 < t → t < unix_epoch * second → 2 ^ 63 ≤ issued_at_to_chain t
unfolding issued_at_to_chain
issued_at_to_chain_wraps t h k = ground arith

-- Up to the end of the range, an expiry that is stored on chain as 0, which means that the credential
-- never expires, falls in the first second of 1970.
pub expires_at_to_chain_zero :
    (t : Time)
    → t < (2 ^ 64 + unix_epoch) * second
    → expires_at_to_chain (some t) ≡ 0
    → t / second ≡ unix_epoch
unfolding expires_at_to_chain
expires_at_to_chain_zero t h e = ground arith

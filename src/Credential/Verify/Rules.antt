-- ===== src/Credential/Verify/Rules.antt =====
-- What the verdicts of Verify mean, and where the first verdict and the cached one part.
use cred_chain_golang.Base.{ℕ, ◌≡◌, ◌≢◌, Bool, false, Option, none, some, arith}
use cred_chain_golang.Domain.Clock.{Time}
use cred_chain_golang.Domain.Credential.{Credential, CredentialStatus, status, is_past}
use cred_chain_golang.Credential.Verify.Verdict.{
  authentic, revoked, is_gone, exact_verdict, cached_verdict,
}

-- A credential that no rule overrides: its parties exist and its expiry has not passed.
pub record IsInForce (now : Time) (c : Credential) : Type 0 where
  pub not_past : is_past now c.expires_at ≡ false
  pub holder_there : is_gone c.holder ≡ false
  pub issuer_there : is_gone c.issuer ≡ false

-- An exact match is authentic exactly when the chain does not hold it as revoked, its expiry has not
-- passed, and neither its holder nor its issuer is gone.
pub exact_verdict-authentic :
    (now : Time) (is_revoked : Bool) (c : Credential)
    → (exact_verdict now is_revoked c ≡ authentic → (is_revoked ≡ false) × IsInForce now c)
      × (is_revoked ≡ false → IsInForce now c → exact_verdict now is_revoked c ≡ authentic)
unfolding exact_verdict
exact_verdict-authentic now is_revoked c = (λ h. ground arith, λ h k. ground arith)

-- A cached verdict is given again as authentic only where it was cached as authentic and its
-- credential is still there, not revoked, and in force; every other cached code is given as it
-- stands.
pub cached_verdict-authentic :
    (now : Time) (code : ℕ) (cred : Option Credential)
    → (cached_verdict now code cred ≡ authentic
        → (code ≡ authentic)
          × ((c : Credential) × (cred ≡ some c)
              × (status now c ≢ CredentialStatus.revoked)
              × IsInForce now c))
      × (code ≢ authentic → cached_verdict now code cred ≡ code)
unfolding cached_verdict
cached_verdict-authentic now code none = (λ h. absurd (ground arith), λ h. ground arith)
cached_verdict-authentic now code (some c) =
    (λ h. (ground arith, (c, ground arith, (λ e. ground arith), ground arith)), λ h. ground arith)

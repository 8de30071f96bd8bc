-- ===== src/Examples/Verdicts.antt =====
-- Verification, the clock and the roles, on single values.
use cred_chain_golang.Base.{
  ◌≡◌, refl, ◌≤◌, ◌+◌, ◌*◌, ◌%◌, ◌^◌, ℕ, [], ◌∷◌, Option, none, some, true, false, arith, inl,
}
use cred_chain_golang.Domain.Clock.{
  second, unix_epoch, issued_at_to_chain, expires_at_to_chain, issued_at_to_chain_lem,
  issued_at_to_chain_wraps,
}
use cred_chain_golang.Domain.Fault.{ok}
use cred_chain_golang.Domain.Credential.{Credential, is_past}
use cred_chain_golang.Effect.{World}
use cred_chain_golang.Credential.Notify.{number_or_empty}
use cred_chain_golang.Credential.Verify.{
  VerificationResult, verify_upload, verify_exact, confirmed, holder_unit_name,
}
use cred_chain_golang.Credential.Verify.Match.{
  Best, exact_credential_matches, positive_tokens, cred_by_token, best_match, keep_better, matched,
}
use cred_chain_golang.Credential.Verify.Verdict.{authentic, revoked, exact_verdict}
use cred_chain_golang.Credential.Verify.Rules.{IsInForce, exact_verdict-authentic}
use cred_chain_golang.Credential.Verify.Exact.{is_live, best_match_prefers_live}
use cred_chain_golang.Credential.Verify.Confirm.{SameButCache, IsConfirmed, verify_upload-confirms}
use cred_chain_golang.Examples.{demo, credentials, start, minted, on_chain}

-- One second and a half after the start of 1970.
issued_at_to_chain_lem_example :
    (issued_at_to_chain 62135596801500000000 + unix_epoch) * second + 62135596801500000000 % second
    ≡ 62135596801500000000
issued_at_to_chain_lem_example =
    issued_at_to_chain_lem 62135596801500000000 (omega arith) (omega arith)

issued_at_to_chain_wraps_example : 2 ^ 63 ≤ issued_at_to_chain 5
issued_at_to_chain_wraps_example = issued_at_to_chain_wraps 5 (omega arith) (omega arith)

in_force : IsInForce 9 minted
unfolding is_past
in_force = record { not_past = refl; holder_there = refl; issuer_there = refl }

exact_verdict-authentic_example :
    (exact_verdict 9 false minted ≡ authentic → (false ≡ false) × IsInForce 9 minted)
    × (false ≡ false → IsInForce 9 minted → exact_verdict 9 false minted ≡ authentic)
exact_verdict-authentic_example = exact_verdict-authentic 9 false minted

abbrev taken_back : Credential
taken_back = record minted { revoked_at = some 6 }

abbrev by_token : ℕ → Option Credential
by_token n = some minted

minted_live : is_live (matched credentials "H1" (some minted) on_chain) ≡ true
unfolding exact_credential_matches issued_at_to_chain expires_at_to_chain number_or_empty
minted_live = refl

best_match_prefers_live_example :
    is_live (best_match credentials "H1" by_token none (on_chain ∷ [])) ≡ true
best_match_prefers_live_example =
    best_match_prefers_live credentials "H1" by_token (on_chain ∷ []) none (inl minted_live)

abbrev best : Best
best = record { credential = minted; on_chain = on_chain; revoked = false }

minted_best : matched credentials "H1" (some minted) on_chain ≡ some best
unfolding exact_credential_matches issued_at_to_chain expires_at_to_chain number_or_empty
minted_best = refl

abbrev published : World demo
published = record start { db = minted ∷ [] }

abbrev answer : VerificationResult
answer = record {
  verdict_code = authentic;
  credential = some minted;
  similarity_score = none;
  similarity_percent = none;
  exact_match_confirmed = true;
  holder_unit_name = none;
}

verify_run : verify_upload credentials 9 "pdf" published ≡ (ok answer, published)
unfolding verify_upload verify_exact confirmed holder_unit_name positive_tokens cred_by_token
    best_match keep_better exact_credential_matches issued_at_to_chain expires_at_to_chain
    number_or_empty exact_verdict is_past
verify_run = refl

verify_upload-confirms_example :
    SameButCache published published
    × ((v : VerificationResult)
        → ok answer ≡ ok v
        → v.exact_match_confirmed ≡ true
        → IsConfirmed credentials 9 "pdf" published v)
verify_upload-confirms_example =
    verify_upload-confirms credentials 9 "pdf" published published (ok answer) verify_run

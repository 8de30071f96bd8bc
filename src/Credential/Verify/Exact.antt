-- ===== src/Credential/Verify/Exact.antt =====
-- The exact branch of Verify: which record on chain it settles on, and what a confirmed match means.
use cred_chain_golang.Base.{
  ℕ, ◌≡◌, Bool, true, false, String, List, [], ◌∷◌, Option, none, some, arith, ◌⊎◌, inl, inr,
  Option-cases, not,
}
use cred_chain_golang.Domain.Credential.{Credential}
use cred_chain_golang.Effect.{Backend}
use cred_chain_golang.Credential.Ports.{CredentialService, OnChainCredential}
use cred_chain_golang.Credential.Verify.Match.{
  exact_credential_matches, best_match, Best, matched, keep_better, find_token, is_positive,
}

-- A match that the chain does not hold as revoked.
abbrev pub is_live : Option Best → Bool
is_live none = false
is_live (some b) = not b.revoked

-- `b` is what the loop makes of one record of the list.
abbrev pub IsMatchOf :
    {T : Backend}
    → CredentialService T
    → String
    → (ℕ → Option Credential)
    → List OnChainCredential
    → Best
    → Type 0
IsMatchOf s hash by_token [] b = ⊥
IsMatchOf s hash by_token (o ∷ os) b =
    (matched s hash (find_token by_token o.id) o ≡ some b) ⊎ IsMatchOf s hash by_token os b

-- Some record of the list gives a match that the chain does not hold as revoked.
abbrev pub HasLiveMatch :
    {T : Backend}
    → CredentialService T
    → String
    → (ℕ → Option Credential)
    → List OnChainCredential
    → Type 0
HasLiveMatch s hash by_token [] = ⊥
HasLiveMatch s hash by_token (o ∷ os) =
    (is_live (matched s hash (find_token by_token o.id) o) ≡ true) ⊎ HasLiveMatch s hash by_token os

keep_better-origin :
    (start m : Option Best) (b : Best)
    → keep_better start m ≡ some b
    → (start ≡ some b) ⊎ (m ≡ some b)
unfolding keep_better
keep_better-origin start none b h = inl h
keep_better-origin start (some m) b h = ground arith

keep_better-live :
    (start m : Option Best)
    → (is_live start ≡ true → is_live (keep_better start m) ≡ true)
      × (is_live m ≡ true → is_live (keep_better start m) ≡ true)
unfolding keep_better
keep_better-live start none = (λ h. h, λ h. ground arith)
keep_better-live none (some m) = (λ h. ground arith, λ h. ground arith)
keep_better-live (some a) (some m) = (λ h. ground arith, λ h. ground arith)

module _ {T : Backend} (s : CredentialService T) (hash : String)
    (by_token : ℕ → Option Credential) where
  best_match-origin :
      (os : List OnChainCredential) (start : Option Best) (b : Best)
      → best_match s hash by_token start os ≡ some b
      → (start ≡ some b) ⊎ IsMatchOf s hash by_token os b
  unfolding best_match
  best_match-origin [] start b h = inl h
  best_match-origin (o ∷ os) start b h =
      let m = matched s hash (find_token by_token o.id) o in
      elim (best_match-origin os (keep_better start m) b h) [
        | inr later ↦ inr (inr later)
        | inl now ↦ elim (keep_better-origin start m b now) [ inl e ↦ inl e | inr e ↦ inr (inl e) ]
      ]

  best_match-keeps_live :
      (os : List OnChainCredential) (start : Option Best)
      → is_live start ≡ true
      → is_live (best_match s hash by_token start os) ≡ true
  unfolding best_match
  best_match-keeps_live [] start h = h
  best_match-keeps_live (o ∷ os) start h =
      let m = matched s hash (find_token by_token o.id) o in
      best_match-keeps_live os (keep_better start m) ((keep_better-live start m).0 h)

  -- Where some record of the list gives a match that is not revoked, the match that is chosen is
  -- not revoked, in whatever order the registry lists the records and from whatever start.
  pub best_match_prefers_live :
      (os : List OnChainCredential) (start : Option Best)
      → HasLiveMatch s hash by_token os
      → is_live (best_match s hash by_token start os) ≡ true
  unfolding best_match
  best_match_prefers_live [] start h = absurd h
  best_match_prefers_live (o ∷ os) start (inl here) =
      let m = matched s hash (find_token by_token o.id) o in
      best_match-keeps_live os (keep_better start m) ((keep_better-live start m).1 here)
  best_match_prefers_live (o ∷ os) start (inr there) =
      best_match_prefers_live os (keep_better start (matched s hash (find_token by_token o.id) o))
        there

  pub best_match_from_none :
      (os : List OnChainCredential) (b : Best)
      → best_match s hash by_token none os ≡ some b
      → IsMatchOf s hash by_token os b
  best_match_from_none os b h = elim (best_match-origin os none b h) [
    | inl e ↦ absurd (ground arith)
    | inr m ↦ m
  ]

-- The row that a match names agrees with the record of the match, and the match is revoked where
-- that record has a revocation time.
pub IsMatchOf-matches :
    {T : Backend} (s : CredentialService T) (hash : String) (by_token : ℕ → Option Credential)
    (os : List OnChainCredential) (b : Best)
    → IsMatchOf s hash by_token os b
    → (exact_credential_matches s hash b.credential b.on_chain ≡ true)
      × (b.revoked ≡ is_positive b.on_chain.revoked_at)
IsMatchOf-matches s hash by_token [] b h = absurd h
IsMatchOf-matches s hash by_token (o ∷ os) b (inr later) =
    IsMatchOf-matches s hash by_token os b later
IsMatchOf-matches s hash by_token (o ∷ os) b (inl now) =
    elim (Option-cases (find_token by_token o.id)) [
      | inl e ↦ absurd (ground arith)
      | inr (c, e) ↦ (ground arith, ground arith)
    ]

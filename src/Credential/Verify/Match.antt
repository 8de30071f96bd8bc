-- ===== src/Credential/Verify/Match.antt =====
-- verifyExactCredentialMatches, the choice among on-chain matches, and verifyPickBestMatch of
-- feature/credential/credential_service.go.
use cred_chain_golang.Base.{
  ℕ, suc, Bool, true, false, not, ◌&&◌, ◌||◌, String, List, [], ◌∷◌, map, Option, none, some,
  slice_to_map, contains, is_some, nat_eq, ltb, if◌then◌else◌, ◌==◌,
}
use cred_chain_golang.Domain.Clock.{Time, is_zero, issued_at_to_chain, expires_at_to_chain}
use cred_chain_golang.Domain.Fault.{ok, err}
use cred_chain_golang.Domain.User.{User}
use cred_chain_golang.Domain.Credential.{Credential, CredentialStatus, status}
use cred_chain_golang.Effect.{Backend}
use cred_chain_golang.Credential.Ports.{CredentialService, CredentialExtraction, OnChainCredential}
use cred_chain_golang.Credential.Notify.{number_or_empty}

-- An absent `*big.Int` equals nothing.
abbrev pub equals_number : Option ℕ → ℕ → Bool
equals_number none n = false
equals_number (some m) n = nat_eq m n

abbrev equals_text : Option String → String → Bool
equals_text none t = false
equals_text (some u) t = u == t

-- `x != nil && x.Sign() > 0`
abbrev pub is_positive : Option ℕ → Bool
is_positive none = false
is_positive (some n) = ltb 0 n

abbrev same_bool : Bool → Bool → Bool
same_bool true b = b
same_bool false b = not b

abbrev same_user : Option User → Option String → Bool
same_user none id = false
same_user (some u) none = false
same_user (some u) (some id) = u.id == id

module _ {T : Backend} (s : CredentialService T) where
  -- `common.IsHexAddress`, a nonzero `common.HexToAddress`, and its comparison with the chain's.
  abbrev usable_address : Option String → String → Bool
  usable_address none on_chain = false
  usable_address (some address) on_chain = not (address == s.zero_address) && on_chain == address

  abbrev pub same_wallet : Option User → String → Bool
  same_wallet none on_chain = false
  same_wallet (some u) on_chain = usable_address (s.wallet_hex u.wallet_address) on_chain

  abbrev same_token : Option ℕ → Option String → Bool
  same_token none token = false
  same_token (some id) token = equals_text token (s.decimal id)

  unfoldable pub exact_credential_matches : String → Credential → OnChainCredential → Bool
  exact_credential_matches hash cred on_chain =
      same_token on_chain.id cred.token_id
      && cred.file_hash == hash
      && on_chain.hash == hash
      && not (cred.id == "")
      && on_chain.uri == cred.id
      && same_user cred.holder (some cred.holder_user_id)
      && same_user cred.issuer cred.issuer_user_id
      && same_wallet cred.holder on_chain.holder
      && same_wallet cred.issuer on_chain.issuer
      && not (is_zero cred.issued_at)
      && equals_number on_chain.issued_at (issued_at_to_chain cred.issued_at)
      && equals_number on_chain.expires_at (expires_at_to_chain cred.expires_at)
      && on_chain.number == number_or_empty cred.number
      && is_some on_chain.revoked_at
      && same_bool (is_some cred.revoked_at) (is_positive on_chain.revoked_at)

  -- The token ids that are positive decimal numbers.
  abbrev positive_token : Option String → Option ℕ
  positive_token none = none
  positive_token (some token) = elim (s.parse_token token) [
    | none ↦ none
    | some n ↦ if ltb 0 n then some n else none
  ]

  unfoldable pub positive_tokens : List Credential → List ℕ
  positive_tokens [] = []
  positive_tokens (c ∷ cs) =
      let rest = positive_tokens cs in
      elim (positive_token c.token_id) [ none ↦ rest | some n ↦ n ∷ rest ]

  -- `credByTokenId`: a later row of the same token replaces an earlier one.
  unfoldable pub cred_by_token : List Credential → ℕ → Option Credential
  cred_by_token [] token = none
  cred_by_token (c ∷ cs) token = elim (cred_by_token cs token) [
    | some later ↦ some later
    | none ↦ if equals_number (positive_token c.token_id) token then some c else none
  ]

-- `best`, `bestOnChain` and `bestIsRevoked` of the loop.
pub record Best : Type 0 where
  pub credential : Credential
  pub on_chain : OnChainCredential
  pub revoked : Bool

abbrev later : Option ℕ → Option ℕ → Bool
later (some a) (some b) = ltb b a
later _ _ = false

-- The condition under which a match replaces the one that was kept.
unfoldable pub replaces : Option Best → OnChainCredential → Bool → Bool
replaces none on_chain revoked = true
replaces (some best) on_chain revoked =
    best.revoked && not revoked
    || same_bool best.revoked revoked && later on_chain.issued_at best.on_chain.issued_at

abbrev pub matched :
    {T : Backend}
    → CredentialService T
    → String
    → Option Credential
    → OnChainCredential
    → Option Best
matched s hash none on_chain = none
matched s hash (some cred) on_chain =
    if exact_credential_matches s hash cred on_chain
    then some (record {
      credential = cred;
      on_chain = on_chain;
      revoked = is_positive on_chain.revoked_at;
    })
    else none

abbrev pub find_token : (ℕ → Option Credential) → Option ℕ → Option Credential
find_token by_token none = none
find_token by_token (some id) = by_token id

unfoldable pub keep_better : Option Best → Option Best → Option Best
unfolding replaces
keep_better best none = best
keep_better best (some m) = if replaces best m.on_chain m.revoked then some m else best

-- The loop over what the registry returned.
unfoldable pub best_match :
    {T : Backend}
    → CredentialService T
    → String
    → (ℕ → Option Credential)
    → Option Best
    → List OnChainCredential
    → Option Best
best_match s hash by_token best [] = best
best_match s hash by_token best (o ∷ os) =
    best_match s hash by_token (keep_better best (matched s hash (find_token by_token o.id) o)) os

-- verifyCountIntersection
unfoldable pub count_intersection : List String → List String → ℕ
count_intersection [] values = 0
count_intersection (id ∷ ids) values =
    let rest = count_intersection ids values in if contains values id then suc rest else rest

unfoldable pub tied_with : ℕ → List String → List CredentialExtraction → List CredentialExtraction
tied_with n values [] = []
tied_with n values (r ∷ rs) =
    let rest = tied_with n values rs in
    if nat_eq (count_intersection r.ids values) n then r ∷ rest else rest

abbrev is_revoked_status : CredentialStatus → Bool
is_revoked_status CredentialStatus.revoked = true
is_revoked_status _ = false

-- The zero credential, where the map has no row for the first candidate, is neither revoked nor
-- issued at any time.
abbrev is_revoked_at : Time → Option Credential → Bool
is_revoked_at now none = false
is_revoked_at now (some c) = is_revoked_status (status now c)

abbrev issued_of : Option Credential → Time
issued_of none = 0
issued_of (some c) = c.issued_at

-- Whether `tc` replaces `bestCred`.
unfoldable pub prefers : Time → Option Credential → Credential → Bool
prefers now best tc =
    is_revoked_at now best && not (is_revoked_at now (some tc))
    || same_bool (is_revoked_at now best) (is_revoked_at now (some tc))
      && ltb (issued_of best) tc.issued_at

abbrev contender :
    Time
    → CredentialExtraction
    → Option Credential
    → CredentialExtraction
    → Option Credential
    → CredentialExtraction × Option Credential
contender now best cred t none = (best, cred)
contender now best cred t (some tc) = if prefers now cred tc then (t, some tc) else (best, cred)

-- The loop over the candidates after the first.
unfoldable pub pick_loop :
    Time
    → (String → Option Credential)
    → CredentialExtraction
    → Option Credential
    → List CredentialExtraction
    → CredentialExtraction
pick_loop now by_id best cred [] = best
pick_loop now by_id best cred (t ∷ ts) =
    let next = contender now best cred t (by_id t.credential_id) in
    pick_loop now by_id next.0 next.1 ts

module _ {T : Backend} (s : CredentialService T) (now : Time) where
  abbrev among : CredentialExtraction → List CredentialExtraction → T.Db → CredentialExtraction
  among first [] db = first
  among first (t ∷ ts) db =
      elim (s.repo.find_verifiable_by_ids (map (λ e. e.credential_id) (first ∷ t ∷ ts)) [] db) [
        | err e ↦ first
        | ok creds ↦
            let by_id = slice_to_map (λ c. c.id) (λ c. c) creds in
            pick_loop now by_id first (by_id first.credential_id) (t ∷ ts)
      ]

  abbrev among_tied : CredentialExtraction → List CredentialExtraction → T.Db → CredentialExtraction
  among_tied r [] db = r
  among_tied r (first ∷ rest) db = among first rest db

  -- verifyPickBestMatch of `ranked`, here `r ∷ rs`; `r` ties with itself, so it heads the tied.
  unfoldable pub pick_best_match :
      CredentialExtraction → List CredentialExtraction → List String → T.Db → CredentialExtraction
  pick_best_match r rs values db =
      among_tied r (tied_with (count_intersection r.ids values) values (r ∷ rs)) db

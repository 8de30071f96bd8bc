-- ===== src/Credential/Mint.antt =====
-- mintCredentials and syncBlockchainRevoke of feature/credential/credential_service.go: what the
-- service asks of the registry contract, and the rows and jobs that follow.
pub mod Outcome
use text.Mathlib.Text.{find?}
use cred_chain_golang.Base.{
  ℕ, Bool, false, String, List, [], ◌∷◌, map, Option, none, some, is_some, is_empty, if◌then◌else◌,
}
use cred_chain_golang.Domain.Clock.{issued_at_to_chain, expires_at_to_chain}
use cred_chain_golang.Domain.Fault.{
  Code, Error, domain, panic, raw, Result, ok, err, issue_duplicate_file_hash,
  revoke_blockchain_sync_failed,
}
use cred_chain_golang.Domain.User.{User, Wallet}
use cred_chain_golang.Domain.Credential.{Credential, empty_credential}
use cred_chain_golang.Effect.{Backend, M, ◌>>=◌, ◌>>◌, pure, raise, lift, on_db, on_queue, each}
use cred_chain_golang.Credential.Ports.{CredentialService, ChainIssuance}
use cred_chain_golang.Credential.Notify.{number_or_empty}

-- `holderByID[c.HolderUserID].WalletAddress`: a holder that is not there reads as the zero user.
unfoldable pub wallet_of : Option User → String
wallet_of none = ""
wallet_of (some holder) = holder.wallet_address

unfoldable pub issuance_of : (String → Option User) → Credential → ChainIssuance
issuance_of holder_by_id c = record {
  holder_address = wallet_of (holder_by_id c.holder_user_id);
  hash = c.file_hash;
  uri = c.id;
  issued_at = issued_at_to_chain c.issued_at;
  expires_at = expires_at_to_chain c.expires_at;
  number = number_or_empty c.number;
}

-- `strings.Contains(err.Error(), "IssuedCredentialError")`
unfoldable pub is_issued_credential_error : Error → Bool
is_issued_credential_error (raw text) = is_some (find? text "IssuedCredentialError")
is_issued_credential_error _ = false

unfoldable pub mint_error : Code → Error → Error
mint_error fail_code e =
    if is_issued_credential_error e
    then domain issue_duplicate_file_hash []
    else domain fail_code []

-- `stored[i].TokenID = &tok` for each row. A token list that is too short is an index out of range.
unfoldable pub with_tokens : (ℕ → String) → List Credential → List ℕ → Result (List Credential)
with_tokens decimal [] tokens = ok []
with_tokens decimal (c ∷ cs) [] = err panic
with_tokens decimal (c ∷ cs) (t ∷ ts) = elim (with_tokens decimal cs ts) [
  | ok rest ↦ ok (record c { token_id = some (decimal t) } ∷ rest)
  | err e ↦ err e
]

-- `domain.Credential{ID: c.ID, TokenID: &tok}`
abbrev pub token_update : Credential → Credential
token_update c = record empty_credential { id = c.id; token_id = c.token_id }

module _ {T : Backend} (s : CredentialService T) where
  -- `*c.FileURI` of a row that has none is a nil dereference.
  unfoldable pub enqueue_extract_job : Credential → M T (Unit {0})
  enqueue_extract_job c = elim c.file_uri [
    | none ↦ raise panic
    | some uri ↦ on_queue (s.enqueuer.enqueue_extract c.id (s.storage.join_path uri))
  ]

  abbrev issue_on_chain : Wallet → Code → List ChainIssuance → M T (List ℕ)
  issue_on_chain signer fail_code issuances w =
      let (r, c) = s.registry.issue_credentials signer issuances w.chain in
      (
        elim r [ ok tokens ↦ ok tokens | err e ↦ err (mint_error fail_code e) ],
        record w { chain = c },
      )

  -- The second half of mintCredentials: the token ids are stored, and an extraction job is enqueued
  -- for each row.
  unfoldable pub store_minted : List Credential → M T (List Credential)
  store_minted minted = do
    on_db (s.repo.update (map token_update minted))
    each enqueue_extract_job minted
    pure minted

  -- The result is the slice `stored` with the token ids that the code writes into it.
  unfoldable pub mint_credentials :
      Wallet → List Credential → (String → Option User) → Code → M T (List Credential)
  unfolding mint_error
  mint_credentials signer stored holder_by_id fail_code = do
    tokens ← issue_on_chain signer fail_code (map (issuance_of holder_by_id) stored)
    minted ← lift (with_tokens s.decimal stored tokens)
    store_minted minted

  -- `new(big.Int).SetString(idStr, 10)` for each id; the first that is no number is refused.
  unfoldable pub parse_tokens : List String → Result (List ℕ)
  parse_tokens [] = ok []
  parse_tokens (t ∷ ts) =
      let rest = parse_tokens ts in
      elim (s.parse_token t) [
        | none ↦ err (domain revoke_blockchain_sync_failed [])
        | some n ↦ elim rest [ ok ns ↦ ok (n ∷ ns) | err e ↦ err e ]
      ]

  abbrev revoke_on_chain : Wallet → List ℕ → M T (Unit {0})
  revoke_on_chain signer ids w =
      let (r, c) = s.registry.revoke_credentials signer ids w.chain in
      (
        elim r [ ok _ ↦ ok tt | err e ↦ err (domain revoke_blockchain_sync_failed []) ],
        record w { chain = c },
      )

  unfoldable pub sync_blockchain_revoke : Wallet → List String → M T (Unit {0})
  unfolding parse_tokens
  sync_blockchain_revoke signer tokens =
      if is_empty tokens
      then pure tt
      else (do ids ← lift (parse_tokens tokens); revoke_on_chain signer ids)

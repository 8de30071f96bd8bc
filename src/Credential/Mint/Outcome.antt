-- ===== src/Credential/Mint/Outcome.antt =====
-- What a mint leaves behind: the calls that it made, and what each of its failures undoes.
use cred_chain_golang.Base.{
  none, some, Aligned, map-Aligned, ◌≡◌, refl, ℕ, String, List, [], ◌∷◌, map, Option, arith, length,
  inl, inr,
}
use cred_chain_golang.Domain.Fault.{Code, Error, Result, ok, err}
use cred_chain_golang.Domain.User.{User, Wallet}
use cred_chain_golang.Domain.Credential.{Credential}
use cred_chain_golang.Effect.{Backend, World, ◌>>=◌, lift, each}
use cred_chain_golang.Effect.Laws.{Result-cases}
use cred_chain_golang.Credential.Ports.{CredentialService, ChainIssuance}
use cred_chain_golang.Credential.Mint.{
  mint_credentials, issuance_of, mint_error, with_tokens, enqueue_extract_job, token_update,
  store_minted, wallet_of,
}
use cred_chain_golang.Domain.Clock.{Time, unix_uint64, issued_at_to_chain, expires_at_to_chain}
use cred_chain_golang.Credential.Notify.{number_or_empty}

module _ {T : Backend} (s : CredentialService T) where
  job-frame :
      (c : Credential) (w : World T)
      → let v = (enqueue_extract_job s c w).1 in (v.db ≡ w.db) × (v.chain ≡ w.chain)
  unfolding enqueue_extract_job
  job-frame c w = ground arith

  pub jobs-frame :
      (cs : List Credential) (w : World T)
      → let v = (each (enqueue_extract_job s) cs w).1 in (v.db ≡ w.db) × (v.chain ≡ w.chain)
  unfolding each
  jobs-frame [] w = (refl, refl)
  jobs-frame (c ∷ cs) w = ground (arith, job-frame c w, jobs-frame cs (enqueue_extract_job s c w).1)

  store_minted-chain :
      (cs : List Credential) (w : World T) → (store_minted s cs w).1.chain ≡ w.chain
  unfolding store_minted
  store_minted-chain cs w =
      ground (arith, jobs-frame cs (record w { db = (s.repo.update (map token_update cs) w.db).1 }))

  store_minted-ok :
      (cs out : List Credential) (w w' : World T) → store_minted s cs w ≡ (ok out, w') → out ≡ cs
  unfolding store_minted
  store_minted-ok cs out w w' h = ground arith

  rest-frame :
      (stored : List Credential) (tokens : List ℕ) (w w' : World T) (r : Result (List Credential))
      → (lift (with_tokens s.decimal stored tokens) >>= store_minted s) w ≡ (r, w')
      → w'.chain ≡ w.chain
  rest-frame stored tokens w w' r h = elim (Result-cases (with_tokens s.decimal stored tokens)) [
    | inl (cs, e) ↦ ground (arith, store_minted-chain cs w)
    | inr (x, e) ↦ ground arith
  ]

  rest-ok :
      (stored : List Credential) (tokens : List ℕ) (w w' : World T) (out : List Credential)
      → (lift (with_tokens s.decimal stored tokens) >>= store_minted s) w ≡ (ok out, w')
      → with_tokens s.decimal stored tokens ≡ ok out
  rest-ok stored tokens w w' out h = elim (Result-cases (with_tokens s.decimal stored tokens)) [
    | inl (cs, e) ↦ ground (arith, store_minted-ok cs out w w')
    | inr (x, e) ↦ absurd (ground arith)
  ]

  module _ (signer : Wallet) (stored : List Credential) (holder_by_id : String → Option User)
      (code : Code) (w w' : World T) where
    -- A mint that succeeds made one call of the contract, with one issuance for each stored row, and
    -- gives each row the token of its position.
    pub mint-ok :
        (cs : List Credential)
        → mint_credentials s signer stored holder_by_id code w ≡ (ok cs, w')
        → (tokens : List ℕ) × (s.registry.issue_credentials signer
              (map (issuance_of holder_by_id) stored)
              w.chain
            ≡ (ok tokens, w'.chain))
          × (with_tokens s.decimal stored tokens ≡ ok cs)
    unfolding mint_credentials
    mint-ok cs h =
        elim (Result-cases
          (s.registry.issue_credentials signer (map (issuance_of holder_by_id) stored) w.chain).0) [
            | inl (tokens, e) ↦ (
              tokens,
              ground (
                arith,
                rest-frame stored tokens
                    (record w {
                      chain =
                          (s.registry.issue_credentials signer
                            (map (issuance_of holder_by_id) stored) w.chain).1;
                    })
                    w' (ok cs),
              ),
              ground (
                arith,
                rest-ok stored tokens
                    (record w {
                      chain =
                          (s.registry.issue_credentials signer
                            (map (issuance_of holder_by_id) stored) w.chain).1;
                    })
                    w' cs,
              ),
            )
            | inr (x, e) ↦ absurd (ground arith)
          ]

    -- Once the contract has accepted, the chain stays as it left it, also where the mint fails later.
    pub mint-chain :
        (tokens : List ℕ) (c : T.Chain)
        → s.registry.issue_credentials signer (map (issuance_of holder_by_id) stored) w.chain
          ≡ (ok tokens, c)
        → (mint_credentials s signer stored holder_by_id code w).1.chain ≡ c
    unfolding mint_credentials
    mint-chain tokens c i =
        let rest =
          (lift (with_tokens s.decimal stored tokens) >>= store_minted s)
            (record w { chain = c }) in
        ground (arith, rest-frame stored tokens (record w { chain = c }) rest.1 rest.0)

    -- The contract's refusal becomes the code of the duplicate file or the caller's, and stops the mint
    -- before any row or job is written.
    pub mint_refused :
        (e : Error) (c : T.Chain)
        → s.registry.issue_credentials signer (map (issuance_of holder_by_id) stored) w.chain
          ≡ (err e, c)
        → mint_credentials s signer stored holder_by_id code w
          ≡ (err (mint_error code e), record w { chain = c })
    unfolding mint_credentials
    mint_refused e c i = ground arith

-- What the contract is asked to issue for a row.
pub record IsIssued (holder_by_id : String → Option User) (c : Credential) (i : ChainIssuance)
    : Type 0 where
  pub holder :
      (h : User) → holder_by_id c.holder_user_id ≡ some h → i.holder_address ≡ h.wallet_address
  pub hash : i.hash ≡ c.file_hash
  pub uri : i.uri ≡ c.id
  pub issued_at : i.issued_at ≡ issued_at_to_chain c.issued_at
  pub never_expires : c.expires_at ≡ none → i.expires_at ≡ 0
  pub expires_at : (t : Time) → c.expires_at ≡ some t → i.expires_at ≡ unix_uint64 t
  pub unnumbered : c.number ≡ none → i.number ≡ ""
  pub number : (n : String) → c.number ≡ some n → i.number ≡ n

issuance_of-IsIssued :
    (holder_by_id : String → Option User) (c : Credential)
    → IsIssued holder_by_id c (issuance_of holder_by_id c)
unfolding issuance_of wallet_of expires_at_to_chain number_or_empty
issuance_of-IsIssued holder_by_id c = record {
  holder = λ h e. ground arith;
  hash = refl;
  uri = refl;
  issued_at = refl;
  never_expires = λ e. ground arith;
  expires_at = λ t e. ground arith;
  unnumbered = λ e. ground arith;
  number = λ n e. ground arith;
}

pub issuances-Aligned :
    (holder_by_id : String → Option User) (cs : List Credential)
    → Aligned (IsIssued holder_by_id) cs (map (issuance_of holder_by_id) cs)
issuances-Aligned holder_by_id cs =
    map-Aligned _ (issuance_of holder_by_id) (issuance_of-IsIssued holder_by_id) cs

-- The rows, each with the token of its position.
abbrev pub Tokened : (ℕ → String) → List Credential → List ℕ → List Credential → Type 0
Tokened decimal [] ts [] = Unit
Tokened decimal [] ts (d ∷ ds) = ⊥
Tokened decimal (c ∷ cs) [] ds = ⊥
Tokened decimal (c ∷ cs) (t ∷ ts) [] = ⊥
Tokened decimal (c ∷ cs) (t ∷ ts) (d ∷ ds) =
    (d ≡ record c { token_id = some (decimal t) }) × Tokened decimal cs ts ds

pub with_tokens-Tokened :
    (decimal : ℕ → String) (cs : List Credential) (ts : List ℕ) (out : List Credential)
    → with_tokens decimal cs ts ≡ ok out
    → Tokened decimal cs ts out
unfolding with_tokens
with_tokens-Tokened decimal [] ts [] h = tt
with_tokens-Tokened decimal [] ts (d ∷ ds) h = absurd (ground arith)
with_tokens-Tokened decimal (c ∷ cs) [] ds h = absurd (ground arith)
with_tokens-Tokened decimal (c ∷ cs) (t ∷ ts) [] h =
    elim (Result-cases (with_tokens decimal cs ts)) [
      | inl (rest, e) ↦ absurd (ground arith)
      | inr (x, e) ↦ absurd (ground arith)
    ]
with_tokens-Tokened decimal (c ∷ cs) (t ∷ ts) (d ∷ ds) h =
    elim (Result-cases (with_tokens decimal cs ts)) [
      | inl (rest, e) ↦ (ground arith, with_tokens-Tokened decimal cs ts ds (ground arith))
      | inr (x, e) ↦ absurd (ground arith)
    ]

-- Each row gets the token of its position, and keeps everything else.
pub with_tokens-ok :
    (decimal : ℕ → String) (cs : List Credential) (ts : List ℕ) (out : List Credential)
    → with_tokens decimal cs ts ≡ ok out
    → (length out ≡ length cs) × (map (λ c. c.id) out ≡ map (λ c. c.id) cs)
unfolding with_tokens
with_tokens-ok decimal [] ts out h = ground arith
with_tokens-ok decimal (c ∷ cs) [] out h = ground arith
with_tokens-ok decimal (c ∷ cs) (t ∷ ts) out h = elim (Result-cases (with_tokens decimal cs ts)) [
  | inl (rest, e) ↦ ground (arith, with_tokens-ok decimal cs ts rest)
  | inr (x, e) ↦ absurd (ground arith)
]

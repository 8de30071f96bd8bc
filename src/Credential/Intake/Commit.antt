-- ===== src/Credential/Intake/Commit.antt =====
-- What issueCommit of feature/credential/credential_service.go stored and asked of the contract.
use cred_chain_golang.Base.{
  ◌≡◌, refl, ℕ, String, List, [], ◌∷◌, map, Option, arith, slice_to_map, Aligned, inl, inr,
}
use cred_chain_golang.Domain.Clock.{Time}
use cred_chain_golang.Domain.Fault.{ok, issue_blockchain_sync_failed}
use cred_chain_golang.Domain.User.{User, wallet_from_user}
use cred_chain_golang.Domain.Credential.{Credential}
use cred_chain_golang.Effect.{Backend, World, each, transaction}
use cred_chain_golang.Effect.Laws.{Result-cases, transaction-ok}
use cred_chain_golang.Credential.Ports.{CredentialService, NotificationType, ChainIssuance}
use cred_chain_golang.Credential.Notify.{
  record_lifecycle_notifications, record_lifecycle_notifications-frame,
}
use cred_chain_golang.Credential.Mint.{mint_credentials, issuance_of}
use cred_chain_golang.Credential.Mint.Outcome.{
  mint-ok, IsIssued, issuances-Aligned, Tokened, with_tokens-Tokened,
}
use cred_chain_golang.Credential.Intake.{issue_body, issue_commit, link}

module _ {T : Backend} (s : CredentialService T) (auth : User) (now : Time) where
  link-chain :
      (id : String) (ids : List String) (w : World T) → (link s auth now id ids w).1.chain ≡ w.chain
  link-chain id [] w = refl
  link-chain id (c ∷ cs) w = refl

  links-chain :
      (ids : String → List String) (cs : List Credential) (w : World T)
      → (each (λ c. link s auth now c.id (ids c.id)) cs w).1.chain ≡ w.chain
  unfolding each
  links-chain ids [] w = refl
  links-chain ids (c ∷ cs) w =
      let v = (link s auth now c.id (ids c.id) w).1 in
      elim (Result-cases (link s auth now c.id (ids c.id) w).0) [
        | inr (e, q) ↦ ground (arith, link-chain c.id (ids c.id) w)
        | inl (a, q) ↦ ground (arith, link-chain c.id (ids c.id) w, links-chain ids cs v)
      ]

  abbrev at_mint : World T → List Credential → List Credential → World T
  at_mint w creds stored =
      (record_lifecycle_notifications s stored NotificationType.registered
        (record w { db = (s.repo.store creds w.db).1 })).1

  issue_body-mints :
      (creds cs : List Credential) (ids : String → List String) (holders : String → Option User)
      (committed : T.Db) (w w' : World T)
      → issue_body s auth now creds ids holders committed w ≡ (ok cs, w')
      → (stored : List Credential) × (v : World T) × ((s.repo.store creds w.db).0 ≡ ok stored)
        × (mint_credentials s
              (wallet_from_user auth)
              stored
              holders
              issue_blockchain_sync_failed
              (at_mint w creds stored)
            ≡ (ok cs, v))
        × (each (λ c. link s auth now c.id (ids c.id)) cs v ≡ (ok tt, w'))
  unfolding issue_body
  issue_body-mints creds cs ids holders committed w w' h =
      elim (Result-cases (s.repo.store creds w.db).0) [
        | inr (e, f) ↦ absurd (ground arith)
        | inl (stored, f) ↦
            let m =
              mint_credentials s (wallet_from_user auth) stored holders issue_blockchain_sync_failed
                (at_mint w creds stored) in
            elim (Result-cases m.0) [
              | inr (e, g) ↦ absurd (ground arith)
              | inl (minted, g) ↦
                  let same : minted ≡ cs = ground arith in
                  (stored, m.1, f, ground arith, ground arith)
            ]
      ]

  -- The rows that were stored, and the tokens that the contract gave them.
  pub record IsCommit (creds cs : List Credential) (w w' : World T) : Type 0 where
    pub owners : List User
    pub stored : List Credential
    pub issuances : List ChainIssuance
    pub tokens : List ℕ
    pub known : s.find_users (map (λ c. c.holder_user_id) creds) w.db ≡ ok owners
    pub written : (s.repo.store creds w.db).0 ≡ ok stored
    pub asked : Aligned (IsIssued (slice_to_map (λ h. h.id) (λ h. h) owners)) stored issuances
    pub issued :
        s.registry.issue_credentials (wallet_from_user auth) issuances w.chain
        ≡ (ok tokens, w'.chain)
    pub tokened : Tokened s.decimal stored tokens cs

  commit-run :
      (creds cs : List Credential) (ids : String → List String) (w w' : World T)
      → issue_commit s auth now creds ids w ≡ (ok cs, w')
      → (owners : List User) × (s.find_users (map (λ c. c.holder_user_id) creds) w.db ≡ ok owners)
        × (transaction s.begin s.commit
              (issue_body s auth now creds ids (slice_to_map (λ h. h.id) (λ h. h) owners))
              w
            ≡ (ok cs, w'))
  unfolding issue_commit
  commit-run creds cs ids w w' h =
      elim (Result-cases (s.find_users (map (λ c. c.holder_user_id) creds) w.db)) [
        | inr (e, q) ↦ absurd (ground arith)
        | inl (owners, q) ↦ (owners, q, ground arith)
      ]

  pub issue_commit-IsCommit :
      (creds cs : List Credential) (ids : String → List String) (w w' : World T)
      → issue_commit s auth now creds ids w ≡ (ok cs, w')
      → IsCommit creds cs w w'
  issue_commit-IsCommit creds cs ids w w' h =
      let (owners, known, run) = commit-run creds cs ids w w' h in
      let holders = slice_to_map (λ h. h.id) (λ h. h) owners in
      let body =
        (transaction-ok s.begin s.commit (issue_body s auth now creds ids holders) w w' cs run).0 in
      let (stored, v, written, mint, linked) =
        issue_body-mints creds cs ids holders w.db w w' body in
      let (tokens, issued, tokened) =
        mint-ok s (wallet_from_user auth) stored holders issue_blockchain_sync_failed
          (at_mint w creds stored) v cs mint in
      let frame =
        record_lifecycle_notifications-frame s stored NotificationType.registered
          (record w { db = (s.repo.store creds w.db).1 }) in
      let kept = links-chain ids cs v in
      record {
        owners = owners;
        stored = stored;
        issuances = map (issuance_of holders) stored;
        tokens = tokens;
        known = known;
        written = written;
        asked = issuances-Aligned holders stored;
        issued = ground arith;
        tokened = with_tokens-Tokened s.decimal stored tokens cs tokened;
      }

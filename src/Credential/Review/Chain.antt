-- ===== src/Credential/Review/Chain.antt =====
-- What Approve asks of the registry contract, and what stays on chain when the approval fails later.
use cred_chain_golang.Base.{
  Aligned, some, ◌∙◌, ◌≡◌, ℕ, String, List, map, Option, arith, slice_to_map, sym, ap,
}
use cred_chain_golang.Domain.Clock.{Time}
use cred_chain_golang.Domain.Fault.{
  review_not_found, Error, Result, ok, review_blockchain_sync_failed, err,
}
use cred_chain_golang.Domain.User.{User, wallet_from_user}
use cred_chain_golang.Domain.Credential.{Credential, empty_credential}
use cred_chain_golang.Effect.{check_all, Backend, World}
use cred_chain_golang.Credential.Ports.{CredentialService, NotificationType, ChainIssuance}
use cred_chain_golang.Credential.Notify.{
  record_lifecycle_notifications, record_lifecycle_notifications-frame,
}
use cred_chain_golang.Credential.Guards.{require_found, approve_guard}
use cred_chain_golang.Credential.Mint.{mint_credentials, issuance_of}
use cred_chain_golang.Credential.Mint.Outcome.{
  mint-ok, mint-chain, IsIssued, issuances-Aligned, Tokened, with_tokens-Tokened,
}
use cred_chain_golang.Credential.Review.{approve_body, approve, approval_of}
use cred_chain_golang.Credential.Review.Approve.{
  review_includes, approve-body, approve-err_db, approve-frame,
}

abbrev pub by_id : List User → String → Option User
by_id = slice_to_map (λ h. h.id) (λ h. h)

module _ {T : Backend} (s : CredentialService T) (auth : User) (now : Time)
    (ids : List String) where
  -- The world in which the mint is made.
  abbrev at_mint : World T → List Credential → World T
  at_mint w targets =
      (record_lifecycle_notifications s targets NotificationType.approved
        (record w { db = (s.repo.update (map (approval_of auth now) targets) w.db).1 })).1

  approve_body-mints :
      (committed : T.Db) (w w' : World T) (cs : List Credential)
      → approve_body s auth now ids committed w ≡ (ok cs, w')
      → (targets : List Credential) × (holders : List User) × (updated : List Credential)
        × (s.repo.find_by_ids ids review_includes w.db ≡ ok targets)
        × (s.find_users (map (λ c. c.holder_user_id) targets) committed ≡ ok holders)
        × ((s.repo.update (map (approval_of auth now) targets) w.db).0 ≡ ok updated)
        × (mint_credentials s
              (wallet_from_user auth)
              updated
              (by_id holders)
              review_blockchain_sync_failed
              (at_mint w targets)
            ≡ (ok cs, w'))
  unfolding approve_body
  approve_body-mints committed w w' cs h = ground arith

  -- What an approval did between a world and another, with the rows that it gives.
  pub record IsMint (w w' : World T) (cs : List Credential) : Type 0 where
    pub targets : List Credential
    pub holders : List User
    pub updated : List Credential
    pub issuances : List ChainIssuance
    pub tokens : List ℕ
    pub found : s.repo.find_by_ids ids review_includes w.db ≡ ok targets
    pub known : s.find_users (map (λ c. c.holder_user_id) targets) w.db ≡ ok holders
    pub written :
        (s.repo.update
          (map
            (λ t. record empty_credential {
              id = t.id;
              activated_at = some now;
              issuer_user_id = some auth.id;
              extract_enqueued_at = some now;
            })
            targets)
          w.db).0
        ≡ ok updated
    pub asked : Aligned (IsIssued (by_id holders)) updated issuances
    pub issued :
        s.registry.issue_credentials (wallet_from_user auth) issuances w.chain
        ≡ (ok tokens, w'.chain)
    pub tokened : Tokened s.decimal updated tokens cs

  -- An approval that succeeds activated the rows that it found, by the caller at `now`, and called the
  -- contract once, signed with the wallet of the caller, with one issuance for each row that the update
  -- returned, in their order: the holder's wallet, the file hash, the row's id as the URI, its two dates
  -- and its number. The chain ends as that call left it, and the rows are returned, each with the token
  -- of its position.
  pub approve-mints :
      (w w' : World T) (cs : List Credential)
      → approve s auth now ids w ≡ (ok cs, w')
      → IsMint w w' cs
  unfolding approval_of
  approve-mints w w' cs h =
      let (v, run, db_same, chain_same) = approve-body s auth now ids w w' cs h in
      let (targets, holders, updated, found, known, written, mint) =
        approve_body-mints w.db w v cs run in
      let (tokens, issued, tokened) =
        mint-ok s (wallet_from_user auth) updated (by_id holders) review_blockchain_sync_failed
          (at_mint w targets) v cs mint in
      let frame =
        record_lifecycle_notifications-frame s targets NotificationType.approved
          (record w { db = (s.repo.update (map (approval_of auth now) targets) w.db).1 }) in
      record {
        targets = targets;
        holders = holders;
        updated = updated;
        issuances = map (issuance_of (by_id holders)) updated;
        tokens = tokens;
        found = found;
        known = known;
        written = written;
        asked = issuances-Aligned (by_id holders) updated;
        issued = ground arith;
        tokened = with_tokens-Tokened s.decimal updated tokens cs tokened;
      }

  approve_body-chain :
      (committed : T.Db) (w : World T) (targets updated : List Credential) (holders : List User)
      (tokens : List ℕ) (c : T.Chain)
      → s.repo.find_by_ids ids review_includes w.db ≡ ok targets
      → require_found review_not_found ids targets ≡ ok tt
      → check_all (approve_guard now) targets ≡ ok tt
      → s.find_users (map (λ c. c.holder_user_id) targets) committed ≡ ok holders
      → (s.repo.update (map (approval_of auth now) targets) w.db).0 ≡ ok updated
      → (record_lifecycle_notifications s targets NotificationType.approved
          (record w { db = (s.repo.update (map (approval_of auth now) targets) w.db).1 })).0
        ≡ ok tt
      → s.registry.issue_credentials
          (wallet_from_user auth)
          (map (issuance_of (by_id holders)) updated)
          w.chain
        ≡ (ok tokens, c)
      → (approve_body s auth now ids committed w).1.chain ≡ c
  unfolding approve_body
  approve_body-chain committed w targets updated holders tokens c f r g u p n i = ground (
    arith,
    record_lifecycle_notifications-frame s targets NotificationType.approved
        (record w { db = (s.repo.update (map (approval_of auth now) targets) w.db).1 }),
    mint-chain s (wallet_from_user auth) updated (by_id holders) review_blockchain_sync_failed
        (at_mint w targets) (at_mint w targets) tokens c,
  )

  -- Two stores, one transaction: where the transaction begins, the checks pass, the holders are
  -- found, the rows are updated, the notifications are recorded and the contract accepts the mint,
  -- an approval that fails afterwards (a token list that is too short, a row that has no file, the
  -- token update, a job, the commit) leaves the database as it was and the tokens minted on chain.
  pub approve_orphans_mint :
      (w w' : World T) (targets updated : List Credential) (holders : List User) (tokens : List ℕ)
      (c : T.Chain) (e : Error)
      → s.begin w.db ≡ ok tt
      → s.repo.find_by_ids ids review_includes w.db ≡ ok targets
      → require_found review_not_found ids targets ≡ ok tt
      → check_all (approve_guard now) targets ≡ ok tt
      → s.find_users (map (λ c. c.holder_user_id) targets) w.db ≡ ok holders
      → (s.repo.update (map (approval_of auth now) targets) w.db).0 ≡ ok updated
      → (record_lifecycle_notifications s targets NotificationType.approved
          (record w { db = (s.repo.update (map (approval_of auth now) targets) w.db).1 })).0
        ≡ ok tt
      → s.registry.issue_credentials
          (wallet_from_user auth)
          (map (issuance_of (by_id holders)) updated)
          w.chain
        ≡ (ok tokens, c)
      → approve s auth now ids w ≡ (err e, w')
      → (w'.db ≡ w.db) × (w'.chain ≡ c)
  approve_orphans_mint w w' targets updated holders tokens c e b f r g u p n i h = (
    approve-err_db s auth now ids w w' e h,
    sym (ap (λ (p : Result (List Credential) × World T). p.1.chain) h)
        ∙ approve-frame s auth now ids w b
        ∙ approve_body-chain w.db w targets updated holders tokens c f r g u p n i,
  )

-- ===== src/Credential/Review/Revoke.antt =====
-- What Revoke guarantees, feature/credential/credential_service.go.
use cred_chain_golang.Base.{
  some, Aligned, map-Aligned, Filtered, Filtered-out, refl, ◌≡◌, ◌∙◌, ap, ℕ, String, List, map, All,
  Option, arith, contains, slice_to_map, true, false, ◌∷◌, ◌≢◌, [], none, inl, inr, sym,
}
use mathlib.Core.Path.{subst, subst₂}
use cred_chain_golang.Domain.Clock.{Time}
use cred_chain_golang.Domain.Fault.{
  Error, ok, err, revoke_not_found, revoke_already_revoked, revoke_not_approved,
}
use cred_chain_golang.Domain.User.{User, wallet_from_user}
use cred_chain_golang.Domain.Credential.{Credential, CredentialStatus, status, empty_credential}
use cred_chain_golang.Effect.{Backend, World}
use cred_chain_golang.Effect.Laws.{transaction_then-ok, transaction_then-err, Result-cases}
use cred_chain_golang.Credential.Ports.{CredentialService, NotificationType}
use cred_chain_golang.Credential.Notify.{
  mail_tail-ok, mail_tail_never_fails, record_lifecycle_notifications-frame,
  record_lifecycle_notifications,
}
use cred_chain_golang.Credential.Guards.{
  ids_of, require_found, revoke_guard, refuse_where, is_revoked, is_not_approved,
}
use cred_chain_golang.Credential.Guards.Meaning.{refuse_where-ok, require_found-ok}
use cred_chain_golang.Credential.Mint.{parse_tokens, sync_blockchain_revoke}
use cred_chain_golang.Credential.Review.{
  CredentialRevocation, revoke_body, revoke, revocation_of, token_ids_of, forget_verdicts,
}

abbrev pub requested : List CredentialRevocation → List String
requested = map (λ r. r.id)

abbrev pub reason_map : List CredentialRevocation → String → Option (Option String)
reason_map = slice_to_map (λ r. r.id) (λ r. r.reason)

-- Activated, not rejected, and not revoked before.
pub record IsRevocable (now : Time) (t : Credential) : Type 0 where
  pub not_revoked : status now t ≢ CredentialStatus.revoked
  pub activated : t.activated_at ≢ none
  pub not_rejected : t.rejected_at ≡ none

IsRevocable-of_tests :
    (now : Time) (t : Credential)
    → is_revoked now t ≡ false
    → is_not_approved t ≡ false
    → IsRevocable now t
IsRevocable-of_tests now t h k = record {
  not_revoked = λ e. ground arith;
  activated = λ e. ground arith;
  not_rejected = ground arith;
}

pub All-IsRevocable :
    (now : Time) (ts : List Credential)
    → All (λ t. is_revoked now t ≡ false) ts
    → All (λ t. is_not_approved t ≡ false) ts
    → All (IsRevocable now) ts
All-IsRevocable now [] h k = tt
All-IsRevocable now (t ∷ ts) h k =
    (IsRevocable-of_tests now t h.0 k.0, All-IsRevocable now ts h.1 k.1)

pub revoke_guard-parts :
    (now : Time) (ids : List String) (ts : List Credential)
    → revoke_guard now ids ts ≡ ok tt
    → (require_found revoke_not_found ids ts ≡ ok tt)
      × (refuse_where (is_revoked now) revoke_already_revoked ts ≡ ok tt)
      × (refuse_where is_not_approved revoke_not_approved ts ≡ ok tt)
unfolding revoke_guard
revoke_guard-parts now ids ts h = ground arith

-- The tokens of the rows that have one, in their order.
abbrev pub AreTokens : List Credential → List String → Type 0
AreTokens = Filtered (λ t. t.token_id ≡ none) (λ t k. t.token_id ≡ some k)

token_ids_of-AreTokens : (ts : List Credential) → AreTokens ts (token_ids_of ts)
unfolding token_ids_of
token_ids_of-AreTokens [] = tt
token_ids_of-AreTokens (t ∷ ts) = pick t.token_id refl (token_ids_of-AreTokens ts)
  where
    pick :
        (o : Option String)
        → t.token_id ≡ o
        → AreTokens ts (token_ids_of ts)
        → AreTokens (t ∷ ts) (token_ids_of (t ∷ ts))
    pick none e h =
        let same : token_ids_of ts ≡ token_ids_of (t ∷ ts) = ground arith in
        subst (AreTokens (t ∷ ts)) same (Filtered-out _ _ t ts (token_ids_of ts) e h)
    pick (some k) e h =
        let same : k ∷ token_ids_of ts ≡ token_ids_of (t ∷ ts) = ground arith in
        subst (AreTokens (t ∷ ts)) same (inr (e, h))

-- The partial row that revokes a target: the caller, `now` and the reason of its request.
pub record IsRevocation (auth : User) (now : Time) (reasons : String → Option (Option String))
    (t p : Credential) : Type 0 where
  pub row : p ≡ record empty_credential {
    id = t.id;
    revoked_at = some now;
    revoker_user_id = some auth.id;
    revocation_reason = p.revocation_reason;
  }
  pub reason : (r : Option String) → reasons t.id ≡ some r → p.revocation_reason ≡ r

revocation_of-IsRevocation :
    (auth : User) (now : Time) (reasons : String → Option (Option String)) (t : Credential)
    → IsRevocation auth now reasons t (revocation_of auth now reasons t)
unfolding revocation_of
revocation_of-IsRevocation auth now reasons t = record { row = refl; reason = λ r e. ground arith }

module _ {T : Backend} (s : CredentialService T) where
  -- The contract was called once with every token, or not at all where there is none.
  abbrev pub ChainRevoked : User → List String → T.Chain → T.Chain → Type 0
  ChainRevoked signer [] before after = after ≡ before
  ChainRevoked signer (t ∷ ts) before after =
      (ns : List ℕ) × Aligned (λ k n. s.parse_token k ≡ some n) (t ∷ ts) ns
      × (s.registry.revoke_credentials (wallet_from_user signer) ns before ≡ (ok tt, after))

  parse_tokens-Aligned :
      (ts : List String) (ns : List ℕ)
      → parse_tokens s ts ≡ ok ns
      → Aligned (λ k n. s.parse_token k ≡ some n) ts ns
  unfolding parse_tokens
  parse_tokens-Aligned [] [] h = tt
  parse_tokens-Aligned [] (n ∷ ns) h = absurd (ground arith)
  parse_tokens-Aligned (t ∷ ts) [] h = absurd (ground arith)
  parse_tokens-Aligned (t ∷ ts) (n ∷ ns) h = elim (Result-cases (parse_tokens s ts)) [
    | inl (rest, e) ↦ (ground arith, parse_tokens-Aligned ts ns (ground arith))
    | inr (x, e) ↦ absurd (ground arith)
  ]

  pub sync-ok :
      (signer : User) (tokens : List String) (w w' : World T)
      → sync_blockchain_revoke s (wallet_from_user signer) tokens w ≡ (ok tt, w')
      → (w'.db ≡ w.db) × ChainRevoked signer tokens w.chain w'.chain
  unfolding sync_blockchain_revoke
  sync-ok signer [] w w' h = (ground arith, ground arith)
  sync-ok signer (t ∷ ts) w w' h = elim (Result-cases (parse_tokens s (t ∷ ts))) [
    | inl (ns, e) ↦ (ground arith, (ns, parse_tokens-Aligned (t ∷ ts) ns e, ground arith))
    | inr (x, e) ↦ absurd (ground arith)
  ]

module _ {T : Backend} (s : CredentialService T) (auth : User) (now : Time)
    (rs : List CredentialRevocation) where
  abbrev pub at_sync : World T → List Credential → World T
  at_sync w targets =
      (record_lifecycle_notifications s targets NotificationType.revoked (record w {
        db = (s.repo.update (map (revocation_of auth now (reason_map rs)) targets) w.db).1;
      })).1

  pub revoke_body-ok :
      (committed : T.Db) (w w' : World T) (out : List Credential × List String)
      → revoke_body s auth now rs committed w ≡ (ok out, w')
      → (targets : List Credential) × (s.repo.find_by_ids (requested rs) [] w.db ≡ ok targets)
        × (revoke_guard now (requested rs) targets ≡ ok tt)
        × ((s.repo.update (map (revocation_of auth now (reason_map rs)) targets) w.db).0 ≡ ok out.0)
        × (sync_blockchain_revoke s
              (wallet_from_user auth)
              (token_ids_of targets)
              (at_sync w targets)
            ≡ (ok tt, w'))
  unfolding revoke_body
  revoke_body-ok committed w w' out h = ground arith

  pub forget-frame :
      (hashes : List String) (v : World T)
      → ((forget_verdicts s auth now hashes v).0 ≡ ok tt)
        × ((forget_verdicts s auth now hashes v).1.db ≡ v.db)
        × ((forget_verdicts s auth now hashes v).1.chain ≡ v.chain)
  forget-frame [] v = (refl, refl, refl)
  forget-frame (h ∷ hs) v = (refl, refl, refl)

  -- What a revocation found, wrote and asked of the contract.
  pub record IsRevoke (w w' : World T) (cs : List Credential) : Type 0 where
    pub targets : List Credential
    pub patches : List Credential
    pub tokens : List String
    pub found : s.repo.find_by_ids (requested rs) [] w.db ≡ ok targets
    pub present : All (λ id. contains (ids_of targets) id ≡ true) (requested rs)
    pub revocable : All (IsRevocable now) targets
    pub stamped : Aligned (IsRevocation auth now (reason_map rs)) targets patches
    pub written : (s.repo.update patches w.db).0 ≡ ok cs
    pub named : AreTokens targets tokens
    pub revoked : ChainRevoked s auth tokens w.chain w'.chain

  -- A revocation that succeeds found a row for every requested id; each row that it found was
  -- activated, neither rejected nor revoked; the rows that it returns are those of one update,
  -- which stamps each target with the caller, `now` and its own reason; and the contract was
  -- called once, signed with the caller's wallet, with the number of the token of every target that
  -- has one, in their order, or, where none has one, not at all.
  pub revoke-ok :
      (w w' : World T) (cs : List Credential)
      → revoke s auth now rs w ≡ (ok cs, w')
      → IsRevoke w w' cs
  unfolding revoke
  revoke-ok w w' cs h =
      let (a, v, run, rest) =
        transaction_then-ok s.begin s.commit (revoke_body s auth now rs) _ w w' cs h in
      let (targets, found, checked, written, synced) = revoke_body-ok w.db w v a run in
      let (present, fresh, live) = revoke_guard-parts now (requested rs) targets checked in
      let forget = forget-frame a.1 v in
      let v' = (forget_verdicts s auth now a.1 v).1 in
      let same =
        mail_tail-ok s now NotificationType.revoked a.0 a.0 cs v' w' (ground (arith, forget)) in
      let chained = sync-ok s auth (token_ids_of targets) (at_sync w targets) v synced in
      let before : (at_sync w targets).chain ≡ w.chain =
        (record_lifecycle_notifications-frame s targets NotificationType.revoked (record w {
          db = (s.repo.update (map (revocation_of auth now (reason_map rs)) targets) w.db).1;
        })).0 in
      let after : v.chain ≡ w'.chain = sym forget.2 ∙ sym same.2 in
      record {
        targets = targets;
        patches = map (revocation_of auth now (reason_map rs)) targets;
        tokens = token_ids_of targets;
        found = found;
        present = require_found-ok revoke_not_found (requested rs) targets present;
        revocable =
            All-IsRevocable now targets
              (refuse_where-ok (is_revoked now) revoke_already_revoked targets fresh)
              (refuse_where-ok is_not_approved revoke_not_approved targets live);
        stamped =
            map-Aligned _ (revocation_of auth now (reason_map rs))
              (revocation_of-IsRevocation auth now (reason_map rs)) targets;
        written = written ∙ ap ok same.0;
        named = token_ids_of-AreTokens targets;
        revoked = subst₂ (ChainRevoked s auth (token_ids_of targets)) before after chained.1;
      }

  -- A revocation that fails leaves the database as it was.
  pub revoke-err :
      (w w' : World T) (e : Error) → revoke s auth now rs w ≡ (err e, w') → w'.db ≡ w.db
  unfolding revoke
  revoke-err w w' e h =
      transaction_then-err s.begin s.commit (revoke_body s auth now rs) _ w w' e
        (λ a v v' x k.
          mail_tail_never_fails s now NotificationType.revoked a.0 a.0
            (forget_verdicts s auth now a.1 v).1 v' x (ground (arith, forget-frame a.1 v)))
        h

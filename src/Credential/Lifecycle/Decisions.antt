-- ===== src/Credential/Lifecycle/Decisions.antt =====
-- Approve, Reject and Revoke of feature/credential/credential_service.go, whatever they return: each
-- moves the rows along their lifecycles.
use cred_chain_golang.Base.{◌∙◌, ◌≡◌, String, List, [], All-map, arith, none, inl, inr, sym, ap}
use cred_chain_golang.Credential.Guards.{is_revoked, is_not_approved}
use mathlib.Core.Path.{subst}
use cred_chain_golang.Domain.Clock.{Time}
use cred_chain_golang.Domain.Fault.{ok, revoke_already_revoked, revoke_not_approved}
use cred_chain_golang.Domain.User.{User}
use cred_chain_golang.Domain.Credential.{Credential, status}
use cred_chain_golang.Effect.{Backend, World}
use cred_chain_golang.Effect.Laws.{Result-cases, transaction_then-ok}
use cred_chain_golang.Credential.Ports.{CredentialService, NotificationType}
use cred_chain_golang.Credential.Table.{Database}
use cred_chain_golang.Credential.Notify.{mail_tail-ok}
use cred_chain_golang.Credential.Lifecycle.{here, next, Move}
use cred_chain_golang.Credential.Lifecycle.Backing.{IsBacked, Advances, same-Advances}
use cred_chain_golang.Credential.Review.{
  approve, reject, revoke, reject_body, token_ids_of, revocation_of, forget_verdicts,
}
use cred_chain_golang.Credential.Review.Revoke.{
  IsRevocable, revoke-err, revoke_body-ok, revoke_guard-parts, requested, reason_map, forget-frame,
  sync-ok, at_sync, All-IsRevocable,
}
use cred_chain_golang.Credential.Review.Reject.{reject-err}
use cred_chain_golang.Credential.Review.Approve.{approve-body, approve-err_db}
use cred_chain_golang.Credential.Lifecycle.Reviews.{
  approve_body-Advances, reject_body-Advances, reviewed-Advances, revocation_of-Stamper,
}
use cred_chain_golang.Credential.Review.{CredentialRejection, CredentialRevocation, revoke_body}
use cred_chain_golang.Credential.Guards.Meaning.{refuse_where-ok}
use cred_chain_golang.Credential.Guards.{is_revoked, is_not_approved}

IsRevocable-stamps : (now : Time) (t : Credential) → IsRevocable now t → t.revoked_at ≡ none
unfolding status
IsRevocable-stamps now t h = let n = h.not_revoked in ground arith

module _ {T : Backend} (s : CredentialService T) (view : T.Db → Database) (law : IsBacked s view)
    (auth : User) (now : Time) where
  pub approve-Advances :
      (ids : List String) (w : World T) → Advances s view law w.db (approve s auth now ids w).1.db
  approve-Advances ids w =
      let out = approve s auth now ids w in
      elim (Result-cases out.0) [
        | inl (cs, q) ↦
            let (v, run, same, chained) = approve-body s auth now ids w out.1 cs cc in
            subst (λ d. Advances s view law w.db d) (sym same)
              (approve_body-Advances s view law auth now ids w.db w v cs run)
        | inr (e, q) ↦
            same-Advances s view law w.db out.1.db
              (ap view (approve-err_db s auth now ids w out.1 e cc))
      ]

  reject-body :
      (rs : List CredentialRejection) (w w' : World T) (cs : List Credential)
      → reject s auth now rs w ≡ (ok cs, w')
      → (a : List Credential) × (v : World T) × (reject_body s auth now rs w.db w ≡ (ok a, v))
        × (w'.db ≡ v.db)
  unfolding reject
  reject-body rs w w' cs h =
      let (a, v, run, rest) =
        transaction_then-ok s.begin s.commit (reject_body s auth now rs) _ w w' cs h in
      let same = mail_tail-ok s now NotificationType.rejected a a cs v w' rest in
      (a, v, run, same.1)

  pub reject-Advances :
      (rs : List CredentialRejection) (w : World T)
      → Advances s view law w.db (reject s auth now rs w).1.db
  reject-Advances rs w =
      let out = reject s auth now rs w in
      elim (Result-cases out.0) [
        | inl (cs, q) ↦
            let (a, v, run, same) = reject-body rs w out.1 cs cc in
            subst (λ d. Advances s view law w.db d) (sym same)
              (reject_body-Advances s view law auth now rs w.db w v a run)
        | inr (e, q) ↦
            same-Advances s view law w.db out.1.db (ap view (reject-err s auth now rs w out.1 e cc))
      ]

  revoke-body :
      (rs : List CredentialRevocation) (w w' : World T) (cs : List Credential)
      → revoke s auth now rs w ≡ (ok cs, w')
      → (a : List Credential × List String) × (v : World T) × (revoke_body s auth now rs w.db w
          ≡ (ok a, v))
        × (w'.db ≡ v.db)
  unfolding revoke
  revoke-body rs w w' cs h =
      let (a, v, run, rest) =
        transaction_then-ok s.begin s.commit (revoke_body s auth now rs) _ w w' cs h in
      let forget = forget-frame s auth now rs a.1 v in
      let v' = (forget_verdicts s auth now a.1 v).1 in
      let same =
        mail_tail-ok s now NotificationType.revoked a.0 a.0 cs v' w' (ground (arith, forget)) in
      (a, v, run, same.1 ∙ forget.1)

  revoke_body-Advances :
      (rs : List CredentialRevocation) (w v : World T) (a : List Credential × List String)
      → revoke_body s auth now rs w.db w ≡ (ok a, v)
      → Advances s view law w.db v.db
  revoke_body-Advances rs w v a run =
      let (targets, found, checked, written, synced) =
        revoke_body-ok s auth now rs w.db w v a run in
      let (present, fresh, live) = revoke_guard-parts now (requested rs) targets checked in
      let chained =
        sync-ok s auth (token_ids_of targets) (at_sync s auth now rs w targets) v synced in
      subst (λ d. Advances s view law w.db d) (sym chained.0)
        (reviewed-Advances s view law _ (revocation_of auth now (reason_map rs)) (requested rs) []
          targets NotificationType.revoked w (revocation_of-Stamper auth now (reason_map rs)) found
          (All-map
            (λ t r.
              next here (Move.revoke now r.activated r.not_rejected (IsRevocable-stamps now t r)))
            targets
            (All-IsRevocable now targets
              (refuse_where-ok (is_revoked now) revoke_already_revoked targets fresh)
              (refuse_where-ok is_not_approved revoke_not_approved targets live))))

  pub revoke-Advances :
      (rs : List CredentialRevocation) (w : World T)
      → Advances s view law w.db (revoke s auth now rs w).1.db
  revoke-Advances rs w =
      let out = revoke s auth now rs w in
      elim (Result-cases out.0) [
        | inl (cs, q) ↦
            let (a, v, run, same) = revoke-body rs w out.1 cs cc in
            subst (λ d. Advances s view law w.db d) (sym same) (revoke_body-Advances rs w v a run)
        | inr (e, q) ↦
            same-Advances s view law w.db out.1.db (ap view (revoke-err s auth now rs w out.1 e cc))
      ]

-- ===== src/Credential/Review/Reject.antt =====
-- What Reject guarantees, feature/credential/credential_service.go.
use cred_chain_golang.Base.{
  ◌≡◌, String, List, map, All, Option, arith, contains, slice_to_map, true, [], ◌∙◌, ap,
}
use cred_chain_golang.Domain.Clock.{Time}
use cred_chain_golang.Domain.Fault.{Error, ok, err, review_not_found}
use cred_chain_golang.Domain.User.{User}
use cred_chain_golang.Domain.Credential.{Credential, CredentialStatus, status}
use cred_chain_golang.Effect.{Backend, World, check_all}
use cred_chain_golang.Effect.Laws.{transaction_then-ok, transaction_then-err}
use cred_chain_golang.Credential.Ports.{CredentialService, NotificationType}
use cred_chain_golang.Credential.Notify.{
  mail_tail-ok, mail_tail_never_fails, record_lifecycle_notifications,
}
use cred_chain_golang.Credential.Guards.{ids_of, require_found, review_status_guard}
use cred_chain_golang.Credential.Guards.Meaning.{All-pending, require_found-ok}
use cred_chain_golang.Credential.Review.{CredentialRejection, reject_body, reject, rejection_of}

abbrev requested : List CredentialRejection → List String
requested = map (λ r. r.id)

abbrev reason_by_id : List CredentialRejection → String → Option String
reason_by_id = slice_to_map (λ r. r.id) (λ r. r.reason)

module _ {T : Backend} (s : CredentialService T) (auth : User) (now : Time)
    (rs : List CredentialRejection) where
  reject_body-ok :
      (committed : T.Db) (w w' : World T) (cs : List Credential)
      → reject_body s auth now rs committed w ≡ (ok cs, w')
      → (targets : List Credential) × (s.repo.find_by_ids (requested rs) [] w.db ≡ ok targets)
        × (require_found review_not_found (requested rs) targets ≡ ok tt)
        × (check_all (review_status_guard now) targets ≡ ok tt)
        × ((s.repo.update (map (rejection_of auth now (reason_by_id rs)) targets) w.db).0 ≡ ok cs)
  unfolding reject_body
  reject_body-ok committed w w' cs h = ground arith

  reject_body-chain :
      (committed : T.Db) (w : World T) → (reject_body s auth now rs committed w).1.chain ≡ w.chain
  unfolding reject_body record_lifecycle_notifications
  reject_body-chain committed w = ground arith

  -- A rejection that succeeds found a row for every requested id; each row that it found was pending
  -- at `now`; the rows that it returns are those of one update, which stamps each target with the
  -- caller, `now` and its own reason; and the chain is as it was.
  pub reject-ok :
      (w w' : World T) (cs : List Credential)
      → reject s auth now rs w ≡ (ok cs, w')
      → (targets : List Credential) × (s.repo.find_by_ids (requested rs) [] w.db ≡ ok targets)
        × All (λ id. contains (ids_of targets) id ≡ true) (requested rs)
        × All (λ t. status now t ≡ CredentialStatus.pending) targets
        × ((s.repo.update (map (rejection_of auth now (reason_by_id rs)) targets) w.db).0 ≡ ok cs)
        × (w'.chain ≡ w.chain)
  unfolding reject
  reject-ok w w' cs h =
      let (a, v, run, rest) =
        transaction_then-ok s.begin s.commit (reject_body s auth now rs) _ w w' cs h in
      let same = mail_tail-ok s now NotificationType.rejected a a cs v w' rest in
      let (targets, found, present, checked, written) = reject_body-ok w.db w v a run in
      (
        targets,
        found,
        require_found-ok review_not_found (requested rs) targets present,
        All-pending now targets checked,
        written ∙ ap ok same.0,
        ground (arith, reject_body-chain w.db w),
      )

  -- A rejection that fails leaves the database as it was.
  pub reject-err :
      (w w' : World T) (e : Error) → reject s auth now rs w ≡ (err e, w') → w'.db ≡ w.db
  unfolding reject
  reject-err w w' e h =
      transaction_then-err s.begin s.commit (reject_body s auth now rs) _ w w' e
        (λ a v v' x. mail_tail_never_fails s now NotificationType.rejected a a v v' x) h

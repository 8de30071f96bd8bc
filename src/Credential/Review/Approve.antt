-- ===== src/Credential/Review/Approve.antt =====
-- What Approve guarantees, feature/credential/credential_service.go.
use cred_chain_golang.Base.{◌∙◌, ◌≡◌, String, List, [], ◌∷◌, All, arith, contains, true, ap}
use cred_chain_golang.Domain.Clock.{Time}
use cred_chain_golang.Domain.Fault.{Error, ok, err, review_not_found}
use cred_chain_golang.Domain.User.{User}
use cred_chain_golang.Domain.Credential.{Credential}
use cred_chain_golang.Effect.{Backend, World, transaction, check_all}
use cred_chain_golang.Effect.Laws.{
  transaction_then-ok, transaction_then-err, bind-keeps, transaction-frame,
}
use cred_chain_golang.Credential.Ports.{CredentialService, NotificationType}
use cred_chain_golang.Credential.Notify.{mail_tail-ok, mail_tail_never_fails, mail_tail-chain}
use cred_chain_golang.Credential.Guards.{ids_of, require_found, approve_guard}
use cred_chain_golang.Credential.Guards.Meaning.{IsApprovable, All-IsApprovable, require_found-ok}
use cred_chain_golang.Credential.Review.{approve_body, approve}

abbrev pub review_includes : List String
review_includes = "type" ∷ "issuer_organization" ∷ "competencies" ∷ []

module _ {T : Backend} (s : CredentialService T) (auth : User) (now : Time)
    (ids : List String) where
  approve_body-ok :
      (committed : T.Db) (w w' : World T) (cs : List Credential)
      → approve_body s auth now ids committed w ≡ (ok cs, w')
      → (targets : List Credential) × (s.repo.find_by_ids ids review_includes w.db ≡ ok targets)
        × (require_found review_not_found ids targets ≡ ok tt)
        × (check_all (approve_guard now) targets ≡ ok tt)
  unfolding approve_body
  approve_body-ok committed w w' cs h = ground arith

  pub approve-body :
      (w w' : World T) (cs : List Credential)
      → approve s auth now ids w ≡ (ok cs, w')
      → (v : World T) × (approve_body s auth now ids w.db w ≡ (ok cs, v))
        × (w'.db ≡ v.db)
        × (w'.chain ≡ v.chain)
  unfolding approve
  approve-body w w' cs h =
      let (a, v, run, rest) =
        transaction_then-ok s.begin s.commit (approve_body s auth now ids) _ w w' cs h in
      let same = mail_tail-ok s now NotificationType.approved a a cs v w' rest in
      (v, run ∙ ap (λ z. (ok z, v)) same.0, same.1, same.2)

  -- An approval that succeeds found a row for every requested id, and each of the rows that it found
  -- was pending at `now`, with a type, an issuer organization and competencies that are all present,
  -- active and approved.
  pub approve-ok :
      (w w' : World T) (cs : List Credential)
      → approve s auth now ids w ≡ (ok cs, w')
      → (targets : List Credential) × (s.repo.find_by_ids ids review_includes w.db ≡ ok targets)
        × All (λ id. contains (ids_of targets) id ≡ true) ids
        × All (IsApprovable now) targets
  approve-ok w w' cs h =
      let b = approve-body w w' cs h in
      let (targets, found, present, checked) = approve_body-ok w.db w b.0 cs b.1 in
      (
        targets,
        found,
        require_found-ok review_not_found ids targets present,
        All-IsApprovable now targets checked,
      )

  -- An approval that fails leaves the database as it was.
  pub approve-err_db :
      (w w' : World T) (e : Error) → approve s auth now ids w ≡ (err e, w') → w'.db ≡ w.db
  unfolding approve
  approve-err_db w w' e h =
      transaction_then-err s.begin s.commit (approve_body s auth now ids) _ w w' e
        (λ a v v' x. mail_tail_never_fails s now NotificationType.approved a a v v' x) h

  -- Behind the transaction the approval changes nothing but the queue.
  pub approve-frame :
      (w : World T)
      → s.begin w.db ≡ ok tt
      → (approve s auth now ids w).1.chain ≡ (approve_body s auth now ids w.db w).1.chain
  unfolding approve
  approve-frame w h =
      bind-keeps (λ v. v.chain) (transaction s.begin s.commit (approve_body s auth now ids)) _ w
        (λ a v. mail_tail-chain s now NotificationType.approved a a v)
      ∙ (transaction-frame s.begin s.commit (approve_body s auth now ids) w h).0

  -- An approval that begins its transaction and finds a row for every requested id, but whose rows
  -- do not pass the checks, fails with the error of the checks, and changes nothing at all: no
  -- row, no call of the contract, no job.
  pub approve_refused :
      (w : World T) (targets : List Credential) (e : Error)
      → s.begin w.db ≡ ok tt
      → s.repo.find_by_ids ids review_includes w.db ≡ ok targets
      → require_found review_not_found ids targets ≡ ok tt
      → check_all (approve_guard now) targets ≡ err e
      → approve s auth now ids w ≡ (err e, w)
  unfolding approve transaction approve_body
  approve_refused w targets e b f r c = ground arith

-- ===== src/Credential/Maintain/Extraction.antt =====
-- ReExtract of feature/credential/credential_service.go: what it restarts, and what a failed enqueue
-- leaves behind.
use mathlib.Core.Path.{subst}
use cred_chain_golang.Base.{
  refl, sym, none, Option, inl, inr, All-map, ◌≡◌, ◌∙◌, String, List, [], ◌∷◌, All, some, arith,
  true, false, contains, is_none,
}
use cred_chain_golang.Domain.Clock.{Time}
use cred_chain_golang.Domain.Fault.{raw, ok, err, re_extract_not_found, re_extract_not_eligible}
use cred_chain_golang.Domain.Credential.{empty_credential, Credential, ExtractState, extract_state}
use cred_chain_golang.Effect.{Backend, World, transaction, each, on_queue, on_error}
use cred_chain_golang.Effect.Laws.{
  Result-cases, on_error-ok, transaction-ok, bind-ok, bind_of_ok, bind_of_err,
}
use cred_chain_golang.Credential.Ports.{CredentialService}
use cred_chain_golang.Credential.Guards.{
  ids_of, require_found, re_extract_validate, refuse_where, is_not_failed,
}
use cred_chain_golang.Credential.Guards.Meaning.{require_found-ok, refuse_where-ok}
use cred_chain_golang.Credential.Maintain.{
  re_extract, re_extract_body, enqueue_again, compensate, failed_row,
}

-- A row whose extraction failed and that has a file.
pub record IsRetryable (t : Credential) : Type 0 where
  pub failed : extract_state t ≡ ExtractState.failed
  pub has_file : is_none t.file_uri ≡ false

is_not_failed-IsRetryable : (t : Credential) → is_not_failed t ≡ false → IsRetryable t
is_not_failed-IsRetryable t h = record { failed = ground arith; has_file = ground arith }

validate_parts :
    (ids : List String) (ts : List Credential)
    → re_extract_validate ids ts ≡ ok tt
    → (require_found re_extract_not_found ids ts ≡ ok tt)
      × (refuse_where is_not_failed re_extract_not_eligible ts ≡ ok tt)
unfolding re_extract_validate
validate_parts ids ts h = ground arith

module _ {T : Backend} (s : CredentialService T) (now later : Time) (ids : List String) where
  re_extract_body-ok :
      (committed : T.Db) (w v : World T) (done : List Credential × List Credential)
      → re_extract_body s now ids committed w ≡ (ok done, v)
      → (s.repo.find_by_ids ids [] w.db ≡ ok done.1)
        × (re_extract_validate ids done.1 ≡ ok tt)
        × (s.repo.clear_extract_outcome now (ids_of done.1) w.db ≡ (ok tt, v.db))
        × (s.repo.find_by_ids (ids_of done.1) [] v.db ≡ ok done.0)
        × (v.chain ≡ w.chain)
        × (v.queue ≡ w.queue)
  unfolding re_extract_body
  re_extract_body-ok committed w v done h = ground arith

  re_extract-run :
      (w w' : World T) (out : List Credential)
      → re_extract s now later ids w ≡ (ok out, w')
      → (targets : List Credential) × (v : World T) × (re_extract_body s now ids w.db w
          ≡ (ok (out, targets), v))
        × (each (enqueue_again s later) targets v ≡ (ok tt, w'))
  unfolding re_extract
  re_extract-run w w' out h =
      let m = transaction s.begin s.commit (re_extract_body s now ids) in
      let (done, run, rest) = bind-ok m _ w w' out h in
      let v = (m w).1 in
      let (u, jobs, last) = bind-ok (each (enqueue_again s later) done.1) _ v w' out rest in
      let body = (transaction-ok s.begin s.commit (re_extract_body s now ids) w v done run).0 in
      (done.1, v, ground (arith, body, last), ground (arith, jobs, last))

  -- The queue took a job for each row in turn, with the path of the row's file.
  abbrev pub Enqueued : List Credential → T.Queue → T.Queue → Type 0
  Enqueued [] before after = after ≡ before
  Enqueued (t ∷ ts) before after =
      (uri : String) × (q : T.Queue) × (t.file_uri ≡ some uri)
      × (s.enqueuer.enqueue_extract t.id (s.storage.join_path uri) before ≡ (ok tt, q))
      × Enqueued ts q after

  one-enqueued :
      (t : Credential) (v u : World T)
      → enqueue_again s later t v ≡ (ok tt, u)
      → (uri : String) × (t.file_uri ≡ some uri)
        × (s.enqueuer.enqueue_extract t.id (s.storage.join_path uri) v.queue ≡ (ok tt, u.queue))
        × (u.db ≡ v.db)
  unfolding enqueue_again
  one-enqueued t v u h = pick t.file_uri refl
    where
      pick :
          (o : Option String)
          → t.file_uri ≡ o
          → (uri : String) × (t.file_uri ≡ some uri)
            × (s.enqueuer.enqueue_extract t.id (s.storage.join_path uri) v.queue ≡ (ok tt, u.queue))
            × (u.db ≡ v.db)
      pick none e = absurd (ground arith)
      pick (some uri) e =
          let m = on_queue (s.enqueuer.enqueue_extract t.id (s.storage.join_path uri)) in
          let run : on_error m (λ _. compensate s later t) v ≡ (ok tt, u) = ground arith in
          let done = on_error-ok m (λ _. compensate s later t) v u tt run in
          (uri, e, ground arith, ground arith)

  each-Enqueued :
      (ts : List Credential) (v w' : World T)
      → each (enqueue_again s later) ts v ≡ (ok tt, w')
      → Enqueued ts v.queue w'.queue × (w'.db ≡ v.db)
  unfolding each
  each-Enqueued [] v w' h = (ground arith, ground arith)
  each-Enqueued (t ∷ ts) v w' h = elim (Result-cases (enqueue_again s later t v).0) [
    | inr (e, q) ↦ absurd (ground arith)
    | inl (a, q) ↦
        let u = (enqueue_again s later t v).1 in
        let (uri, file, took, same) = one-enqueued t v u (ground arith) in
        let (rest, kept) = each-Enqueued ts u w' (ground arith) in
        ((uri, u.queue, file, took, rest), kept ∙ same)
  ]

  -- What a re-extraction found, cleared and enqueued.
  pub record IsReExtraction (w w' : World T) (out : List Credential) : Type 0 where
    pub targets : List Credential
    pub found : s.repo.find_by_ids ids [] w.db ≡ ok targets
    pub present : All (λ id. contains (ids_of targets) id ≡ true) ids
    pub retryable : All IsRetryable targets
    pub cleared : s.repo.clear_extract_outcome now (ids_of targets) w.db ≡ (ok tt, w'.db)
    pub read : s.repo.find_by_ids (ids_of targets) [] w'.db ≡ ok out
    pub enqueued : Enqueued targets w.queue w'.queue

  -- A re-extraction that succeeds found a row for every requested id, each of them failed and with a
  -- file; it cleared the outcome of exactly these rows, which is all that it did to the database, gives
  -- them as they then are, and enqueued one job for each of them, in their order, with the path of its
  -- file, which is all that it did to the queue.
  pub re_extract-ok :
      (w w' : World T) (out : List Credential)
      → re_extract s now later ids w ≡ (ok out, w')
      → IsReExtraction w w' out
  re_extract-ok w w' out h =
      let (targets, v, run, jobs) = re_extract-run w w' out h in
      let (found, valid, cleared, read, same, queue) =
        re_extract_body-ok w.db w v (out, targets) run in
      let parts = validate_parts ids targets valid in
      let (enqueued, kept) = each-Enqueued targets v w' jobs in
      record {
        targets = targets;
        found = found;
        present = require_found-ok re_extract_not_found ids targets parts.0;
        retryable =
            All-map is_not_failed-IsRetryable targets
              (refuse_where-ok is_not_failed re_extract_not_eligible targets parts.1);
        cleared =
            subst (λ d. s.repo.clear_extract_outcome now (ids_of targets) w.db ≡ (ok tt, d))
              (sym kept) cleared;
        read = subst (λ d. s.repo.find_by_ids (ids_of targets) [] d ≡ ok out) (sym kept) read;
        enqueued = subst (λ q. Enqueued targets q w'.queue) queue enqueued;
      }

  enqueue_again-refused :
      (v : World T) (t : Credential) (uri text : String)
      → t.file_uri ≡ some uri
      → s.enqueuer.enqueue_extract t.id (s.storage.join_path uri) v.queue
        ≡ (err (raw text), v.queue)
      → enqueue_again s later t v
        ≡ (err (raw text), record v { db = (s.repo.update (failed_row later t ∷ []) v.db).1 })
  unfolding enqueue_again compensate
  enqueue_again-refused v t uri text f q = ground arith

  each-refused :
      (v : World T) (t : Credential) (ts : List Credential) (uri text : String)
      → t.file_uri ≡ some uri
      → s.enqueuer.enqueue_extract t.id (s.storage.join_path uri) v.queue
        ≡ (err (raw text), v.queue)
      → each (enqueue_again s later) (t ∷ ts) v
        ≡ (err (raw text), record v { db = (s.repo.update (failed_row later t ∷ []) v.db).1 })
  unfolding each
  each-refused v t ts uri text f q = ground (arith, enqueue_again-refused v t uri text f q)

  -- The partial row that marks a row failed: at `later`, with the error that it had, or the text of
  -- this failure.
  pub record IsFailure (t p : Credential) : Type 0 where
    pub row : p ≡ record empty_credential {
      id = t.id;
      extract_failed_at = some later;
      extract_error = p.extract_error;
    }
    pub old_error : (text : String) → t.extract_error ≡ some text → p.extract_error ≡ some text
    pub new_error : t.extract_error ≡ none → p.extract_error ≡ some "reenqueue failed"

  failed_row-IsFailure : (t : Credential) → IsFailure t (failed_row later t)
  unfolding failed_row
  failed_row-IsFailure t = record {
    row = refl;
    old_error = λ text e. ground arith;
    new_error = λ e. ground arith;
  }

  -- A batch is not all or nothing: where the rows were cleared and committed and the queue refuses
  -- the job of the first one, by a raw error that leaves the queue as it was, the request fails
  -- with that error, and the world is the one after the commit but for that one row, which is
  -- marked failed again by one update; the rows after it stay cleared, and get no job.
  pub re_extract_strands :
      (w v : World T) (out : List Credential) (t : Credential) (ts : List Credential)
      (uri text : String)
      → transaction s.begin s.commit (re_extract_body s now ids) w ≡ (ok (out, t ∷ ts), v)
      → t.file_uri ≡ some uri
      → s.enqueuer.enqueue_extract t.id (s.storage.join_path uri) v.queue
        ≡ (err (raw text), v.queue)
      → (p : Credential) × IsFailure t p
        × (re_extract s now later ids w
            ≡ (err (raw text), record v { db = (s.repo.update (p ∷ []) v.db).1 }))
  unfolding re_extract
  re_extract_strands w v out t ts uri text h f q = (
    failed_row later t,
    failed_row-IsFailure t,
    bind_of_ok (transaction s.begin s.commit (re_extract_body s now ids)) _ w v (out, t ∷ ts) h
        ∙ bind_of_err (each (enqueue_again s later) (t ∷ ts)) _ v
            (record v { db = (s.repo.update (failed_row later t ∷ []) v.db).1 }) (raw text)
            (each-refused v t ts uri text f q),
  )

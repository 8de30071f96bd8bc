-- ===== src/Credential/Intake/Outcome.antt =====
-- What Issue and Submit leave behind, on success and on each failure.
use cred_chain_golang.Base.{
  ◌≢◌, ◌+◌, eq_iff, Aligned, none, some, ℕ, ◌≡◌, refl, sym, ap, ◌∙◌, String, List, [], ◌∷◌, map,
  All, arith, slice_to_map, inl, inr, Bool-cases, ◌==◌, Option, some,
}
use cred_chain_golang.Domain.Clock.{Time}
use cred_chain_golang.Domain.Fault.{Code, Error, domain, Result, ok, err, issue_storage_failed}
use cred_chain_golang.Domain.User.{User}
use cred_chain_golang.Domain.Credential.{Credential}
use cred_chain_golang.Effect.{Backend, World, M, on_error, each}
use cred_chain_golang.Effect.Laws.{
  Result-cases, bind-ok, bind-err, transaction-err, on_error-err, on_error-ok, bind_of_ok,
  bind_of_err,
}
use cred_chain_golang.Credential.Ports.{CredentialService, NotificationType}
use cred_chain_golang.Credential.Notify.{mail_tail-ok, mail_tail_never_fails}
use cred_chain_golang.Credential.Intake.Validate.{CredentialIssuance, issue_validate, issue_facts}
use cred_chain_golang.Credential.Intake.Prepare.{
  issue_prepare, issue_prepare_one, collect, store_file, draw, readings,
}
use cred_chain_golang.Credential.Intake.Facts.{
  NotIssued, IsAdmissible, issuable-NotIssued, issuable-IsAdmissible,
}
use Prim.Native.String
use cred_chain_golang.Credential.Intake.Sound.{AreFresh, issue_errors-nil}
use cred_chain_golang.Credential.Intake.Rows.{IsIssuance, issue_prepare-rows}
use cred_chain_golang.Credential.Intake.{
  delete_file, issue_checks, issue_commit, issue, cleanup_orphan_files, ids_by_position, issue_body,
  list_or_empty,
}
use cred_chain_golang.Credential.Intake.Commit.{IsCommit, issue_commit-IsCommit}

pub collect-keeps :
    {T : Backend} {A B X : Type 0} (view : World T → X) (f : A → M T B)
    → ((a : A) (v : World T) → view (f a v).1 ≡ view v)
    → (xs : List A) (w : World T) → view (collect f xs w).1 ≡ view w
unfolding collect
collect-keeps view f keep [] w = refl
collect-keeps view f keep (x ∷ xs) w = elim (Result-cases (f x w).0) [
  | inr (e, q) ↦ ground (arith, keep x w)
  | inl (b, q) ↦ elim (Result-cases (collect f xs (f x w).1).0) [
    | inr (e, p) ↦ ground (arith, keep x w, collect-keeps view f keep xs (f x w).1)
    | inl (bs, p) ↦ ground (arith, keep x w, collect-keeps view f keep xs (f x w).1)
  ]
]

module _ {T : Backend} (s : CredentialService T) (auth : User) (now : Time) where
  one-db : (it : CredentialIssuance) (w : World T) → (issue_prepare_one s auth it w).1.db ≡ w.db
  unfolding issue_prepare_one
  one-db it w = ground arith

  prepare-db :
      (its : List CredentialIssuance) (w : World T) → (issue_prepare s auth its w).1.db ≡ w.db
  unfolding issue_prepare
  prepare-db its w = collect-keeps (λ v. v.db) (issue_prepare_one s auth) one-db its w

  prepare_cleaned-db :
      (its : List CredentialIssuance) (w : World T)
      → (on_error (issue_prepare s auth its) (λ _. cleanup_orphan_files s auth now []) w).1.db
        ≡ w.db
  unfolding cleanup_orphan_files each
  prepare_cleaned-db its w =
      let m = issue_prepare s auth its in
      let f = λ (e : Error). cleanup_orphan_files s auth now [] in
      let out = on_error m f w in
      elim (Result-cases out.0) [
        | inl (a, q) ↦
            ap (λ (p : Result (List Credential) × World T). p.1.db)
              (sym (on_error-ok m f w out.1 a (ground arith)))
            ∙ prepare-db its w
        | inr (e, q) ↦
            let (failed, after) = on_error-err m f w out.1 e (ground arith) in
            elim after [
              | inl k ↦ ap (λ (v : World T). v.db) k ∙ prepare-db its w
              | inr k ↦ ap (λ (v : World T). v.db) k ∙ prepare-db its w
            ]
      ]

  checks-frame :
      (items : List CredentialIssuance) (w : World T) → (issue_checks s auth now items w).1 ≡ w
  unfolding issue_checks
  checks-frame items w = ground arith

  checks-ok :
      (items : List CredentialIssuance) (w w' : World T)
      → issue_checks s auth now items w ≡ (ok tt, w')
      → (holders : List User) × (statuses : List ℕ) × (s.find_users
            (map (λ it. it.holder_user_id) items)
            w.db
          ≡ ok holders)
        × (s.registry.hash_statuses (map (λ it. s.storage.keccak_hex it.file_bytes) items) w.chain
            ≡ ok statuses)
        × (issue_validate s items (map (λ h. h.id) holders) statuses w.db ≡ [])
  unfolding issue_checks
  checks-ok items w w' h = ground arith

  -- An issuance that is refused by its validation changes nothing: no file, no row, no token, no job.
  pub issue_refused :
      (items : List CredentialIssuance) (w : World T) (e : Error)
      → (issue_checks s auth now items w).0 ≡ err e
      → issue s auth now items w ≡ (err e, w)
  unfolding issue
  issue_refused items w e h = ground (arith, checks-frame items w)

  delete_file-frame :
      (o : Option String) (w : World T)
      → ((delete_file s auth now o w).0 ≡ ok tt) × ((delete_file s auth now o w).1.db ≡ w.db)
  delete_file-frame none w = (refl, refl)
  delete_file-frame (some uri) w = elim (Bool-cases (s.storage.join_path uri == "")) [
    | inl e ↦ (ground arith, ground arith)
    | inr e ↦ (ground arith, ground arith)
  ]

  pub cleanup-db :
      (cs : List Credential) (w : World T) → (cleanup_orphan_files s auth now cs w).1.db ≡ w.db
  unfolding cleanup_orphan_files each
  cleanup-db [] w = refl
  cleanup-db (c ∷ cs) w =
      ground (
        arith,
        delete_file-frame c.file_uri w,
        cleanup-db cs (delete_file s auth now c.file_uri w).1,
      )

  commit-err_db :
      (cs : List Credential) (ids : String → List String) (w w' : World T) (e : Error)
      → issue_commit s auth now cs ids w ≡ (err e, w')
      → w'.db ≡ w.db
  unfolding issue_commit
  commit-err_db cs ids w w' e h =
      elim (Result-cases (s.find_users (map (λ c. c.holder_user_id) cs) w.db)) [
        | inr (x, q) ↦ ground arith
        | inl (hs, q) ↦
            transaction-err s.begin s.commit
              (issue_body s auth now cs ids (slice_to_map (λ h. h.id) (λ h. h) hs)) w w' e
              (ground arith)
      ]

  -- A failed commit, with the clean-up of its files.
  cleaned-err_db :
      (cs : List Credential) (ids : String → List String) (w w' : World T) (e : Error)
      → on_error (issue_commit s auth now cs ids) (λ _. cleanup_orphan_files s auth now cs) w
        ≡ (err e, w')
      → w'.db ≡ w.db
  cleaned-err_db cs ids w w' e h =
      let m = issue_commit s auth now cs ids in
      let (failed, after) = on_error-err m (λ _. cleanup_orphan_files s auth now cs) w w' e h in
      let same = commit-err_db cs ids w (m w).1 e failed in
      elim after [
        | inl q ↦ ap (λ (v : World T). v.db) q ∙ same
        | inr q ↦ ap (λ (v : World T). v.db) q ∙ cleanup-db cs (m w).1 ∙ same
      ]

  abbrev pub ids_for : List Credential → List CredentialIssuance → String → List String
  ids_for creds items id =
      list_or_empty (
        slice_to_map (λ (p : String × List String). p.0) (λ p. p.1) (ids_by_position creds items)
          id)

  -- An issuance that fails, at whatever step, leaves the database as it was.
  pub issue-err_db :
      (items : List CredentialIssuance) (w w' : World T) (e : Error)
      → issue s auth now items w ≡ (err e, w')
      → w'.db ≡ w.db
  unfolding issue
  issue-err_db items w w' e h = elim (bind-err (issue_checks s auth now items) _ w w' e h) [
    | inl q ↦
        ap (λ (p : Result (Unit {0}) × World T). p.1.db) (sym q)
        ∙ ap (λ (v : World T). v.db) (checks-frame items w)
    | inr (a, q, k) ↦
        let v = (issue_checks s auth now items w).1 in
        let start : v.db ≡ w.db = ap (λ (u : World T). u.db) (checks-frame items w) in
        let prepare =
          on_error (issue_prepare s auth items) (λ _. cleanup_orphan_files s auth now []) in
        elim (bind-err prepare _ v w' e k) [
          | inl p ↦
              ap (λ (p : Result (List Credential) × World T). p.1.db) (sym p)
              ∙ prepare_cleaned-db items v
              ∙ start
          | inr (creds, p, l) ↦
              let u = (prepare v).1 in
              elim (bind-err
                (on_error (issue_commit s auth now creds (ids_for creds items))
                  (λ _. cleanup_orphan_files s auth now creds))
                _ u w' e l) [
                  | inl f ↦
                      cleaned-err_db creds (ids_for creds items) u w' e f
                      ∙ prepare_cleaned-db items v
                      ∙ start
                  | inr (cs, f, t) ↦
                      absurd
                        (mail_tail_never_fails s now NotificationType.registered cs cs _ w' e t)
                ]
        ]
  ]

  prepare_first :
      (it bad : CredentialIssuance) (its : List CredentialIssuance) (w : World T) (e : Error)
      (text ext : String) (files : T.Files)
      → s.storage.encrypt it.file_bytes ≡ ok text
      → s.storage.lower_ext it.filename ≡ ext
      → ext ≢ ""
      → s.storage.save_bytes text (s.storage.join_path (String.◌++◌ (s.ulid w.drawn) ext)) w.files
        ≡ (ok tt, files)
      → s.storage.encrypt bad.file_bytes ≡ err e
      → issue_prepare s auth (it ∷ bad ∷ its) w ≡ (
        err (domain issue_storage_failed []),
        record w { files = files; drawn = w.drawn + 1 + 1 },
      )
  unfolding issue_prepare issue_prepare_one collect store_file draw readings
  prepare_first it bad its w e text ext files a x n b c = ground (arith, eq_iff ext "")

  cleaned_nothing :
      (items : List CredentialIssuance) (w v : World T) (code : Code)
      → issue_prepare s auth items w ≡ (err (domain code []), v)
      → on_error (issue_prepare s auth items) (λ _. cleanup_orphan_files s auth now []) w
        ≡ (err (domain code []), v)
  unfolding cleanup_orphan_files each
  cleaned_nothing items w v code h = ground arith

  -- Where the checks passed, the first file was encrypted and saved, under a fresh name with the
  -- extension that it has, and the second one is refused by the cipher, the request fails, and the file
  -- store stays as that saving left it: the clean-up deletes nothing.
  pub issue_leaks_files :
      (it bad : CredentialIssuance) (its : List CredentialIssuance) (w : World T) (e : Error)
      (text ext : String) (files : T.Files)
      → issue_checks s auth now (it ∷ bad ∷ its) w ≡ (ok tt, w)
      → s.storage.encrypt it.file_bytes ≡ ok text
      → s.storage.lower_ext it.filename ≡ ext
      → ext ≢ ""
      → s.storage.save_bytes text (s.storage.join_path (String.◌++◌ (s.ulid w.drawn) ext)) w.files
        ≡ (ok tt, files)
      → s.storage.encrypt bad.file_bytes ≡ err e
      → issue s auth now (it ∷ bad ∷ its) w ≡ (
        err (domain issue_storage_failed []),
        record w { files = files; drawn = w.drawn + 1 + 1 },
      )
  unfolding issue
  issue_leaks_files it bad its w e text ext files h a x n b c =
      let items = it ∷ bad ∷ its in
      let v = record w { files = files; drawn = w.drawn + 1 + 1 } in
      bind_of_ok (issue_checks s auth now items) _ w w tt h
      ∙ bind_of_err
          (on_error (issue_prepare s auth items) (λ _. cleanup_orphan_files s auth now [])) _ w v
          (domain issue_storage_failed [])
          (cleaned_nothing items w v issue_storage_failed
            (prepare_first it bad its w e text ext files a x n b c))

  -- What an issuance read, checked, built and committed.
  pub record IsIssue (items : List CredentialIssuance) (w w' : World T) (cs : List Credential)
      : Type 0 where
    pub holders : List User
    pub statuses : List ℕ
    pub creds : List Credential
    pub before : World T
    pub after : World T
    pub found : s.find_users (map (λ it. it.holder_user_id) items) w.db ≡ ok holders
    pub known :
        s.registry.hash_statuses (map (λ it. s.storage.keccak_hex it.file_bytes) items) w.chain
        ≡ ok statuses
    pub off_chain : NotIssued items statuses
    pub admissible : All (IsAdmissible s w.db holders) items
    pub fresh :
        AreFresh s (issue_facts s items (map (λ h. h.id) holders) statuses w.db) w.db [] items
    pub built : Aligned (IsIssuance s auth) items creds
    pub committed : issue_commit s auth now creds (ids_for creds items) before ≡ (ok cs, after)
    pub minted : IsCommit s auth now creds cs before after
    pub started : before.db ≡ w.db
    pub ended_db : w'.db ≡ after.db
    pub ended_chain : w'.chain ≡ after.chain

  -- An issuance that succeeds: of the holders and the statuses that were read, every item's holder is
  -- among the former and no item's file is issued on chain; no two items carry one file; every item's
  -- type and organization are active and approved, its competencies active, and its number, if any, in
  -- no row that was found for its organization; a row was built for each item, in its order, with what
  -- the item says, issued by the caller, activated at a reading of the clock and dated by the item or
  -- by a reading; these rows were committed on the database as it was, with one call of the contract,
  -- signed by the caller, for what was stored, whose tokens the rows that are returned carry; and the
  -- database and the chain end as that commit left them.
  pub issue-ok :
      (items : List CredentialIssuance) (w w' : World T) (cs : List Credential)
      → issue s auth now items w ≡ (ok cs, w')
      → IsIssue items w w' cs
  unfolding issue issue_validate
  issue-ok items w w' cs h =
      let (a, q, k) = bind-ok (issue_checks s auth now items) _ w w' cs h in
      let v0 = (issue_checks s auth now items w).1 in
      let (holders, statuses, found, known, clean) = checks-ok items w v0 q in
      let sound =
        issue_errors-nil s (issue_facts s items (map (λ h. h.id) holders) statuses w.db) w.db 0 []
          items clean in
      let prepare =
        on_error (issue_prepare s auth items) (λ _. cleanup_orphan_files s auth now []) in
      let (creds, p, l) = bind-ok prepare _ v0 w' cs k in
      let v = (prepare v0).1 in
      let prepared =
        on_error-ok (issue_prepare s auth items) (λ _. cleanup_orphan_files s auth now []) v0 v
          creds p in
      let m =
        on_error (issue_commit s auth now creds (ids_for creds items))
          (λ _. cleanup_orphan_files s auth now creds) in
      let (out, r, t) = bind-ok m _ v w' cs l in
      let u = (m v).1 in
      let tail = mail_tail-ok s now NotificationType.registered out out cs u w' t in
      let finished : issue_commit s auth now creds (ids_for creds items) v ≡ (ok cs, u) =
        on_error-ok (issue_commit s auth now creds (ids_for creds items)) _ v u out r
        ∙ ap (λ z. (ok z, u)) tail.0 in
      record {
        holders = holders;
        statuses = statuses;
        creds = creds;
        before = v;
        after = u;
        found = found;
        known = known;
        off_chain = issuable-NotIssued s w.db items (map (λ h. h.id) holders) statuses sound.0;
        admissible = issuable-IsAdmissible s w.db items holders statuses sound.0;
        fresh = sound.1;
        built = issue_prepare-rows s auth items creds v0 v prepared;
        committed = finished;
        minted = issue_commit-IsCommit s auth now creds cs (ids_for creds items) v u finished;
        started = prepare_cleaned-db items v0 ∙ ap (λ (z : World T). z.db) (checks-frame items w);
        ended_db = tail.1;
        ended_chain = tail.2;
      }

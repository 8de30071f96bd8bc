-- ===== src/Credential/Lifecycle/Intakes.antt =====
-- Issue and Submit of feature/credential/credential_service.go, whatever they return: the rows that
-- they store are new, and the others stay.
use cred_chain_golang.Base.{
  Aligned, ◌≡◌, refl, String, List, [], ◌∷◌, map, arith, inl, inr, sym, ap, Option, uniq,
  slice_to_map,
}
use mathlib.Core.Path.{subst}
use mathlib.Core.Path.{subst₂}
use cred_chain_golang.Credential.Intake.{
  issue, issue_commit, submit, cleanup_orphan_files, require_empty,
}
use cred_chain_golang.Credential.Intake.Prepare.{submit_prepare, submit_prepare_one}
use cred_chain_golang.Credential.Intake.Validate.{submit_validate}
use cred_chain_golang.Credential.Intake.Outcome.{issue-ok, issue-err_db, collect-keeps, cleanup-db}
use cred_chain_golang.Effect.{on_db}
use cred_chain_golang.Effect.{continue}
use cred_chain_golang.Effect.Laws.{transaction-ok}
use cred_chain_golang.Domain.Fault.{ValidationErrors}
use cred_chain_golang.Domain.Clock.{Time}
use cred_chain_golang.Domain.Fault.{Result, ok, err, issue_blockchain_sync_failed}
use cred_chain_golang.Domain.User.{User, wallet_from_user}
use cred_chain_golang.Domain.Credential.{Credential}
use cred_chain_golang.Effect.{Backend, World, ◌>>=◌, pure, each, on_error, transaction, on_db}
use cred_chain_golang.Effect.Laws.{Result-cases}
use cred_chain_golang.Effect.Keeps.{bind-Keeps, transaction-Keeps, each-Keeps, on_error-Keeps}
use cred_chain_golang.Credential.Ports.{CredentialService, NotificationType}
use cred_chain_golang.Credential.Table.{Database}
use cred_chain_golang.Credential.Notify.{record_lifecycle_notifications}
use cred_chain_golang.Credential.Mint.{mint_credentials}
use cred_chain_golang.Credential.Intake.{
  issue_body, submit_body, link, link_rows, submit_links, submit, issue, issue_commit,
  cleanup_orphan_files, require_empty,
}
use cred_chain_golang.Credential.Intake.Validate.{
  CredentialIssuance, CredentialSubmission, submit_validate,
}
use cred_chain_golang.Credential.Lifecycle.{AreCoherent, IsCoherent, stamps}
use cred_chain_golang.Credential.Lifecycle.Backing.{
  IsBacked, Advances, Advances-IsPreorder, same-Advances, store-Advances,
}
use cred_chain_golang.Credential.Lifecycle.Reviews.{notified-Advances, mint-Advances}
use cred_chain_golang.Credential.Intake.Rows.{submit_prepare-rows}

Aligned-coherent :
    {A : Type 0} {R : A → Credential → Type 0}
    → ((a : A) (c : Credential) → R a c → IsCoherent (stamps c))
    → (as' : List A) (cs : List Credential) → Aligned R as' cs
    → AreCoherent cs
Aligned-coherent f [] [] h = tt
Aligned-coherent f [] (c ∷ cs) h = absurd h
Aligned-coherent f (a ∷ as') [] h = tt
Aligned-coherent f (a ∷ as') (c ∷ cs) h = (f a c h.0, Aligned-coherent f as' cs h.1)

module _ {T : Backend} (s : CredentialService T) (view : T.Db → Database) (law : IsBacked s view)
    (auth : User) (now : Time) where
  link-Advances :
      (id : String) (cs : List String) (w : World T)
      → Advances s view law w.db (link s auth now id cs w).1.db
  link-Advances id [] w = (Advances-IsPreorder s view law).id w.db
  link-Advances id (c ∷ cs) w =
      same-Advances s view law w.db (s.store_links (link_rows id (c ∷ cs)) w.db).1
        (law.store_links (link_rows id (c ∷ cs)) w.db)

  issue_body-Advances :
      (creds : List Credential) (ids : String → List String) (holders : String → Option User)
      (committed : T.Db) (w w' : World T) (out : List Credential)
      → AreCoherent creds
      → issue_body s auth now creds ids holders committed w ≡ (ok out, w')
      → Advances s view law w.db w'.db
  unfolding issue_body
  issue_body-Advances creds ids holders committed w w' out coherent h =
      let P = Advances-IsPreorder s view law in
      let a = record w { db = (s.repo.store creds w.db).1 } in
      elim (Result-cases (s.repo.store creds w.db).0) [
        | inr (e, f) ↦ absurd (ground arith)
        | inl (stored, f) ↦
            let b = (record_lifecycle_notifications s stored NotificationType.registered a).1 in
            let m =
              mint_credentials s (wallet_from_user auth) stored holders issue_blockchain_sync_failed
                b in
            elim (Result-cases m.0) [
              | inr (e, g) ↦ absurd (ground arith)
              | inl (minted, g) ↦
                  let last : (each (λ c. link s auth now c.id (ids c.id)) minted m.1).1 ≡ w' =
                    ground arith in
                  subst (λ (x : World T). Advances s view law w.db x.db) last
                    (P.then w.db a.db _ (store-Advances s view law creds w.db coherent) (
                      P.then a.db b.db _
                        (notified-Advances s view law stored NotificationType.registered a)
                        (P.then b.db m.1.db _
                          (mint-Advances s view law (wallet_from_user auth) stored holders
                            issue_blockchain_sync_failed minted b m.1 cc)
                          (each-Keeps (Advances s view law) P (λ c. link s auth now c.id (ids c.id))
                            minted m.1 (λ c v. link-Advances c.id (ids c.id) v)))))
            ]
      ]

  pub issue-Advances :
      (items : List CredentialIssuance) (w : World T)
      → Advances s view law w.db (issue s auth now items w).1.db
  issue-Advances items w =
      let out = issue s auth now items w in
      elim (Result-cases out.0) [
        | inr (e, q) ↦
            same-Advances s view law w.db out.1.db
              (ap view (issue-err_db s auth now items w out.1 e cc))
        | inl (cs, q) ↦ issued items w out.1 cs cc
      ]
    where
      committed :
          (creds cs : List Credential) (ids : String → List String) (v u : World T)
          → AreCoherent creds
          → issue_commit s auth now creds ids v ≡ (ok cs, u)
          → Advances s view law v.db u.db
      committed creds cs ids v u coherent h =
          elim (Result-cases (s.find_users (map (λ c. c.holder_user_id) creds) v.db)) [
            | inr (e, f) ↦ absurd (unfold issue_commit in ground arith)
            | inl (holders, f) ↦
                let body =
                  issue_body s auth now creds ids (slice_to_map (λ h. h.id) (λ h. h) holders) in
                let run : transaction s.begin s.commit body v ≡ (ok cs, u) =
                  unfold issue_commit in ground arith in
                issue_body-Advances creds ids _ v.db v u cs coherent
                  (transaction-ok s.begin s.commit body v u cs run).0
          ]

      issued :
          (items : List CredentialIssuance) (w w' : World T) (cs : List Credential)
          → issue s auth now items w ≡ (ok cs, w')
          → Advances s view law w.db w'.db
      issued items w w' cs h =
          let i = issue-ok s auth now items w w' cs h in
          subst₂ (Advances s view law) i.started (sym i.ended_db) (
            committed i.creds cs _ i.before i.after
              (Aligned-coherent (λ it c r. r.coherent) items i.creds i.built) i.committed)

  submit_links-Advances :
      (cs : List Credential) (items : List CredentialSubmission) (w : World T)
      → Advances s view law w.db (submit_links s auth now cs items w).1.db
  unfolding submit_links
  submit_links-Advances [] items w = (Advances-IsPreorder s view law).id w.db
  submit_links-Advances (c ∷ cs) [] w = (Advances-IsPreorder s view law).id w.db
  submit_links-Advances (c ∷ cs) (it ∷ its) w =
      let P = Advances-IsPreorder s view law in
      let m = link s auth now c.id (uniq it.competency_ids) w in
      P.then w.db m.1.db _ (link-Advances c.id (uniq it.competency_ids) w)
        (rest m.0 m.1 (submit_links-Advances cs its m.1))
    where
      rest :
          (r : Result (Unit {0})) (v : World T)
          → Advances s view law v.db (submit_links s auth now cs its v).1.db
          → Advances s view law v.db
              (elim r as (λ _. Result (Unit {0}) × World T) [
                | ok _ ↦ submit_links s auth now cs its v
                | err e ↦ (err e, v)
              ]).1.db
      rest (ok a) v h = h
      rest (err e) v h = (Advances-IsPreorder s view law).id v.db

  submit_body-Advances :
      (creds : List Credential) (items : List CredentialSubmission) (committed : T.Db) (w : World T)
      → AreCoherent creds
      → Advances s view law w.db (submit_body s auth now creds items committed w).1.db
  unfolding submit_body
  submit_body-Advances creds items committed w coherent =
      let P = Advances-IsPreorder s view law in
      bind-Keeps (Advances s view law) P (on_db (s.repo.store creds))
        (λ stored. submit_links s auth now stored items >>= λ _. pure stored) w
        (store-Advances s view law creds w.db coherent)
        (λ stored q.
          bind-Keeps (Advances s view law) P (submit_links s auth now stored items)
            (λ _. pure stored) _ (submit_links-Advances stored items _) (λ _ _. P.id _))

  require_empty-db :
      (errors : ValidationErrors) (w : World T) → (require_empty s auth now errors w).1.db ≡ w.db
  require_empty-db [] w = refl
  require_empty-db (e ∷ es) w = refl

  submit_prepare-db :
      (its : List CredentialSubmission) (w : World T) → (submit_prepare s auth its w).1.db ≡ w.db
  unfolding submit_prepare submit_prepare_one
  submit_prepare-db its w =
      collect-keeps (λ v. v.db) (submit_prepare_one s auth) (λ it v. ground arith) its w

  submit_commit-Advances :
      (creds : List Credential) (items : List CredentialSubmission) (w : World T)
      → AreCoherent creds
      → Advances s view law w.db
          (on_error
            (transaction s.begin s.commit (submit_body s auth now creds items))
            (λ _. cleanup_orphan_files s auth now creds)
            w).1.db
  submit_commit-Advances creds items w coherent =
      let P = Advances-IsPreorder s view law in
      let R = Advances s view law in
      let body = submit_body s auth now creds items in
      on_error-Keeps R P (transaction s.begin s.commit body)
        (λ _. cleanup_orphan_files s auth now creds) w
        (transaction-Keeps R P s.begin s.commit body w λ a v run.
          subst (λ (x : Result (List Credential) × World T). R w.db x.1.db) run
            (submit_body-Advances creds items w.db w coherent))
        (λ e v.
          same-Advances s view law v.db (cleanup_orphan_files s auth now creds v).1.db
            (ap view (cleanup-db s auth now creds v)))

  submit_prepared-Advances :
      (items : List CredentialSubmission) (w : World T)
      → Advances s view law w.db
          ((submit_prepare s auth items >>= λ creds.
              on_error
                (transaction s.begin s.commit (submit_body s auth now creds items))
                (λ _. cleanup_orphan_files s auth now creds))
            w).1.db
  submit_prepared-Advances items w =
      let v = (submit_prepare s auth items w).1 in
      bind-Keeps (Advances s view law) (Advances-IsPreorder s view law)
        (submit_prepare s auth items)
        (λ creds.
          on_error (transaction s.begin s.commit (submit_body s auth now creds items))
            (λ _. cleanup_orphan_files s auth now creds))
        w (same-Advances s view law w.db v.db (ap view (submit_prepare-db items w)))
        (λ creds p. submit_commit-Advances creds items v (
          Aligned-coherent (λ it c r. r.coherent) items creds
            (submit_prepare-rows s auth items creds w v p)))

  pub submit-Advances :
      (items : List CredentialSubmission) (w : World T)
      → Advances s view law w.db (submit s auth now items w).1.db
  unfolding submit
  submit-Advances items w = elim (Result-cases (submit_validate s items w.db)) [
    | inr (e, q) ↦
        same-Advances s view law w.db (submit s auth now items w).1.db (ap view (ground arith))
    | inl ([], q) ↦
        subst (λ r. Advances s view law w.db (run r).1.db) (sym q)
          (submit_prepared-Advances items w)
    | inl (e ∷ es, q) ↦
        subst (λ r. Advances s view law w.db (run r).1.db) (sym q)
          ((Advances-IsPreorder s view law).id w.db)
  ]
    where
      run : Result ValidationErrors → Result (List Credential) × World T
      run r =
          continue r
            (λ verrs. require_empty s auth now verrs >>= λ _.
              submit_prepare s auth items >>= λ creds.
              on_error (transaction s.begin s.commit (submit_body s auth now creds items))
                (λ _. cleanup_orphan_files s auth now creds))
            w

-- ===== src/Credential/Lifecycle/Upkeep.antt =====
-- Update, ReExtract and LinkCompetencies of feature/credential/credential_service.go, whatever they
-- return: each keeps the lifecycles of the rows.
use cred_chain_golang.Base.{
  ◌∙◌, Option, ◌≡◌, ◌⊎◌, refl, String, List, [], ◌∷◌, arith, none, some, inl, inr, sym, ap,
}
use mathlib.Core.Path.{subst}
use cred_chain_golang.Effect.{M, ◌>>=◌, pure, raise, each, on_error, on_queue, transaction}
use cred_chain_golang.Domain.Fault.{panic, update_not_found}
use cred_chain_golang.Effect.Keeps.{transaction-Keeps, bind-Keeps, each-Keeps, on_error-Keeps}
use cred_chain_golang.Domain.Clock.{Time}
use cred_chain_golang.Domain.Fault.{ok}
use cred_chain_golang.Domain.Credential.{Credential}
use cred_chain_golang.Effect.{Backend, World, check_all}
use cred_chain_golang.Effect.Laws.{Result-cases}
use cred_chain_golang.Credential.Ports.{CredentialService}
use cred_chain_golang.Credential.Table.{Database}
use cred_chain_golang.Credential.Maintain.{
  update_found, update, edit_guard, link_body, re_extract_body, competency_links, enqueue_again,
  compensate, link_competencies, re_extract, taken_for, failed_row, number_guard,
}
use cred_chain_golang.Credential.Guards.{ids_of, require_found}
use cred_chain_golang.Credential.Lifecycle.Backing.{
  IsBacked, Advances, same-Advances, Advances-IsPreorder, stampless-Advances, clear-Advances,
}
use cred_chain_golang.Credential.Lifecycle.Patches.{unstamped, Stamping, unstamped}

module _ {T : Backend} (s : CredentialService T) where
  update-db :
      (now : Time) (cs : List Credential) (w : World T)
      → ((update s now cs w).1.db ≡ w.db) ⊎ ((update s now cs w).1.db ≡ (s.repo.update cs w.db).1)
  unfolding update update_found
  update-db now [] w = inl refl
  update-db now (c ∷ cs) w = elim (Result-cases (s.repo.find_by_ids (ids_of (c ∷ cs)) [] w.db)) [
    | inr (e, f) ↦ inl (ground arith)
    | inl (targets, f) ↦
        elim (Result-cases (require_found update_not_found (ids_of (c ∷ cs)) targets)) [
          | inr (e, g) ↦ inl (ground arith)
          | inl (_, g) ↦ elim (Result-cases (check_all (edit_guard s now w.db targets) (c ∷ cs))) [
            | inr (e, k) ↦ inl (ground arith)
            | inl (_, k) ↦ elim (Result-cases (taken_for s targets (c ∷ cs) w.db)) [
              | inr (e, l) ↦ inl (ground arith)
              | inl (taken, l) ↦
                  elim (Result-cases (check_all (number_guard taken targets) (c ∷ cs))) [
                    | inr (e, m) ↦ inl (ground arith)
                    | inl (_, m) ↦ inr (ground arith)
                  ]
            ]
          ]
        ]
  ]

  re_extract_body-run :
      (now : Time) (ids : List String) (committed : T.Db) (w w' : World T)
      (out : List Credential × List Credential)
      → re_extract_body s now ids committed w ≡ (ok out, w')
      → (targets : List Credential) × (w'.db
          ≡ (s.repo.clear_extract_outcome now (ids_of targets) w.db).1)
  unfolding re_extract_body
  re_extract_body-run now ids committed w w' out h =
      elim (Result-cases (s.repo.find_by_ids ids [] w.db)) [
        | inr (e, f) ↦ absurd (ground arith)
        | inl (targets, f) ↦ (targets, ground arith)
      ]

  link_body-run :
      (id : String) (cs : List String) (committed : T.Db) (w w' : World T)
      → link_body s id cs committed w ≡ (ok tt, w')
      → (w'.db ≡ (s.destroy_links id w.db).1)
        ⊎ (w'.db ≡ (s.store_links (competency_links s id cs) (s.destroy_links id w.db).1).1)
  unfolding link_body
  link_body-run id [] committed w w' h = inl (ground arith)
  link_body-run id (c ∷ cs) committed w w' h = inr (ground arith)

module _ {T : Backend} (s : CredentialService T) (view : T.Db → Database)
    (law : IsBacked s view) where
  -- A request to edit carries no stamp.
  pub update-Advances :
      (now : Time) (cs : List Credential) (w : World T)
      → Stamping unstamped cs
      → Advances s view law w.db (update s now cs w).1.db
  update-Advances now cs w p = elim (update-db s now cs w) [
    | inl e ↦ same-Advances s view law w.db (update s now cs w).1.db (ap view e)
    | inr e ↦
        subst (λ d. Advances s view law w.db d) (sym e) (stampless-Advances s view law cs w.db p)
  ]

  pub link-Advances :
      (id : String) (cs : List String) (w : World T)
      → Advances s view law w.db (link_competencies s id cs w).1.db
  unfolding link_competencies
  link-Advances id cs w =
      transaction-Keeps (Advances s view law) (Advances-IsPreorder s view law) s.begin s.commit
        (link_body s id cs) w
        λ a v run. same-Advances s view law w.db v.db (elim (link_body-run s id cs w.db w v run) [
          | inl e ↦ ap view e ∙ law.destroy_links id w.db
          | inr e ↦
              ap view e
              ∙ law.store_links (competency_links s id cs) (s.destroy_links id w.db).1
              ∙ law.destroy_links id w.db
        ])

  compensate-Advances :
      (now : Time) (t : Credential) (w : World T)
      → Advances s view law w.db (compensate s now t w).1.db
  unfolding compensate failed_row
  compensate-Advances now t w =
      stampless-Advances s view law (failed_row now t ∷ []) w.db
        (record { activates = (refl, tt); rejects = (refl, tt); revokes = (refl, tt) })

  enqueue_again-Advances :
      (now : Time) (t : Credential) (w : World T)
      → Advances s view law w.db (enqueue_again s now t w).1.db
  unfolding enqueue_again
  enqueue_again-Advances now t w = again t.file_uri
    where
      run : Option String → M T (Unit {0})
      run o = elim o [
        | none ↦ raise panic
        | some uri ↦
            on_error (on_queue (s.enqueuer.enqueue_extract t.id (s.storage.join_path uri)))
              (λ _. compensate s now t)
      ]

      again : (o : Option String) → Advances s view law w.db (run o w).1.db
      again none = (Advances-IsPreorder s view law).id w.db
      again (some uri) =
          on_error-Keeps (Advances s view law) (Advances-IsPreorder s view law)
            (on_queue (s.enqueuer.enqueue_extract t.id (s.storage.join_path uri)))
            (λ _. compensate s now t) w ((Advances-IsPreorder s view law).id w.db)
            (λ e v. compensate-Advances now t v)

  pub re_extract-Advances :
      (now later : Time) (ids : List String) (w : World T)
      → Advances s view law w.db (re_extract s now later ids w).1.db
  unfolding re_extract
  re_extract-Advances now later ids w =
      let P = Advances-IsPreorder s view law in
      let R = Advances s view law in
      bind-Keeps R P (transaction s.begin s.commit (re_extract_body s now ids))
        (λ done. each (enqueue_again s later) done.1 >>= λ _. pure done.0) w
        (transaction-Keeps R P s.begin s.commit (re_extract_body s now ids) w λ a v run.
          let (targets, e) = re_extract_body-run s now ids w.db w v a run in
          subst (λ d. R w.db d) (sym e) (clear-Advances s view law now (ids_of targets) w.db))
        (λ done q.
          bind-Keeps R P (each (enqueue_again s later) done.1) (λ _. pure done.0) _
            (each-Keeps R P (enqueue_again s later) done.1 _ (enqueue_again-Advances later))
            (λ _ _. P.id _))

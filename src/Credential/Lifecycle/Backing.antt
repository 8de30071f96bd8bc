-- ===== src/Credential/Lifecycle/Backing.antt =====
-- The credential service over the repository of feature/credential/gorm_credential_repository.go: what
-- a statement of the service does to the lifecycles of the rows.
use cred_chain_golang.Base.{
  ℕ, suc, some, none, contains, if◌then◌else◌, Bool, true, false, All-pure, ◌++◌, ◌≡◌, ◌⊎◌, inl,
  inr, refl, String, List, [], ◌∷◌, map, All, arith, sym, Bool,
}
use cred_chain_golang.Domain.Clock.{Time}
use cred_chain_golang.Domain.Fault.{ok}
use cred_chain_golang.Domain.Credential.{Credential}
use cred_chain_golang.Effect.{Backend}
use cred_chain_golang.Effect.Keeps.{IsPreorder}
use cred_chain_golang.Credential.Ports.{
  CredentialService, CompetencyCredential, CredentialNotification,
}
use cred_chain_golang.Credential.Table
use cred_chain_golang.Credential.Table.{
  bare, lacks_id, with_ids, is_unique, Database, update_batch_case, is_unique, with_ids, cleared,
}
use cred_chain_golang.Credential.Lifecycle.Patches.{
  Stamper, Stamping, unstamped, update_batch_case-Evolves, restamped, fetched_update-Evolves,
}
use cred_chain_golang.Credential.Lifecycle.{
  Evolves, Stamps, subst, Evolves-refl, Evolves-trans, Lives, AreCoherent, Follows, Evolves-append,
  here, stamps, Follows-refl, IsCoherent,
}

-- `view` finds the credentials table in the database. A statement that reaches the database is the
-- repository's; one that does not leaves the table as it was, and the statements on the other tables
-- do so anyhow.
pub record IsBacked {T : Backend} (s : CredentialService T) (view : T.Db → Database) : Type 0 where
  pub find_by_ids :
      (ids includes : List String) (db : T.Db) (ts : List Credential)
      → s.repo.find_by_ids ids includes db ≡ ok ts
      → Table.find_by_ids ids includes (view db) ≡ ok ts
  pub store :
      (cs : List Credential) (db : T.Db)
      → (view (s.repo.store cs db).1 ≡ view db)
        ⊎ (view (s.repo.store cs db).1 ≡ (Table.store cs (view db)).1)
  pub update :
      (cs : List Credential) (db : T.Db)
      → (view (s.repo.update cs db).1 ≡ view db)
        ⊎ (view (s.repo.update cs db).1 ≡ (Table.update cs (view db)).1)
  pub update_ok :
      (cs out : List Credential) (db d : T.Db)
      → s.repo.update cs db ≡ (ok out, d)
      → Table.update cs (view db) ≡ (ok out, view d)
  pub clear_extract_outcome :
      (now : Time) (ids : List String) (db : T.Db)
      → (view (s.repo.clear_extract_outcome now ids db).1 ≡ view db)
        ⊎ (view (s.repo.clear_extract_outcome now ids db).1
            ≡ (Table.clear_extract_outcome now ids (view db)).1)
  pub store_links :
      (ls : List CompetencyCredential) (db : T.Db) → view (s.store_links ls db).1 ≡ view db
  pub destroy_links : (id : String) (db : T.Db) → view (s.destroy_links id db).1 ≡ view db
  pub store_notifications :
      (ns : List CredentialNotification) (db : T.Db)
      → view (s.store_notifications ns db).1 ≡ view db

abbrev pub Grows : Database → Database → Type 0
Grows a b = Evolves a.rows b.rows

update-rows :
    (cs : List Credential) (db : Database)
    → ((Table.update cs db).1.rows ≡ db.rows)
      ⊎ ((Table.update cs db).1.rows ≡ update_batch_case cs db.rows)
unfolding Table.update
update-rows [] db = inl refl
update-rows (c ∷ cs) db = pick (is_unique (update_batch_case (c ∷ cs) db.rows)) refl
  where
    pick :
        (b : Bool)
        → is_unique (update_batch_case (c ∷ cs) db.rows) ≡ b
        → ((Table.update (c ∷ cs) db).1.rows ≡ db.rows)
          ⊎ ((Table.update (c ∷ cs) db).1.rows ≡ update_batch_case (c ∷ cs) db.rows)
    pick true e = inr (ground arith)
    pick false e = inl (ground arith)

with_ids-AreCoherent :
    (ulid : ℕ → String) (cs : List Credential) (n : ℕ)
    → AreCoherent cs
    → AreCoherent (map bare (with_ids ulid n cs))
unfolding with_ids
with_ids-AreCoherent ulid [] n h = tt
with_ids-AreCoherent ulid (c ∷ cs) n h =
    (pick (lacks_id c), with_ids-AreCoherent ulid cs (if lacks_id c then suc n else n) h.1)
  where
    pick : (b : Bool) → IsCoherent (stamps (bare (if b then record c { id = ulid n } else c)))
    pick true = h.0
    pick false = h.0

store-rows :
    (cs : List Credential) (db : Database)
    → ((Table.store cs db).1.rows ≡ db.rows)
      ⊎ ((Table.store cs db).1.rows ≡ db.rows ++ map bare (with_ids db.ulid db.drawn cs))
unfolding Table.store
store-rows [] db = inl refl
store-rows (c ∷ cs) db =
    pick (is_unique (db.rows ++ map bare (with_ids db.ulid db.drawn (c ∷ cs)))) refl
  where
    pick :
        (b : Bool)
        → is_unique (db.rows ++ map bare (with_ids db.ulid db.drawn (c ∷ cs))) ≡ b
        → ((Table.store (c ∷ cs) db).1.rows ≡ db.rows)
          ⊎ ((Table.store (c ∷ cs) db).1.rows
              ≡ db.rows ++ map bare (with_ids db.ulid db.drawn (c ∷ cs)))
    pick true e = inr (ground arith)
    pick false e = inl (ground arith)

store-Grows :
    (cs : List Credential) (db : Database) → AreCoherent cs → Grows db (Table.store cs db).1
store-Grows cs db h = elim (store-rows cs db) [
  | inl e ↦ subst (Evolves db.rows) (sym e) (Evolves-refl db.rows)
  | inr e ↦ subst (Evolves db.rows) (sym e) (
      Evolves-append db.rows (map bare (with_ids db.ulid db.drawn cs))
        (with_ids-AreCoherent db.ulid cs db.drawn h))
]

cleared-Evolves :
    (now : Time) (ids : List String) (rows : List Credential)
    → Evolves rows (map (cleared now ids) rows)
unfolding cleared
cleared-Evolves now ids [] = tt
cleared-Evolves now ids (c ∷ cs) = (pick (contains ids c.id), cleared-Evolves now ids cs)
  where
    pick :
        (b : Bool)
        → Follows c (
            if b
            then record c {
              extract_enqueued_at = some now;
              extracted_at = none;
              extract_failed_at = none;
              extract_error = none;
            }
            else c)
    pick true = record { id = refl; holder = refl; file = refl; reason = refl; life = here }
    pick false = Follows-refl c

clear-Grows :
    (now : Time) (ids : List String) (db : Database)
    → Grows db (Table.clear_extract_outcome now ids db).1
unfolding Table.clear_extract_outcome
clear-Grows now ids db = cleared-Evolves now ids db.rows

module _ {T : Backend} (s : CredentialService T) (view : T.Db → Database)
    (law : IsBacked s view) where
  abbrev pub Advances : T.Db → T.Db → Type 0
  Advances a b = Grows (view a) (view b)

  pub Advances-IsPreorder : IsPreorder Advances
  Advances-IsPreorder = record {
    id = λ a. Evolves-refl (view a).rows;
    then = λ a b c. Evolves-trans (view a).rows (view b).rows (view c).rows;
  }

  pub same-Advances : (a b : T.Db) → view b ≡ view a → Advances a b
  same-Advances a b e = subst (λ d. Grows (view a) d) (sym e) (Evolves-refl (view a).rows)

  pub update-Advances :
      (cs : List Credential) (db : T.Db)
      → Evolves (view db).rows (update_batch_case cs (view db).rows)
      → Advances db (s.repo.update cs db).1
  update-Advances cs db h = elim (law.update cs db) [
    | inl e ↦ same-Advances db (s.repo.update cs db).1 e
    | inr e ↦
        subst (λ d. Grows (view db) d) (sym e)
          (elim (update-rows cs (view db)) [
            | inl same ↦ subst (Evolves (view db).rows) (sym same) (Evolves-refl (view db).rows)
            | inr new ↦ subst (Evolves (view db).rows) (sym new) h
          ])
  ]

  -- The update of fetched rows, where each of them may take the step.
  pub fetched-Advances :
      (at : Stamps) (f : Credential → Credential) (ids includes : List String) (db : T.Db)
      (targets : List Credential)
      → Stamper at f
      → s.repo.find_by_ids ids includes db ≡ ok targets
      → All (λ t. Lives (stamps t) (restamped at (stamps t))) targets
      → Advances db (s.repo.update (map f targets) db).1
  fetched-Advances at f ids includes db targets p found h = update-Advances (map f targets) db (
      fetched_update-Evolves at f ids includes (view db) targets p
        (law.find_by_ids ids includes db targets found) h)

  -- An update that carries no stamp.
  pub stampless-Advances :
      (cs : List Credential) (db : T.Db)
      → Stamping unstamped cs
      → Advances db (s.repo.update cs db).1
  stampless-Advances cs db p = update-Advances cs db (
      update_batch_case-Evolves unstamped cs (view db).rows p
        (All-pure (λ c k. here) (view db).rows))

  pub store-Advances :
      (cs : List Credential) (db : T.Db) → AreCoherent cs → Advances db (s.repo.store cs db).1
  store-Advances cs db h = elim (law.store cs db) [
    | inl e ↦ same-Advances db (s.repo.store cs db).1 e
    | inr e ↦ subst (λ d. Grows (view db) d) (sym e) (store-Grows cs (view db) h)
  ]

  pub clear-Advances :
      (now : Time) (ids : List String) (db : T.Db)
      → Advances db (s.repo.clear_extract_outcome now ids db).1
  clear-Advances now ids db = elim (law.clear_extract_outcome now ids db) [
    | inl e ↦ same-Advances db (s.repo.clear_extract_outcome now ids db).1 e
    | inr e ↦ subst (λ d. Grows (view db) d) (sym e) (clear-Grows now ids (view db))
  ]

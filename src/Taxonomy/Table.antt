-- ===== src/Taxonomy/Table.antt =====
-- feature/credential/gorm_competency_repository.go, gorm_credential_type_repository.go and
-- gorm_issuer_organization_repository.go: the same statements on three tables. SQL is read on a list of
-- rows; every statement reaches the database. `updated_at` and the preloaded users are left out.
use cred_chain_golang.Base.{
  ◌+◌, ℕ, suc, Bool, true, not, ◌&&◌, ◌||◌, String, List, [], ◌∷◌, ◌++◌, map, some, contains,
  is_none, length, if◌then◌else◌, ◌==◌,
}
use cred_chain_golang.Domain.Fault.{domain, raw, record_not_found, Result, ok, err}
use cred_chain_golang.Domain.Reference.{Reference}
use cred_chain_golang.Sql.{select, case_value, or_kept, or_old, given_text}
use cred_chain_golang.Taxonomy.{Kind, TaxonomyRepository}

-- The rows; `strings.TrimSpace`; LOWER, which `strings.ToLower` agrees with; the foreign keys onto the
-- table; and the source of identifiers with the number that it drew.
pub record Database : Type 0 where
  pub rows : List Reference
  pub trim_space : String → String
  pub lower : String → String
  pub referenced : String → Bool
  pub ulid : ℕ → String
  pub drawn : ℕ

abbrev pub key : Reference → String
key r = r.id

-- FindByNames: the names that are not blank, trimmed and in lower case.
unfoldable pub needles : Database → List String → List String
needles db [] = []
needles db (n ∷ ns) =
    let rest = needles db ns in
    if db.trim_space n == "" then rest else db.lower (db.trim_space n) ∷ rest

abbrev pub is_named : Database → List String → Reference → Bool
is_named db names r = contains (needles db names) (db.lower r.name) && is_none r.rejected_at

-- The partial unique index on LOWER(name) of the unrejected rows, and the key.
unfoldable pub conflicts : (String → String) → Reference → Reference → Bool
conflicts lower a b =
    a.id == b.id || (is_none a.rejected_at && is_none b.rejected_at && lower a.name == lower b.name)

unfoldable pub is_fresh : (String → String) → Reference → List Reference → Bool
unfolding conflicts
is_fresh lower r [] = true
is_fresh lower r (q ∷ qs) = not (conflicts lower r q) && is_fresh lower r qs

unfoldable pub is_unique : (String → String) → List Reference → Bool
unfolding is_fresh
is_unique lower [] = true
is_unique lower (r ∷ rs) = is_fresh lower r rs && is_unique lower rs

-- The columns of Update: `active` is always given.
unfoldable pub patched : List Reference → Reference → Reference
unfolding case_value
patched items r = record r {
  name = or_kept (case_value key (λ p. given_text p.name) items r.id) r.name;
  active = or_kept (case_value key (λ p. some p.active) items r.id) r.active;
  submitter_user_id =
      or_old (case_value key (λ p. p.submitter_user_id) items r.id) r.submitter_user_id;
  approver_user_id =
      or_old (case_value key (λ p. p.approver_user_id) items r.id) r.approver_user_id;
  rejecter_user_id =
      or_old (case_value key (λ p. p.rejecter_user_id) items r.id) r.rejecter_user_id;
  rejection_reason =
      or_old (case_value key (λ p. p.rejection_reason) items r.id) r.rejection_reason;
  activated_at = or_old (case_value key (λ p. p.activated_at) items r.id) r.activated_at;
  rejected_at = or_old (case_value key (λ p. p.rejected_at) items r.id) r.rejected_at;
}

unfoldable pub update_rows : List Reference → List Reference → List Reference
unfolding contains
update_rows items = map λ r. if contains (map key items) r.id then patched items r else r

abbrev pub lacks_id : Reference → Bool
lacks_id r = r.id == ""

unfoldable pub with_ids : (ℕ → String) → ℕ → List Reference → List Reference
with_ids ulid n [] = []
with_ids ulid n (r ∷ rs) =
    (if lacks_id r then record r { id = ulid n } else r)
    ∷ with_ids ulid (if lacks_id r then suc n else n) rs

abbrev pub first_row : List Reference → Result Reference
first_row [] = err record_not_found
first_row (r ∷ rs) = ok r

unfoldable pub find : String → Database → Result Reference
unfolding select
find id db = first_row (select (λ r. r.id == id) db.rows)

unfoldable pub find_by_ids : List String → Database → Result (List Reference)
unfolding select contains
find_by_ids ids db = ok (select (λ r. contains ids r.id) db.rows)

unfoldable pub find_by_names : List String → Database → Result (List Reference)
unfolding select needles
find_by_names names db = ok (select (is_named db names) db.rows)

module _ (kind : Kind) where
  unfoldable pub store : List Reference → Database → Result (List Reference) × Database
  unfolding with_ids is_unique select
  store [] db = (ok [], db)
  store (r ∷ rs) db =
      let new = with_ids db.ulid db.drawn (r ∷ rs) in
      let db' = record db { drawn = length (select lacks_id (r ∷ rs)) + db.drawn } in
      let db'' = record db' { rows = db.rows ++ new } in
      if is_unique db.lower (db.rows ++ new)
      then (find_by_ids (map key new) db'', db'')
      else (err (domain kind.name_duplicate []), db')

  unfoldable pub update : List Reference → Database → Result (List Reference) × Database
  unfolding update_rows is_unique
  update [] db = (ok [], db)
  update (r ∷ rs) db =
      let rows = update_rows (r ∷ rs) db.rows in
      let db' = record db { rows = rows } in
      if is_unique db.lower rows
      then (find_by_ids (map key (r ∷ rs)) db', db')
      else (err (raw "23505"), db)

  -- A foreign key onto one of the rows refuses the statement.
  unfoldable pub destroy : List String → Database → Result ℕ × Database
  unfolding select contains
  destroy ids db =
      let gone = select (λ r. contains ids r.id) db.rows in
      elim (select (λ r. db.referenced r.id) gone) [
        | [] ↦
            (ok (length gone), record db { rows = select (λ r. not (contains ids r.id)) db.rows })
        | _ ∷ _ ↦ (err (domain kind.destroy_in_use ids), db)
      ]

  unfoldable pub repository : TaxonomyRepository Database
  repository = record {
    find = find;
    find_by_names = find_by_names;
    store = store;
    update = update;
    destroy = destroy;
  }

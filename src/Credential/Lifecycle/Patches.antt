-- ===== src/Credential/Lifecycle/Patches.antt =====
-- What the statements of feature/credential/gorm_credential_repository.go do to a row's stamps.
use cred_chain_golang.Base.{
  sym, All-map, ◌≡◌, refl, Bool, true, false, String, List, [], ◌∷◌, map, Option, none, some,
  contains, All, arith, if◌then◌else◌, eq_iff,
}
use mathlib.Core.Path.{subst}
use cred_chain_golang.Domain.Fault.{Result, ok}
use cred_chain_golang.Domain.Clock.{Time}
use cred_chain_golang.Domain.Credential.{Credential}
use cred_chain_golang.Sql.{select, case_value-same}
use cred_chain_golang.Credential.Table.{
  key, keys, patched, update_batch_case, preload_by_includes, Relations, find_by_ids, Database,
}
use cred_chain_golang.Credential.Lifecycle.{Stamps, stamps, Lives, Follows, Evolves, Follows-refl}

-- What an update does to the stamps of the rows that it names, where all its items give the same.
pub record Stamping (at : Stamps) (ps : List Credential) : Type 0 where
  pub activates : All (λ p. p.activated_at ≡ at.activated) ps
  pub rejects : All (λ p. p.rejected_at ≡ at.rejected) ps
  pub revokes : All (λ p. p.revoked_at ≡ at.revoked) ps

abbrev stamped : Option Time → Option Time → Option Time
stamped none old = old
stamped (some t) old = some t

abbrev pub restamped : Stamps → Stamps → Stamps
restamped at a = record {
  activated = stamped at.activated a.activated;
  rejected = stamped at.rejected a.rejected;
  revoked = stamped at.revoked a.revoked;
}

pub patched-stamps :
    (at : Stamps) (ps : List Credential) (c : Credential)
    → Stamping at ps
    → contains (keys ps) c.id ≡ true
    → stamps (patched ps c) ≡ restamped at (stamps c)
unfolding patched
patched-stamps at ps c s h = ground (
  arith,
  case_value-same key (λ p. p.activated_at) at.activated ps c.id s.activates h,
  case_value-same key (λ p. p.rejected_at) at.rejected ps c.id s.rejects h,
  case_value-same key (λ p. p.revoked_at) at.revoked ps c.id s.revokes h,
)

-- A row that an update leaves alone, or takes one step along its life.
patched-Follows :
    (at : Stamps) (ps : List Credential) (c : Credential)
    → Stamping at ps
    → contains (keys ps) c.id ≡ true
    → Lives (stamps c) (restamped at (stamps c))
    → Follows c (patched ps c)
unfolding patched
patched-Follows at ps c s h l = record {
  id = refl;
  holder = refl;
  file = refl;
  reason = refl;
  life = rw (patched-stamps at ps c s h) l;
}

updated-Follows :
    (at : Stamps) (ps : List Credential) (c : Credential) (named : Bool)
    → Stamping at ps
    → contains (keys ps) c.id ≡ named
    → (contains (keys ps) c.id ≡ true → Lives (stamps c) (restamped at (stamps c)))
    → Follows c (if named then patched ps c else c)
updated-Follows at ps c true s e l = patched-Follows at ps c s e (l e)
updated-Follows at ps c false s e l = Follows-refl c

-- An update moves the table along, where each row that it names may take the step.
pub update_batch_case-Evolves :
    (at : Stamps) (ps rows : List Credential)
    → Stamping at ps
    → All (λ c. contains (keys ps) c.id ≡ true → Lives (stamps c) (restamped at (stamps c))) rows
    → Evolves rows (update_batch_case ps rows)
unfolding update_batch_case
update_batch_case-Evolves at ps [] s h = tt
update_batch_case-Evolves at ps (c ∷ cs) s h = (
  updated-Follows at ps c (contains (keys ps) c.id) s refl h.0,
  update_batch_case-Evolves at ps cs s h.1,
)

picked :
    (Q : Credential → Type 0) (p : Credential → Bool) (r : Relations) (includes : List String)
    (c : Credential) (cs : List Credential) (b : Bool)
    → p c ≡ b
    → All Q (map (preload_by_includes r includes) (if b then c ∷ select p cs else select p cs))
    → (All Q (map (preload_by_includes r includes) (select p cs))
        → All (λ d. p d ≡ true → Q (preload_by_includes r includes d)) cs)
    → All (λ d. p d ≡ true → Q (preload_by_includes r includes d)) (c ∷ cs)
picked Q p r includes c cs true e k rec = (λ _. k.0, rec k.1)
picked Q p r includes c cs false e k rec = (λ t. absurd (ground arith), rec k)

-- What a check of the fetched rows says of the rows of the table.
pub select-All :
    (Q : Credential → Type 0) (p : Credential → Bool) (r : Relations) (includes : List String)
    (rows : List Credential)
    → All Q (map (preload_by_includes r includes) (select p rows))
    → All (λ c. p c ≡ true → Q (preload_by_includes r includes c)) rows
unfolding select
select-All Q p r includes [] h = tt
select-All Q p r includes (c ∷ cs) h =
    picked Q p r includes c cs (p c) refl h (select-All Q p r includes cs)

-- The items that are made of fetched rows name requested ids alone.
pub keys-select :
    (f : Credential → Credential) (ids includes : List String) (r : Relations)
    (rows : List Credential) (k : String)
    → ((c : Credential) → (f c).id ≡ c.id)
    → contains
        (keys (map f (map (preload_by_includes r includes) (select (λ c. contains ids c.id) rows))))
        k
      ≡ true
    → contains ids k ≡ true
unfolding select contains preload_by_includes
keys-select f ids includes r [] k same h = absurd (ground arith)
keys-select f ids includes r (c ∷ cs) k same h =
    pick (contains ids c.id) refl h (keys-select f ids includes r cs k same)
  where
    pick :
        (b : Bool)
        → contains ids c.id ≡ b
        → contains
            (keys (
              map f (
                map (preload_by_includes r includes) (
                  if b
                  then c ∷ select (λ d. contains ids d.id) cs
                  else select (λ d. contains ids d.id) cs))))
            k
          ≡ true
        → (contains
                (keys (
                  map f
                    (map (preload_by_includes r includes) (select (λ d. contains ids d.id) cs))))
                k
              ≡ true
            → contains ids k ≡ true)
        → contains ids k ≡ true
    pick true e q rec = ground (
      arith,
      eq_iff (f (preload_by_includes r includes c)).id k,
      same (preload_by_includes r includes c),
      rec,
    )
    pick false e q rec = rec q

-- A partial row that an operation makes of a fetched one.
pub record Stamper (at : Stamps) (f : Credential → Credential) : Type 0 where
  pub id : (c : Credential) → (f c).id ≡ c.id
  pub activates : (c : Credential) → (f c).activated_at ≡ at.activated
  pub rejects : (c : Credential) → (f c).rejected_at ≡ at.rejected
  pub revokes : (c : Credential) → (f c).revoked_at ≡ at.revoked

pub Stamper-Stamping :
    (at : Stamps) (f : Credential → Credential) (ts : List Credential)
    → Stamper at f
    → Stamping at (map f ts)
Stamper-Stamping at f [] s = record { activates = tt; rejects = tt; revokes = tt }
Stamper-Stamping at f (t ∷ ts) s =
    let rest = Stamper-Stamping at f ts s in
    record {
      activates = (s.activates t, rest.activates);
      rejects = (s.rejects t, rest.rejects);
      revokes = (s.revokes t, rest.revokes);
    }

bare_life :
    (at : Stamps) (r : Relations) (includes : List String) (c : Credential)
    → Lives
        (stamps (preload_by_includes r includes c))
        (restamped at (stamps (preload_by_includes r includes c)))
    → Lives (stamps c) (restamped at (stamps c))
unfolding preload_by_includes
bare_life at r includes c l = l

ok_inj : {A : Type 0} {a b : A} → Result.ok a ≡ ok b → a ≡ b
ok_inj h = ground arith

-- An update of the rows that a query fetched moves the table along, where each fetched row may take
-- the step.
pub fetched_update-Evolves :
    (at : Stamps) (f : Credential → Credential) (ids includes : List String) (db : Database)
    (targets : List Credential)
    → Stamper at f
    → find_by_ids ids includes db ≡ ok targets
    → All (λ t. Lives (stamps t) (restamped at (stamps t))) targets
    → Evolves db.rows (update_batch_case (map f targets) db.rows)
unfolding find_by_ids
fetched_update-Evolves at f ids includes db targets s found h =
    subst (λ us. Evolves db.rows (update_batch_case (map f us) db.rows)) (ok_inj found)
      (update_batch_case-Evolves at (map f ts) db.rows (Stamper-Stamping at f ts s) (
        All-map
          (λ c l k.
            bare_life at db.relations includes c
              (l (keys-select f ids includes db.relations db.rows c.id s.id k)))
          db.rows
          (select-All (λ t. Lives (stamps t) (restamped at (stamps t))) (λ c. contains ids c.id)
            db.relations includes db.rows
            (subst (All (λ t. Lives (stamps t) (restamped at (stamps t)))) (sym (ok_inj found))
              h))))
  where
    ts : List Credential
    ts = map (preload_by_includes db.relations includes) (select (λ c. contains ids c.id) db.rows)

abbrev pub unstamped : Stamps
unstamped = record { activated = none; rejected = none; revoked = none }

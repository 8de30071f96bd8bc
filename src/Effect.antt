-- ===== src/Effect.antt =====
-- Handlers as state passing over the outside world: the Postgres database, the chain with its
-- contracts, the River queue, the file storage and the Mongo collections, each of a type that the
-- program does not fix. The state comes back beside an error too, since only the database rolls back.
pub mod Pure
pub mod Laws
pub mod Keeps
use cred_chain_golang.Base.{
  ℕ, ◌+◌, ◌≡◌, refl, Bool, true, false, List, [], ◌∷◌, Option, none, some, arith,
}
use cred_chain_golang.Domain.Fault.{Error, panic, Result, ok, err}

pub record Backend : Type 1 where
  pub Db : Type 0
  pub Chain : Type 0
  pub Queue : Type 0
  pub Files : Type 0
  pub Cache : Type 0

-- `drawn` counts the ULIDs that were drawn.
pub record World (T : Backend) : Type 0 where
  pub db : T.Db
  pub chain : T.Chain
  pub queue : T.Queue
  pub files : T.Files
  pub cache : T.Cache
  pub drawn : ℕ

abbrev pub M : Backend → Type 0 → Type 0
M T A = World T → Result A × World T

abbrev pub continue {ℓ} :
    {W : Type ℓ} {A B : Type 0} → Result A → (A → W → Result B × W) → W → Result B × W
continue (ok a) f w = f a w
continue (err e) f w = (err e, w)

infixl 5 ◌>>=◌ ◌>>◌
abbrev pub ◌>>=◌ : {T : Backend} {A B : Type 0} → M T A → (A → M T B) → M T B
◌>>=◌ m f w = let (r, w') = m w in continue r f w'

abbrev pub ◌>>◌ : {T : Backend} {A B : Type 0} → M T A → M T B → M T B
m >> n = m >>= λ _. n

module _ {T : Backend} {A : Type 0} where
  abbrev pub pure : A → M T A
  pure a w = (ok a, w)

  abbrev pub raise : Error → M T A
  raise e w = (err e, w)

  abbrev pub lift : Result A → M T A
  lift r w = (r, w)

  abbrev pub read_db : (T.Db → Result A) → M T A
  read_db f w = (f w.db, w)

  abbrev pub read_chain : (T.Chain → Result A) → M T A
  read_chain f w = (f w.chain, w)

  abbrev pub read_files : (T.Files → Result A) → M T A
  read_files f w = (f w.files, w)

  abbrev pub read_cache : (T.Cache → Result A) → M T A
  read_cache f w = (f w.cache, w)

  abbrev pub on_db : (T.Db → Result A × T.Db) → M T A
  on_db f w = let (r, d) = f w.db in (r, record w { db = d })

  abbrev pub on_chain : (T.Chain → Result A × T.Chain) → M T A
  on_chain f w = let (r, c) = f w.chain in (r, record w { chain = c })

  abbrev pub on_queue : (T.Queue → Result A × T.Queue) → M T A
  on_queue f w = let (r, q) = f w.queue in (r, record w { queue = q })

  abbrev pub on_files : (T.Files → Result A × T.Files) → M T A
  on_files f w = let (r, q) = f w.files in (r, record w { files = q })

  abbrev pub on_cache : (T.Cache → Result A × T.Cache) → M T A
  on_cache f w = let (r, q) = f w.cache in (r, record w { cache = q })

  -- A failure that is logged and dropped.
  abbrev pub attempt : M T A → M T (Unit {0})
  attempt m w = (ok tt, (m w).1)

  -- What a failed handler does before it returns its error; a panic passes it by.
  abbrev pub clean_result : Result A → (Error → M T (Unit {0})) → M T A
  clean_result (ok a) f w = (ok a, w)
  clean_result (err panic) f w = (err panic, w)
  clean_result (err e) f w = (err e, (f e w).1)

  abbrev pub on_error : M T A → (Error → M T (Unit {0})) → M T A
  on_error m f w = let (r, w') = m w in clean_result r f w'

  settle : Result (Unit {0}) → A → T.Db → M T A
  settle (ok _) a before w = (ok a, w)
  settle (err e) a before w = (err e, record w { db = before })

  finish : (T.Db → Result (Unit {0})) → T.Db → Result A → M T A
  unfolding settle
  finish commit before (ok a) w = settle (commit w.db) a before w
  finish commit before (err e) w = (err e, record w { db = before })

  -- `GormUnitOfWork.Execute`: the body runs on the transaction's database, and is handed what is
  -- committed, which the repositories outside the unit of work read. An error of the body, of BEGIN
  -- or of COMMIT leaves the database as it was, and every other store as the body left it.
  unfoldable pub transaction :
      (T.Db → Result (Unit {0})) → (T.Db → Result (Unit {0})) → (T.Db → M T A) → M T A
  unfolding finish
  transaction begin commit body w =
      let (r, w') = body w.db w in
      elim (begin w.db) [ ok _ ↦ finish commit w.db r w' | err e ↦ (err e, w) ]

-- `for _, x := range xs { if err := f(x); err != nil { return err } }`
unfoldable pub each {ℓ} :
    {T : Backend} {A : Type ℓ} → (A → M T (Unit {0})) → List A → M T (Unit {0})
each f [] w = (ok tt, w)
each f (x ∷ xs) w = let (r, w') = f x w in elim r [ ok _ ↦ each f xs w' | err e ↦ (err e, w') ]

-- The same loop where the body touches nothing.
unfoldable pub check_all {ℓ} : {A : Type ℓ} → (A → Result (Unit {0})) → List A → Result (Unit {0})
check_all f [] = ok tt
check_all f (x ∷ xs) = elim (f x) [ ok _ ↦ check_all f xs | err e ↦ err e ]

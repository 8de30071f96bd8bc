-- ===== src/Effect/Laws.antt =====
-- The rules by which proofs about handlers take a unit of work and a loop apart.
use cred_chain_golang.Base.{◌≡◌, refl, List, [], ◌∷◌, All, arith, ◌⊎◌, inl, inr, ◌++◌, ap}
use cred_chain_golang.Domain.Fault.{panic, Error, Result, ok, err}
use cred_chain_golang.Effect.{
  clean_result, on_error, Backend, World, M, ◌>>=◌, continue, transaction, check_all,
}

pub Result-cases {ℓ} :
    {A : Type ℓ} (r : Result A) → ((a : A) × (r ≡ ok a)) ⊎ ((e : Error) × (r ≡ err e))
Result-cases (ok a) = inl (a, refl)
Result-cases (err e) = inr (e, refl)

module _ {T : Backend} {A : Type 0} (begin commit : T.Db → Result (Unit {0}))
    (body : T.Db → M T A) where
  -- A failed unit of work leaves the database untouched.
  pub transaction-err :
      (w w' : World T) (e : Error) → transaction begin commit body w ≡ (err e, w') → w'.db ≡ w.db
  unfolding transaction
  transaction-err w w' e h = ground arith

  -- A successful one began and committed, and is what its body did.
  pub transaction-ok :
      (w w' : World T) (a : A)
      → transaction begin commit body w ≡ (ok a, w')
      → (body w.db w ≡ (ok a, w')) × (begin w.db ≡ ok tt) × (commit w'.db ≡ ok tt)
  unfolding transaction
  transaction-ok w w' a h = ground arith

  -- Where the body fails, the other stores stay as the body left them.
  pub transaction_of_err :
      (w w' : World T) (e : Error)
      → begin w.db ≡ ok tt
      → body w.db w ≡ (err e, w')
      → transaction begin commit body w ≡ (err e, record w' { db = w.db })
  unfolding transaction
  transaction_of_err w w' e h k = ground arith

  pub transaction_of_ok :
      (w w' : World T) (a : A)
      → begin w.db ≡ ok tt
      → body w.db w ≡ (ok a, w')
      → commit w'.db ≡ ok tt
      → transaction begin commit body w ≡ (ok a, w')
  unfolding transaction
  transaction_of_ok w w' a h k c = ground arith

-- Only the database rolls back: the chain and the queue end as the body left them.
pub transaction-frame :
    {T : Backend} {A : Type 0} (begin commit : T.Db → Result (Unit {0})) (body : T.Db → M T A)
    (w : World T)
    → begin w.db ≡ ok tt
    → ((transaction begin commit body w).1.chain ≡ (body w.db w).1.chain)
      × ((transaction begin commit body w).1.queue ≡ (body w.db w).1.queue)
unfolding transaction
transaction-frame begin commit body w h = ground arith

-- The checks pass exactly when each of them passes.
pub check_all-ok {ℓ} :
    {A : Type ℓ} (f : A → Result (Unit {0})) (xs : List A)
    → check_all f xs ≡ ok tt
    → All (λ x. f x ≡ ok tt) xs
unfolding check_all
check_all-ok f [] h = tt
check_all-ok f (x ∷ xs) h = (ground arith, check_all-ok f xs (ground arith))

pub check_all_of_All {ℓ} :
    {A : Type ℓ} (f : A → Result (Unit {0})) (xs : List A)
    → All (λ x. f x ≡ ok tt) xs
    → check_all f xs ≡ ok tt
unfolding check_all
check_all_of_All f [] h = refl
check_all_of_All f (x ∷ xs) h = ground (arith, check_all_of_All f xs h.1)

-- The first element that fails decides the error.
pub check_all-err_first {ℓ} :
    {A : Type ℓ} (f : A → Result (Unit {0})) (xs : List A) (x : A) (ys : List A) (e : Error)
    → All (λ x. f x ≡ ok tt) xs
    → f x ≡ err e
    → check_all f (xs ++ x ∷ ys) ≡ err e
unfolding check_all
check_all-err_first f [] x ys e h k = ground arith
check_all-err_first f (z ∷ xs) x ys e h k = ground (arith, check_all-err_first f xs x ys e h.1)

-- What a `do` block that succeeded or failed says of its first step.
module _ {T : Backend} {A B : Type 0} (m : M T A) (f : A → M T B) (w w' : World T) where
  pub bind-ok :
      (b : B)
      → (m >>= f) w ≡ (ok b, w')
      → (a : A) × (m w ≡ (ok a, (m w).1)) × (f a (m w).1 ≡ (ok b, w'))
  bind-ok b h = split (m w).0 refl h
    where
      split :
          (r : Result A)
          → (m w).0 ≡ r
          → continue r f (m w).1 ≡ (ok b, w')
          → (a : A) × (m w ≡ (ok a, (m w).1)) × (f a (m w).1 ≡ (ok b, w'))
      split (ok a) e k = (a, cc, k)
      split (err x) e k = absurd (ground arith)

  pub bind-err :
      (e : Error)
      → (m >>= f) w ≡ (err e, w')
      → (m w ≡ (err e, w')) ⊎ ((a : A) × (m w ≡ (ok a, (m w).1)) × (f a (m w).1 ≡ (err e, w')))
  bind-err e h = split (m w).0 refl h
    where
      split :
          (r : Result A)
          → (m w).0 ≡ r
          → continue r f (m w).1 ≡ (err e, w')
          → (m w ≡ (err e, w')) ⊎ ((a : A) × (m w ≡ (ok a, (m w).1)) × (f a (m w).1 ≡ (err e, w')))
      split (ok a) q k = inr (a, cc, k)
      split (err x) q k = inl (ground arith)

continue-keeps :
    {T : Backend} {A B X : Type 0} (view : World T → X) (f : A → M T B)
    → ((a : A) (v : World T) → view (f a v).1 ≡ view v)
    → (r : Result A) (v : World T) → view (continue r f v).1 ≡ view v
continue-keeps view f keep (ok a) v = keep a v
continue-keeps view f keep (err e) v = refl

-- A view of the world that the later steps keep is the one that the first step left.
pub bind-keeps :
    {T : Backend} {A B X : Type 0} (view : World T → X) (m : M T A) (f : A → M T B) (w : World T)
    → ((a : A) (v : World T) → view (f a v).1 ≡ view v)
    → view ((m >>= f) w).1 ≡ view (m w).1
bind-keeps view m f w keep = continue-keeps view f keep (m w).0 (m w).1

-- A unit of work that is followed by steps which cannot fail.
module _ {T : Backend} {A B : Type 0} (begin commit : T.Db → Result (Unit {0}))
    (body : T.Db → M T A) (f : A → M T B) (w w' : World T) where
  pub transaction_then-err :
      (e : Error)
      → ((a : A) (v v' : World T) (x : Error) → f a v ≡ (err x, v') → ⊥)
      → (transaction begin commit body >>= f) w ≡ (err e, w')
      → w'.db ≡ w.db
  transaction_then-err e never h =
      let m = transaction begin commit body in
      elim (bind-err m f w w' e h) [
        | inl failed ↦ transaction-err begin commit body w w' e failed
        | inr (a, run, rest) ↦ absurd (never a (m w).1 w' e rest)
      ]

  pub transaction_then-ok :
      (b : B)
      → (transaction begin commit body >>= f) w ≡ (ok b, w')
      → (a : A) × (v : World T) × (body w.db w ≡ (ok a, v)) × (f a v ≡ (ok b, w'))
  transaction_then-ok b h =
      let m = transaction begin commit body in
      let (a, run, rest) = bind-ok m f w w' b h in
      (a, (m w).1, (transaction-ok begin commit body w (m w).1 a run).0, rest)

clean_result-err :
    {T : Backend} {A : Type 0} (f : Error → M T (Unit {0})) (r : Result A) (e : Error)
    (w w' : World T)
    → clean_result r f w ≡ (err e, w')
    → (r ≡ err e) × ((w' ≡ w) ⊎ (w' ≡ (f e w).1))
clean_result-err f (ok a) e w w' h = absurd (ground arith)
clean_result-err f (err panic) e w w' h = (ground arith, inl (ground arith))
clean_result-err f (err x) e w w' h = (ground arith, inr (ground arith))

module _ {T : Backend} {A : Type 0} (m : M T A) (f : Error → M T (Unit {0})) (w w' : World T) where
  -- A failed step with its clean-up: the error is the step's.
  pub on_error-err :
      (e : Error)
      → on_error m f w ≡ (err e, w')
      → (m w ≡ (err e, (m w).1)) × ((w' ≡ (m w).1) ⊎ (w' ≡ (f e (m w).1).1))
  on_error-err e h = let p = clean_result-err f (m w).0 e (m w).1 w' h in (ground arith, p.1)

  pub on_error-ok : (a : A) → on_error m f w ≡ (ok a, w') → m w ≡ (ok a, w')
  on_error-ok a h = split (m w).0 refl h
    where
      split :
          (r : Result A) → (m w).0 ≡ r → clean_result r f (m w).1 ≡ (ok a, w') → m w ≡ (ok a, w')
      split (ok b) e k = ground arith
      split (err panic) e k = absurd (ground arith)
      split (err x) e k = absurd (ground arith)

module _ {T : Backend} {A B : Type 0} (m : M T A) (f : A → M T B) (w v : World T) where
  pub bind_of_ok : (a : A) → m w ≡ (ok a, v) → (m >>= f) w ≡ f a v
  bind_of_ok a h = ap (λ (p : Result A × World T). continue p.0 f p.1) h

  pub bind_of_err : (e : Error) → m w ≡ (err e, v) → (m >>= f) w ≡ (err e, v)
  bind_of_err e h = ap (λ (p : Result A × World T). continue p.0 f p.1) h

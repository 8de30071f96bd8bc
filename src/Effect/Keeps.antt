-- ===== src/Effect/Keeps.antt =====
-- A relation between the database before and after a handler, followed through the steps of the
-- handler, whatever each step returns.
use cred_chain_golang.Base.{◌≡◌, sym, List, [], ◌∷◌, inl, inr, sym}
use cred_chain_golang.Effect.Laws.{transaction-ok, transaction-err}
use mathlib.Core.Path.{subst}
use cred_chain_golang.Domain.Fault.{Error, panic, Result, ok, err}
use cred_chain_golang.Effect.{
  Backend, World, M, each, on_error, clean_result, transaction, ◌>>=◌, continue,
}
use cred_chain_golang.Effect.Laws.{Result-cases}

-- A relation that every prefix of a run may be cut at.
pub record IsPreorder {ℓ} {A : Type ℓ} (R : A → A → Type 0) : Type ℓ where
  pub id : (a : A) → R a a
  pub then : (a b c : A) → R a b → R b c → R a c

module _ {T : Backend} (R : T.Db → T.Db → Type 0) (P : IsPreorder R) where
  abbrev pub Keeps : {A : Type 0} → M T A → World T → Type 0
  Keeps m w = R w.db (m w).1.db

  pub bind-Keeps :
      {A B : Type 0} (m : M T A) (f : A → M T B) (w : World T)
      → Keeps m w
      → ((a : A) → m w ≡ (ok a, (m w).1) → Keeps (f a) (m w).1)
      → Keeps (m >>= f) w
  bind-Keeps m f w h k = elim (Result-cases (m w).0) [
    | inr (e, q) ↦ subst (λ r. R w.db (continue r f (m w).1).1.db) (sym q) h
    | inl (a, q) ↦
        subst (λ r. R w.db (continue r f (m w).1).1.db) (sym q)
          (P.then w.db (m w).1.db (f a (m w).1).1.db h (k a cc))
  ]

  -- A unit of work keeps what its body keeps where it succeeds.
  pub transaction-Keeps :
      {A : Type 0} (begin commit : T.Db → Result (Unit {0})) (body : T.Db → M T A) (w : World T)
      → ((a : A) (v : World T) → body w.db w ≡ (ok a, v) → R w.db v.db)
      → Keeps (transaction begin commit body) w
  transaction-Keeps begin commit body w h =
      let out = transaction begin commit body w in
      elim (Result-cases out.0) [
        | inl (a, q) ↦ h a out.1 (transaction-ok begin commit body w out.1 a cc).0
        | inr (e, q) ↦
            subst (λ d. R w.db d) (sym (transaction-err begin commit body w out.1 e cc)) (P.id w.db)
      ]

  pub each-Keeps :
      {A : Type 0} (f : A → M T (Unit {0})) (xs : List A) (w : World T)
      → ((a : A) (v : World T) → Keeps (f a) v)
      → Keeps (each f xs) w
  unfolding each
  each-Keeps f [] w h = P.id w.db
  each-Keeps f (x ∷ xs) w h = elim (Result-cases (f x w).0) [
    | inl (a, q) ↦
        subst (λ r. R w.db (next r).1.db) (sym q)
          (P.then w.db (f x w).1.db (each f xs (f x w).1).1.db (h x w)
            (each-Keeps f xs (f x w).1 h))
    | inr (e, q) ↦ subst (λ r. R w.db (next r).1.db) (sym q) (h x w)
  ]
    where
      next : Result (Unit {0}) → Result (Unit {0}) × World T
      next r = elim r [ ok _ ↦ each f xs (f x w).1 | err e ↦ (err e, (f x w).1) ]

  clean_result-Keeps :
      {A : Type 0} (r : Result A) (f : Error → M T (Unit {0})) (w : World T)
      → ((e : Error) (v : World T) → Keeps (f e) v)
      → R w.db (clean_result r f w).1.db
  clean_result-Keeps (ok a) f w h = P.id w.db
  clean_result-Keeps (err panic) f w h = P.id w.db
  clean_result-Keeps (err e) f w h = h e w

  pub on_error-Keeps :
      {A : Type 0} (m : M T A) (f : Error → M T (Unit {0})) (w : World T)
      → Keeps m w
      → ((e : Error) (v : World T) → Keeps (f e) v)
      → Keeps (on_error m f) w
  on_error-Keeps m f w h k =
      P.then w.db (m w).1.db (on_error m f w).1.db h (clean_result-Keeps (m w).0 f (m w).1 k)

-- ===== src/Auth/Rows.antt =====
-- What the statements of feature/user/gorm_user_token_repository.go do to the rows: the unique indexes
-- stay satisfied, a text stays with its row, and a revocation is not taken back.
use cred_chain_golang.Base.{
  ◌≡◌, ◌≢◌, inl, inr, refl, true, String, List, [], ◌∷◌, ◌++◌, map, none, arith, eq_iff, Bool-cases,
  ◌==◌, sym, ap, ◌∙◌, All, All-map,
}
use mathlib.Core.Path.{subst}
use cred_chain_golang.Domain.Clock.{Time}
use cred_chain_golang.Domain.Fault.{ok}
use cred_chain_golang.Sql.{select}
use cred_chain_golang.Auth.{UserToken}
use cred_chain_golang.Auth.Tokens
use cred_chain_golang.Auth.Tokens.{first_row, revoked_where, is_unique, is_fresh, is_of}

-- A row later on: its text is the same, and a revocation is not taken back.
pub record Keeps (t u : UserToken) : Type 0 where
  pub token : u.token ≡ t.token
  pub spent : t.revoked_at ≢ none → u.revoked_at ≢ none

-- The rows in their places, and new ones behind them.
abbrev pub Evolves : List UserToken → List UserToken → Type 0
Evolves [] us = Unit
Evolves (t ∷ ts) [] = ⊥
Evolves (t ∷ ts) (u ∷ us) = Keeps t u × Evolves ts us

pub Keeps-refl : (t : UserToken) → Keeps t t
Keeps-refl t = record { token = refl; spent = λ n. n }

pub Evolves-refl : (ts : List UserToken) → Evolves ts ts
Evolves-refl [] = tt
Evolves-refl (t ∷ ts) = (Keeps-refl t, Evolves-refl ts)

pub Evolves-trans : (ts us vs : List UserToken) → Evolves ts us → Evolves us vs → Evolves ts vs
Evolves-trans [] us vs e f = tt
Evolves-trans (t ∷ ts) [] vs e f = absurd e
Evolves-trans (t ∷ ts) (u ∷ us) [] e f = absurd f
Evolves-trans (t ∷ ts) (u ∷ us) (v ∷ vs) e f = (
  record { token = f.0.token ∙ e.0.token; spent = λ n. f.0.spent (e.0.spent n) },
  Evolves-trans ts us vs e.1 f.1,
)

pub Evolves-append : (ts us : List UserToken) → Evolves ts (ts ++ us)
Evolves-append [] us = tt
Evolves-append (t ∷ ts) us = (Keeps-refl t, Evolves-append ts us)

pub Evolves-map :
    (f : UserToken → UserToken)
    → ((t : UserToken) → Keeps t (f t))
    → (ts : List UserToken) → Evolves ts (map f ts)
Evolves-map f k [] = tt
Evolves-map f k (t ∷ ts) = (k t, Evolves-map f k ts)

pub Evolves-All :
    (f : UserToken → UserToken) (ts : List UserToken)
    → All (λ t. Keeps t (f t)) ts
    → Evolves ts (map f ts)
Evolves-All f [] h = tt
Evolves-All f (t ∷ ts) h = (h.0, Evolves-All f ts h.1)

-- A text that a revoked row has is found revoked for good.
pub spent_text :
    (text : String) (ts us : List UserToken) (t u : UserToken)
    → Evolves ts us
    → first_row (select (λ x. x.token == text) ts) ≡ ok t
    → t.revoked_at ≢ none
    → first_row (select (λ x. x.token == text) us) ≡ ok u
    → u.revoked_at ≢ none
unfolding select
spent_text text [] us t u e h n k = absurd (ground arith)
spent_text text (x ∷ ts) [] t u e h n k = absurd e
spent_text text (x ∷ ts) (y ∷ us) t u e h n k = elim (Bool-cases (x.token == text)) [
  | inl q ↦
      let was : t ≡ x = ground arith in
      let now : y ≡ u = ground (arith, e.0.token) in
      subst (λ (z : UserToken). z.revoked_at ≢ none) now
        (e.0.spent (subst (λ (z : UserToken). z.revoked_at ≢ none) was n))
  | inr q ↦ spent_text text ts us t u e.1 (ground arith) n (ground (arith, e.0.token))
]

-- The row that is found by its text is the only one of its id.
fresh-ids :
    (t : UserToken) (us : List UserToken)
    → is_fresh t us ≡ true
    → All (λ u. (t.id ≢ u.id) × (t.token ≢ u.token)) us
unfolding is_fresh
fresh-ids t [] h = tt
fresh-ids t (u ∷ us) h = (
  (λ e. ground (arith, eq_iff t.id u.id), λ e. ground (arith, eq_iff t.token u.token)),
  fresh-ids t us (ground arith),
)

fresh_of_All :
    (t : UserToken) (us : List UserToken)
    → All (λ u. (t.id ≢ u.id) × (t.token ≢ u.token)) us
    → is_fresh t us ≡ true
unfolding is_fresh
fresh_of_All t [] h = refl
fresh_of_All t (u ∷ us) h =
    ground (arith, eq_iff t.id u.id, eq_iff t.token u.token, fresh_of_All t us h.1, h.0)

first_fresh :
    (text : String) (ts : List UserToken) (x t : UserToken)
    → first_row (select (λ u. u.token == text) ts) ≡ ok t
    → All (λ u. (x.id ≢ u.id) × (x.token ≢ u.token)) ts
    → x.id ≢ t.id
unfolding select
first_fresh text [] x t h f = absurd (ground arith)
first_fresh text (u ∷ us) x t h f = elim (Bool-cases (u.token == text)) [
  | inl q ↦ let same : u ≡ t = ground arith in subst (λ (z : UserToken). x.id ≢ z.id) same f.0.0
  | inr q ↦ first_fresh text us x t (ground arith) f.1
]

pub same_ids :
    (text : String) (ts : List UserToken) (t : UserToken)
    → is_unique ts ≡ true
    → first_row (select (λ u. u.token == text) ts) ≡ ok t
    → All (λ u. u.id ≡ t.id → u ≡ t) ts
unfolding is_unique select
same_ids text [] t u h = tt
same_ids text (x ∷ ts) t u h =
    let fresh = fresh-ids x ts (ground arith) in
    elim (Bool-cases (x.token == text)) [
      | inl q ↦
          let same : x ≡ t = ground arith in
          (
            λ _. same,
            All-map (λ p n k. absurd (n.0 (ap (λ (z : UserToken). z.id) same ∙ sym k))) ts fresh,
          )
      | inr q ↦
          let found : first_row (select (λ u. u.token == text) ts) ≡ ok t = ground arith in
          (
            λ k. absurd (first_fresh text ts x t found fresh k),
            same_ids text ts t (ground arith) found,
          )
    ]

pub revoked_where-same :
    (now : Time) (user_id type : String) (t : UserToken)
    → let u = revoked_where now user_id type t in
      (u.id ≡ t.id) × (u.token ≡ t.token) × (t.revoked_at ≢ none → u.revoked_at ≢ none)
unfolding revoked_where
revoked_where-same now user_id type t = elim (Bool-cases (is_of user_id type t)) [
  | inl q ↦ (ground arith, ground arith, λ n k. ground arith)
  | inr q ↦ (ground arith, ground arith, λ n k. ground arith)
]

revoked-fresh :
    (now : Time) (user_id type : String) (t : UserToken) (us : List UserToken)
    → is_fresh t us ≡ true
    → is_fresh (revoked_where now user_id type t) (map (revoked_where now user_id type) us) ≡ true
unfolding is_fresh
revoked-fresh now user_id type t [] h = refl
revoked-fresh now user_id type t (u ∷ us) h = ground (
  arith,
  revoked-fresh now user_id type t us,
  revoked_where-same now user_id type t,
  revoked_where-same now user_id type u,
)

pub revoked_unique :
    (now : Time) (user_id type : String) (ts : List UserToken)
    → is_unique ts ≡ true
    → is_unique (map (revoked_where now user_id type) ts) ≡ true
unfolding is_unique
revoked_unique now user_id type [] h = refl
revoked_unique now user_id type (t ∷ ts) h =
    ground (arith, revoked_unique now user_id type ts, revoked-fresh now user_id type t ts)

-- Where a row's text is found and its row becomes spent, the text is found spent.
pub spent_after_map :
    (f : UserToken → UserToken) (text : String) (ts : List UserToken) (t : UserToken)
    → All (λ x. Keeps x (f x)) ts
    → (f t).revoked_at ≢ none
    → first_row (select (λ x. x.token == text) ts) ≡ ok t
    → (u : UserToken) × (first_row (select (λ x. x.token == text) (map f ts)) ≡ ok u)
      × (u.revoked_at ≢ none)
unfolding select
spent_after_map f text [] t k n h = absurd (ground arith)
spent_after_map f text (x ∷ ts) t k n h = elim (Bool-cases (x.token == text)) [
  | inl q ↦
      let same : t ≡ x = ground arith in
      (f x, ground (arith, k.0.token), subst (λ (z : UserToken). (f z).revoked_at ≢ none) same n)
  | inr q ↦
      let (u, found, spent) = spent_after_map f text ts t k.1 n (ground arith) in
      (u, ground (arith, k.0.token), spent)
]

-- A text that is found spent is not found fresh later.
pub find_spent :
    (text : String) (ts us : List UserToken) (t u : UserToken)
    → Evolves ts us
    → Tokens.find_by_token text ts ≡ ok t
    → t.revoked_at ≢ none
    → Tokens.find_by_token text us ≡ ok u
    → u.revoked_at ≡ none
    → ⊥
unfolding Tokens.find_by_token
find_spent text ts us t u e h n k z = spent_text text ts us t u e h n k z

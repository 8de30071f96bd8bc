-- ===== src/Auth/Reuse.antt =====
-- A refresh token is used once, feature/auth/auth_service.go.
use cred_chain_golang.Base.{inl, inr, ◌≡◌, ◌∷◌, String, List, none, arith, true, sym, []}
use mathlib.Core.Path.{subst}
use cred_chain_golang.Domain.Clock.{Time}
use cred_chain_golang.Domain.Fault.{Error, ok, err}
use cred_chain_golang.Effect.Laws.{Result-cases}
use cred_chain_golang.Effect.{Backend, World}
use cred_chain_golang.Auth.{UserToken, AuthService, Session, refresh, token_guard}
use cred_chain_golang.Auth.Tokens.{is_unique}
use cred_chain_golang.Auth.Sessions.{
  IsBacked, Request, serve_all, update-spends, spent_row, spent-Advances, Advances-trans, Advances,
  stored-Advances, serve_all-Advances,
}
use cred_chain_golang.Auth.Writes.{refresh-run}
use cred_chain_golang.Auth.Rows.{find_spent}

token_guard-ok : (now : Time) (t : UserToken) → token_guard now t ≡ ok tt → t.revoked_at ≡ none
unfolding token_guard
token_guard-ok now t h = ground arith

module _ {T : Backend} (s : AuthService T) (view : T.Db → List UserToken)
    (law : IsBacked s view) where
  -- Two successes with one text, which the table rules out.
  refresh_twice :
      (now later again last : Time) (text : String) (w w' v : World T) (out out' : Session)
      (qs : List Request)
      → is_unique (view w.db) ≡ true
      → refresh s now later text w ≡ (ok out, w')
      → refresh s again last text (serve_all s qs w') ≡ (ok out', v)
      → ⊥
  refresh_twice now later again last text w w' v out out' qs uniq h k =
      let (t, u, fresh, d, found, guard, user, wrote, stored, owner) =
        refresh-run s now later text w w' out h in
      let (t', u', fresh', d', found', guard', user', wrote', stored', owner') =
        refresh-run s again last text (serve_all s qs w') v out' k in
      let (r, there, spent) =
        update-spends later text t u (view w.db) (view d) uniq (law.find_by_token text w.db t found)
          (law.update_ok (spent_row later t) u w.db d wrote) in
      let end = (serve_all s qs w').db in
      let unique : is_unique (view d) ≡ true =
        (spent-Advances s view law later text t u w.db d found wrote uniq).0 in
      let path =
        Advances-trans s view law d w'.db end
          (subst (Advances s view law d) (sym stored) (stored-Advances s view law (fresh ∷ []) d))
          (serve_all-Advances s view law qs w') in
      find_spent text (view d) (view end) r t' (path unique).1 there spent
        (law.find_by_token text end t' found') (token_guard-ok again t' guard')

  -- From a table that satisfies its unique indexes: once a refresh with a token's text has succeeded,
  -- a refresh with that text fails, whatever logins, refreshes and logouts are served in between, one
  -- after another, and whatever comes of each.
  pub refresh_once :
      (now later again last : Time) (text : String) (w w' : World T) (out : Session)
      (qs : List Request)
      → is_unique (view w.db) ≡ true
      → refresh s now later text w ≡ (ok out, w')
      → (e : Error) × ((refresh s again last text (serve_all s qs w')).0 ≡ err e)
  refresh_once now later again last text w w' out qs uniq h =
      let m = refresh s again last text (serve_all s qs w') in
      elim (Result-cases m.0) [
        | inr (e, q) ↦ (e, q)
        | inl (out', q) ↦
            absurd (refresh_twice now later again last text w w' m.1 out out' qs uniq h cc)
      ]

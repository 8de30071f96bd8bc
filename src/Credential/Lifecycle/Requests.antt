-- ===== src/Credential/Lifecycle/Requests.antt =====
-- Sequences of requests to feature/credential/credential_service.go, with the edits of
-- feature/credential/credential_request.go: what they do to the credentials table in the long run.
use cred_chain_golang.Base.{
  ◌≡◌, refl, ℕ, String, List, [], ◌∷◌, map, arith, none, some, Option, get_elem?, if◌then◌else◌,
  ◌==◌,
}
use cred_chain_golang.Domain.Clock.{Time}
use cred_chain_golang.Domain.User.{User}
use cred_chain_golang.Domain.Credential.{Credential, CredentialStatus, empty_credential, status}
use cred_chain_golang.Effect.{Backend, World}
use cred_chain_golang.Credential.Ports.{CredentialService}
use cred_chain_golang.Credential.Table.{Database}
use cred_chain_golang.Credential.Review.{
  CredentialRejection, CredentialRevocation, approve, reject, revoke,
}
use cred_chain_golang.Credential.Intake.{issue, submit}
use cred_chain_golang.Credential.Intake.Validate.{CredentialIssuance, CredentialSubmission}
use cred_chain_golang.Credential.Maintain.{re_extract, link_competencies, update as edit}
use cred_chain_golang.Credential.Lifecycle.{
  Evolves, AreCoherent, Evolves-AreCoherent, Evolves-at, Lives-rejected, Lives-revoked, stamps,
  Lives,
}
use cred_chain_golang.Credential.Lifecycle.Patches.{Stamping, unstamped}
use cred_chain_golang.Credential.Lifecycle.Backing.{IsBacked, Advances, Advances-IsPreorder}
use cred_chain_golang.Credential.Lifecycle.Decisions.{
  approve-Advances, reject-Advances, revoke-Advances,
}
use cred_chain_golang.Credential.Lifecycle.Upkeep.{
  update-Advances, re_extract-Advances, link-Advances,
}
use cred_chain_golang.Credential.Lifecycle.Intakes.{issue-Advances, submit-Advances}

-- CredentialUpdateInput, without its `meta`.
pub record CredentialUpdateInput : Type 0 where
  pub id : String
  pub name : Option String
  pub number : Option String
  pub type_id : Option String
  pub issuer_organization_id : Option String
  pub issued_at : Option String
  pub expires_at : Option String

abbrev text_or_empty : Option String → String
text_or_empty none = ""
text_or_empty (some text) = text

-- `time.Parse("2006-01-02", s)`, with `none` for its error, is `parse`.
unfoldable pub parse_date_ptr : (String → Option Time) → Option String → Option Time
parse_date_ptr parse none = none
parse_date_ptr parse (some text) = if text == "" then none else parse text

abbrev zero_or : Option Time → Time
zero_or none = 0
zero_or (some t) = t

unfoldable pub to_domain : (String → Option Time) → CredentialUpdateInput → Credential
unfolding parse_date_ptr
to_domain parse n = record empty_credential {
  id = n.id;
  name = text_or_empty n.name;
  number = n.number;
  type_id = text_or_empty n.type_id;
  issuer_organization_id = text_or_empty n.issuer_organization_id;
  issued_at = zero_or (parse_date_ptr parse n.issued_at);
  expires_at = parse_date_ptr parse n.expires_at;
}

to_domain-Stamping :
    (parse : String → Option Time) (ns : List CredentialUpdateInput)
    → Stamping unstamped (map (to_domain parse) ns)
unfolding to_domain
to_domain-Stamping parse [] = record { activates = tt; rejects = tt; revokes = tt }
to_domain-Stamping parse (n ∷ ns) =
    let rest = to_domain-Stamping parse ns in
    record {
      activates = (refl, rest.activates);
      rejects = (refl, rest.rejects);
      revokes = (refl, rest.revokes);
    }

-- A request to the service, with its user and the times at which it reads the clock.
pub data Request : Type 0 where
  issuing : User → Time → List CredentialIssuance → Request
  submitting : User → Time → List CredentialSubmission → Request
  approving : User → Time → List String → Request
  rejecting : User → Time → List CredentialRejection → Request
  revoking : User → Time → List CredentialRevocation → Request
  editing : Time → List CredentialUpdateInput → Request
  extracting_again : Time → Time → List String → Request
  linking : String → List String → Request

-- The two statuses from which no request leads on.
unfoldable pub IsClosed : CredentialStatus → Type 0
IsClosed CredentialStatus.rejected = Unit
IsClosed CredentialStatus.revoked = Unit
IsClosed _ = ⊥

status-same :
    (now later : Time) (c d : Credential)
    → IsClosed (status now c)
    → stamps d ≡ stamps c
    → status later d ≡ status now c
unfolding status IsClosed
status-same now later c d h e = ground arith

status-closed :
    (now later : Time) (c d : Credential)
    → IsClosed (status now c)
    → Lives (stamps c) (stamps d)
    → status later d ≡ status now c
unfolding status IsClosed
status-closed now later c d h l = split c.revoked_at c.rejected_at refl refl
  where
    split :
        (v r : Option Time) → c.revoked_at ≡ v → c.rejected_at ≡ r → status later d ≡ status now c
    split (some t) r e k = status-same now later c d h (Lives-revoked l (λ z. ground arith))
    split none (some t) e k = status-same now later c d h (Lives-rejected l (λ z. ground arith))
    split none none e k = absurd (ground arith)

module _ {T : Backend} (s : CredentialService T) (parse : String → Option Time) where
  unfoldable pub serve : Request → World T → World T
  serve (issuing auth now items) w = (issue s auth now items w).1
  serve (submitting auth now items) w = (submit s auth now items w).1
  serve (approving auth now ids) w = (approve s auth now ids w).1
  serve (rejecting auth now rs) w = (reject s auth now rs w).1
  serve (revoking auth now rs) w = (revoke s auth now rs w).1
  serve (editing now ns) w = (edit s now (map (to_domain parse) ns) w).1
  serve (extracting_again now later ids) w = (re_extract s now later ids w).1
  serve (linking id ids) w = (link_competencies s id ids w).1

  -- One request after another, each with whatever came of those before.
  unfoldable pub serve_all : List Request → World T → World T
  unfolding serve
  serve_all [] w = w
  serve_all (q ∷ qs) w = serve_all qs (serve q w)

  module _ (view : T.Db → Database) (law : IsBacked s view) where
    serve-Advances : (q : Request) (w : World T) → Advances s view law w.db (serve q w).db
    unfolding serve
    serve-Advances (issuing auth now items) w = issue-Advances s view law auth now items w
    serve-Advances (submitting auth now items) w = submit-Advances s view law auth now items w
    serve-Advances (approving auth now ids) w = approve-Advances s view law auth now ids w
    serve-Advances (rejecting auth now rs) w = reject-Advances s view law auth now rs w
    serve-Advances (revoking auth now rs) w = revoke-Advances s view law auth now rs w
    serve-Advances (editing now ns) w =
        update-Advances s view law now (map (to_domain parse) ns) w (to_domain-Stamping parse ns)
    serve-Advances (extracting_again now later ids) w =
        re_extract-Advances s view law now later ids w
    serve-Advances (linking id ids) w = link-Advances s view law id ids w

    -- Whatever requests are served, and whatever comes of each, the credentials table only grows at
    -- its end, and each row that it had keeps its place, its id, its holder and its file and moves
    -- along the lifecycle: a pending row is approved or rejected, an approved one revoked, and
    -- nothing else.
    pub serve_all-Evolves :
        (qs : List Request) (w : World T) → Evolves (view w.db).rows (view (serve_all qs w).db).rows
    unfolding serve_all
    serve_all-Evolves [] w = (Advances-IsPreorder s view law).id w.db
    serve_all-Evolves (q ∷ qs) w =
        (Advances-IsPreorder s view law).then w.db (serve q w).db (serve_all qs (serve q w)).db
          (serve-Advances q w) (serve_all-Evolves qs (serve q w))

    -- Whatever requests are served, a table in which no row is approved and rejected, and each
    -- revoked row is approved, stays one, the rows that were added included.
    pub serve_all-AreCoherent :
        (qs : List Request) (w : World T)
        → AreCoherent (view w.db).rows
        → AreCoherent (view (serve_all qs w).db).rows
    serve_all-AreCoherent qs w h =
        Evolves-AreCoherent (view w.db).rows (view (serve_all qs w).db).rows
          (serve_all-Evolves qs w) h

    -- A credential whose status is rejected or revoked has that status at every later time, after
    -- whatever requests: the row in its place has its id, its holder, its file and its status.
    pub closed_forever :
        (qs : List Request) (w : World T) (i : ℕ) (c : Credential) (now later : Time)
        → get_elem? (view w.db).rows i ≡ some c
        → IsClosed (status now c)
        → (d : Credential) × (get_elem? (view (serve_all qs w).db).rows i ≡ some d)
          × (d.id ≡ c.id)
          × (d.holder_user_id ≡ c.holder_user_id)
          × (d.file_hash ≡ c.file_hash)
          × (status later d ≡ status now c)
    closed_forever qs w i c now later at closed =
        let (d, there, f) =
          Evolves-at (view w.db).rows (view (serve_all qs w).db).rows i c (serve_all-Evolves qs w)
            at in
        (d, there, f.id, f.holder, f.file, status-closed now later c d closed f.life)

    -- Whatever requests are served, the revocations among them included, the row in each place has the
    -- revocation reason that it had: the reason that a revocation gives is never stored.
    pub revocation_reason_lost :
        (qs : List Request) (w : World T) (i : ℕ) (c : Credential)
        → get_elem? (view w.db).rows i ≡ some c
        → (d : Credential) × (get_elem? (view (serve_all qs w).db).rows i ≡ some d)
          × (d.id ≡ c.id)
          × (d.revocation_reason ≡ c.revocation_reason)
    revocation_reason_lost qs w i c at =
        let (d, there, f) =
          Evolves-at (view w.db).rows (view (serve_all qs w).db).rows i c (serve_all-Evolves qs w)
            at in
        (d, there, f.id, f.reason)

-- ===== src/Credential/Intake/Prepare.antt =====
-- issuePrepareCredentials and submitPrepareCredentials of feature/credential/credential_service.go:
-- the file of each item is encrypted and saved under a fresh name, and the row is built.
use cred_chain_golang.Base.{
  ◌*◌, ◌+◌, String, List, [], ◌∷◌, Option, none, some, if◌then◌else◌, ◌==◌,
}
use Prim.Native.String.{◌++◌}
use cred_chain_golang.Domain.Clock.{Time}
use cred_chain_golang.Domain.Fault.{
  Code, domain, panic, Result, ok, err, issue_storage_failed, submit_storage_failed,
}
use cred_chain_golang.Domain.User.{User}
use cred_chain_golang.Domain.Credential.{Credential, empty_credential}
use cred_chain_golang.Effect.{Backend, M, ◌>>=◌, ◌>>◌, pure, lift}
use cred_chain_golang.Credential.Ports.{CredentialService}
use cred_chain_golang.Credential.Intake.Validate.{CredentialIssuance, CredentialSubmission}

abbrev time_or : Time → Option Time → Time
time_or now none = now
time_or now (some t) = t

-- `*it.IssuedAt` of a submission that has none is a nil dereference.
unfoldable pub require_time : Option Time → Result Time
require_time none = err panic
require_time (some t) = ok t

module _ {T : Backend} (s : CredentialService T) where
  -- `ulid.Make().String()`
  unfoldable pub draw : M T String
  draw w = (ok (s.ulid w.drawn), record w { drawn = w.drawn + 1 })

  abbrev extension : String → String
  extension filename =
      if s.storage.lower_ext filename == "" then ".bin" else s.storage.lower_ext filename

  abbrev encrypted : Code → String → Result String
  encrypted code bytes = elim (s.storage.encrypt bytes) [
    | ok text ↦ ok text
    | err e ↦ err (domain code [])
  ]

  abbrev saved : Code → String → String → M T (Unit {0})
  saved code text path w =
      let (r, f) = s.storage.save_bytes text path w.files in
      (elim r [ ok _ ↦ ok tt | err e ↦ err (domain code []) ], record w { files = f })

  -- The name under which the encrypted file is stored.
  unfoldable pub store_file : Code → String → String → M T String
  unfolding draw
  store_file code filename bytes = do
    text ← lift (encrypted code bytes)
    name ← draw
    saved code text (s.storage.join_path (name ++ extension filename))
    pure (name ++ extension filename)

  -- The three readings of the clock for an item, `issuedAt`, `enqueuedAt` and the activation, are numbered
  -- by the ULIDs drawn before the item, of which each item draws two.
  unfoldable pub readings : M T (Time × Time × Time)
  readings w = (ok (s.clock (3 * w.drawn), s.clock (3 * w.drawn + 1), s.clock (3 * w.drawn + 2)), w)

  -- Direct issuance is approved at creation, by the officer who issues.
  unfoldable pub issuance_row :
      User → (Time × Time × Time) → CredentialIssuance → String → String → Credential
  issuance_row auth (issued, enqueued, activated) it uri id = record empty_credential {
    id = id;
    holder_user_id = it.holder_user_id;
    submitter_user_id = auth.id;
    issuer_user_id = some auth.id;
    issuer_organization_id = it.issuer_organization_id;
    type_id = it.type_id;
    number = it.number;
    name = it.name;
    file_hash = s.storage.keccak_hex it.file_bytes;
    file_uri = some uri;
    extract_enqueued_at = some enqueued;
    issued_at = time_or issued it.issued_at;
    expires_at = it.expires_at;
    activated_at = some activated;
  }

  unfoldable pub issue_prepare_one : User → CredentialIssuance → M T Credential
  unfolding store_file draw readings
  issue_prepare_one auth it = do
    times ← readings
    uri ← store_file issue_storage_failed it.filename it.file_bytes
    id ← draw
    pure (issuance_row auth times it uri id)

  -- A submission has no issuer and no activation until it is approved.
  unfoldable pub submission_row : User → CredentialSubmission → String → String → Time → Credential
  submission_row auth it uri id issued_at = record empty_credential {
    id = id;
    holder_user_id = auth.id;
    submitter_user_id = auth.id;
    issuer_organization_id = it.issuer_organization_id;
    type_id = it.type_id;
    number = it.number;
    name = it.name;
    file_hash = s.storage.keccak_hex it.file_bytes;
    file_uri = some uri;
    issued_at = issued_at;
    expires_at = it.expires_at;
  }

  unfoldable pub submit_prepare_one : User → CredentialSubmission → M T Credential
  unfolding store_file draw require_time
  submit_prepare_one auth it = do
    uri ← store_file submit_storage_failed it.filename it.file_bytes
    id ← draw
    issued_at ← lift (require_time it.issued_at)
    pure (submission_row auth it uri id issued_at)

-- The loop over the items, which stops at the first error.
unfoldable pub collect : {T : Backend} {A B : Type 0} → (A → M T B) → List A → M T (List B)
collect f [] w = (ok [], w)
collect f (x ∷ xs) w =
    let (r, w') = f x w in
    elim r [
      | err e ↦ (err e, w')
      | ok b ↦
          let (rs, v) = collect f xs w' in elim rs [ err e ↦ (err e, v) | ok bs ↦ (ok (b ∷ bs), v) ]
    ]

module _ {T : Backend} (s : CredentialService T) where
  unfoldable pub issue_prepare : User → List CredentialIssuance → M T (List Credential)
  unfolding collect issue_prepare_one
  issue_prepare auth = collect (issue_prepare_one s auth)

  unfoldable pub submit_prepare : User → List CredentialSubmission → M T (List Credential)
  unfolding collect submit_prepare_one
  submit_prepare auth = collect (submit_prepare_one s auth)

-- ===== src/Domain/Credential.antt =====
-- domain/credential.go: the credential row and the two lifecycles that are derived from its time
-- stamps. `meta` (free JSON that no operation reads) and the row's own clocks are left out.
use cred_chain_golang.Base.{
  Bool, false, not, String, Option, none, some, List, [], is_some, if◌then◌else◌,
}
use cred_chain_golang.Domain.Clock.{Time, before}
use cred_chain_golang.Domain.Reference.{Reference}
use cred_chain_golang.Domain.User.{User}

pub data CredentialStatus : Type 0 where
  pending approved rejected revoked expired : CredentialStatus

pub data ExtractState : Type 0 where
  extract_pending succeeded failed unextracted : ExtractState

pub record Credential : Type 0 where
  pub id : String
  pub holder_user_id : String
  pub submitter_user_id : String
  pub issuer_user_id : Option String
  pub issuer_organization_id : String
  pub type_id : String
  pub number : Option String
  pub revoker_user_id : Option String
  pub name : String
  pub token_id : Option String
  pub file_hash : String
  pub file_uri : Option String
  pub extract_enqueued_at : Option Time
  pub extracted_at : Option Time
  pub extract_failed_at : Option Time
  pub extract_error : Option String
  pub issued_at : Time
  pub revoked_at : Option Time
  pub revocation_reason : Option String
  pub expires_at : Option Time
  pub activated_at : Option Time
  pub rejecter_user_id : Option String
  pub rejected_at : Option Time
  pub rejection_reason : Option String
  pub holder : Option User
  pub issuer : Option User
  pub competencies : List Reference
  pub type : Option Reference
  pub issuer_organization : Option Reference

-- `domain.Credential{}`, from which the services build a partial update.
abbrev pub empty_credential : Credential
empty_credential = record {
  id = "";
  holder_user_id = "";
  submitter_user_id = "";
  issuer_user_id = none;
  issuer_organization_id = "";
  type_id = "";
  number = none;
  revoker_user_id = none;
  name = "";
  token_id = none;
  file_hash = "";
  file_uri = none;
  extract_enqueued_at = none;
  extracted_at = none;
  extract_failed_at = none;
  extract_error = none;
  issued_at = 0;
  revoked_at = none;
  revocation_reason = none;
  expires_at = none;
  activated_at = none;
  rejecter_user_id = none;
  rejected_at = none;
  rejection_reason = none;
  holder = none;
  issuer = none;
  competencies = [];
  type = none;
  issuer_organization = none;
}

-- `c.ExpiresAt != nil && !time.Now().Before(*c.ExpiresAt)`; `now` is what `time.Now()` returned.
unfoldable pub is_past : Time → Option Time → Bool
is_past now none = false
is_past now (some expires_at) = not (before now expires_at)

unfoldable pub status : Time → Credential → CredentialStatus
unfolding is_past
status now c =
    if is_some c.revoked_at
    then revoked
    else if is_some c.rejected_at
    then rejected
    else if is_past now c.expires_at
    then expired
    else if is_some c.activated_at
    then approved
    else pending

unfoldable pub extract_state : Credential → ExtractState
extract_state c =
    if is_some c.extract_failed_at
    then failed
    else if is_some c.extracted_at
    then succeeded
    else if is_some c.extract_enqueued_at
    then extract_pending
    else unextracted

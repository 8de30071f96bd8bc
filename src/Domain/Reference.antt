-- ===== src/Domain/Reference.antt =====
-- domain/reference.go, credential_type.go, credential_issuer_organization.go, competency.go: the
-- three kinds of taxonomy row, which have the same fields and the same derived status.
use cred_chain_golang.Base.{Bool, true, false, ◌&&◌, String, Option, none, some}
use cred_chain_golang.Domain.Clock.{Time}

pub data ReferenceStatus : Type 0 where
  pending approved rejected : ReferenceStatus

pub record Reference : Type 0 where
  pub id : String
  pub name : String
  pub active : Bool
  pub submitter_user_id : Option String
  pub approver_user_id : Option String
  pub rejecter_user_id : Option String
  pub rejection_reason : Option String
  pub activated_at : Option Time
  pub rejected_at : Option Time

abbrev reference_status : Option Time → Option Time → ReferenceStatus
reference_status (some r) activated = rejected
reference_status none (some a) = approved
reference_status none none = pending

unfoldable pub status : Reference → ReferenceStatus
status t = reference_status t.rejected_at t.activated_at

abbrev is_approved_status : ReferenceStatus → Bool
is_approved_status approved = true
is_approved_status _ = false

-- `t.Active && t.Status() == domain.ReferenceStatusApproved`, negated in each guard of the services.
unfoldable pub usable : Reference → Bool
unfolding status
usable t = t.active && is_approved_status (status t)

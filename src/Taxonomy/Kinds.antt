-- ===== src/Taxonomy/Kinds.antt =====
-- The three kinds of taxonomy: what feature/credential/competency_service.go,
-- credential_type_service.go and issuer_organization_service.go hand to the shared text of the service.
use cred_chain_golang.Base.{true, false}
use cred_chain_golang.Domain.Fault.{
  competency_not_found, competency_name_duplicate, competency_already_approved,
  competency_already_rejected, competency_already_pending, competency_destroy_in_use,
  credential_type_not_found, credential_type_name_duplicate, credential_type_already_approved,
  credential_type_already_rejected, credential_type_already_pending, credential_type_destroy_in_use,
  issuer_organization_not_found, issuer_organization_name_duplicate,
  issuer_organization_already_approved, issuer_organization_already_rejected,
  issuer_organization_already_pending, issuer_organization_destroy_in_use,
}
use cred_chain_golang.Taxonomy.{Kind}

abbrev pub competency : Kind
competency = record {
  not_found = competency_not_found;
  name_duplicate = competency_name_duplicate;
  already_approved = competency_already_approved;
  already_rejected = competency_already_rejected;
  already_pending = competency_already_pending;
  destroy_in_use = competency_destroy_in_use;
  carries_name = true;
}

abbrev pub credential_type : Kind
credential_type = record {
  not_found = credential_type_not_found;
  name_duplicate = credential_type_name_duplicate;
  already_approved = credential_type_already_approved;
  already_rejected = credential_type_already_rejected;
  already_pending = credential_type_already_pending;
  destroy_in_use = credential_type_destroy_in_use;
  carries_name = false;
}

abbrev pub issuer_organization : Kind
issuer_organization = record {
  not_found = issuer_organization_not_found;
  name_duplicate = issuer_organization_name_duplicate;
  already_approved = issuer_organization_already_approved;
  already_rejected = issuer_organization_already_rejected;
  already_pending = issuer_organization_already_pending;
  destroy_in_use = issuer_organization_destroy_in_use;
  carries_name = true;
}

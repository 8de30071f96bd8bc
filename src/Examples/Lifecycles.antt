-- ===== src/Examples/Lifecycles.antt =====
-- The credential service over the repository's table, on a table of one row.
use cred_chain_golang.Base.{
  ◌≡◌, ℕ, true, refl, String, List, [], ◌∷◌, Option, none, some, get_elem?, inr, contains,
  difference,
}
use cred_chain_golang.Domain.Clock.{Time}
use cred_chain_golang.Domain.Fault.{ok}
use cred_chain_golang.Domain.Credential.{Credential, status, is_past}
use cred_chain_golang.Effect.{Backend, World, transaction, check_all, each}
use cred_chain_golang.Credential.Ports.{CredentialService}
use cred_chain_golang.Credential.Table.{
  update, find_by_ids, Database, Relations, repository, find_by_ids, update, update_batch_case,
  patched, is_unique, is_fresh, conflicts, preload_by_includes,
}
use cred_chain_golang.Credential.Review.{approve, approve_body, approval_of}
use cred_chain_golang.Domain.Reference.{usable}
use cred_chain_golang.Credential.Guards.{
  require_found, approve_guard, review_status_guard, reference_guard,
}
use cred_chain_golang.Credential.Notify.{
  record_lifecycle_notifications, enqueue_lifecycle_notifications, distinct,
}
use cred_chain_golang.Credential.Mint.{
  mint_credentials, store_minted, enqueue_extract_job, with_tokens, issuance_of,
}
use cred_chain_golang.Credential.Lifecycle.{Evolves, AreCoherent}
use cred_chain_golang.Credential.Lifecycle.Backing.{IsBacked}
use cred_chain_golang.Credential.Lifecycle.Requests.{
  Request, serve_all, IsClosed, serve_all-Evolves, serve_all-AreCoherent, closed_forever,
  revocation_reason_lost,
}
use cred_chain_golang.Examples.{officer, holder, waiting, minted, reference, credentials}
use cred_chain_golang.Credential.Lifecycle.Approval.{approve-activates}
use cred_chain_golang.Sql.{select, case_value}

abbrev tables : Backend
tables = record { Db = Database; Chain = ℕ; Queue = ℕ; Files = List String; Cache = ℕ }

abbrev backed : CredentialService tables
backed = record {
  begin = λ db. ok tt;
  commit = λ db. ok tt;
  repo = repository;
  store_links = λ links db. (ok tt, db);
  destroy_links = λ id db. (ok tt, db);
  store_notifications = λ notifications db. (ok tt, db);
  find_users = λ ids db. ok (officer ∷ holder ∷ []);
  find_unit = λ id db. ok none;
  find_type = λ id db. ok (some reference);
  find_organization = λ id db. ok (some reference);
  find_competencies = λ ids db. ok (reference ∷ []);
  registry = credentials.registry;
  enqueuer = credentials.enqueuer;
  storage = credentials.storage;
  verify = credentials.verify;
  mail_enabled = true;
  ulid = credentials.ulid;
  clock = credentials.clock;
  decimal = credentials.decimal;
  parse_token = credentials.parse_token;
  wallet_hex = credentials.wallet_hex;
  zero_address = "W0";
}

abbrev whole : Database → Database
whole db = db

law : IsBacked backed whole
unfolding repository
law = record {
  find_by_ids = λ ids includes db ts h. h;
  store = λ cs db. inr refl;
  update = λ cs db. inr refl;
  update_ok = λ cs out db d h. h;
  clear_extract_outcome = λ now ids db. inr refl;
  store_links = λ ls db. refl;
  destroy_links = λ id db. refl;
  store_notifications = λ ns db. refl;
}

abbrev relations : Relations
relations = record {
  user = λ id. some holder;
  type = λ id. some reference;
  organization = λ id. some reference;
  competencies = λ id. [];
}

abbrev world : Credential → World tables
world c = record {
  db = record { rows = c ∷ []; relations = relations; ulid = backed.ulid; drawn = 0 };
  chain = 7;
  queue = 0;
  files = [];
  cache = 0;
  drawn = 0;
}

abbrev no_date : String → Option Time
no_date text = none

abbrev revoked_row : Credential
revoked_row = record minted { revoked_at = some 6; revocation_reason = some "forged" }

-- An approval, a revocation with a reason, and a rejection.
abbrev requests : List Request
requests =
    Request.approving officer 8 ("C1" ∷ [])
    ∷ Request.revoking officer 9 (record { id = "C1"; reason = some "expired" } ∷ [])
    ∷ Request.rejecting officer 10 (record { id = "C1"; reason = "blurred" } ∷ [])
    ∷ []

abbrev rows_after : Credential → List Credential
rows_after c = (serve_all backed no_date requests (world c)).db.rows

serve_all-Evolves_example : Evolves (waiting ∷ []) (rows_after waiting)
serve_all-Evolves_example = serve_all-Evolves backed no_date whole law requests (world waiting)

minted-coherent : AreCoherent (minted ∷ [])
minted-coherent = (record { exclusive = λ n. refl; revoked_approved = λ n. absurd (n refl) }, tt)

serve_all-AreCoherent_example : AreCoherent (rows_after minted)
serve_all-AreCoherent_example =
    serve_all-AreCoherent backed no_date whole law requests (world minted) minted-coherent

closed_forever_example :
    (d : Credential) × (get_elem? (rows_after revoked_row) 0 ≡ some d)
    × (d.id ≡ "C1")
    × (d.holder_user_id ≡ "U2")
    × (d.file_hash ≡ "H1")
    × (status 20 d ≡ status 7 revoked_row)
unfolding IsClosed status
closed_forever_example =
    closed_forever backed no_date whole law requests (world revoked_row) 0 revoked_row 7 20 refl tt

revocation_reason_lost_example :
    (d : Credential) × (get_elem? (rows_after minted) 0 ≡ some d)
    × (d.id ≡ "C1")
    × (d.revocation_reason ≡ none)
revocation_reason_lost_example =
    revocation_reason_lost backed no_date whole law requests (world minted) 0 minted refl

abbrev ids : List String
ids = "C1" ∷ []

abbrev after_approval : World tables
after_approval = (approve backed officer 8 ids (world waiting)).1

abbrev approved_row : Credential
approved_row = record waiting {
  token_id = some (backed.decimal 7);
  activated_at = some 8;
  issuer_user_id = some "U1";
  extract_enqueued_at = some 8;
  type = none;
  issuer_organization = none;
}

approve_run :
    approve backed officer 8 ids (world waiting) ≡ (ok (approved_row ∷ []), after_approval)
unfolding approve approve_body transaction require_found difference contains approve_guard
    review_status_guard status is_past reference_guard usable check_all approval_of
    record_lifecycle_notifications enqueue_lifecycle_notifications distinct mint_credentials
    store_minted each enqueue_extract_job with_tokens issuance_of repository find_by_ids update
    update_batch_case patched is_unique is_fresh conflicts preload_by_includes select case_value
approve_run = refl

asked : contains ids waiting.id ≡ true
unfolding contains
asked = refl

approve-activates_example :
    (d : Credential) × (get_elem? (after_approval.db.rows) 0 ≡ some d)
    × (d.id ≡ "C1")
    × (d.holder_user_id ≡ "U2")
    × (d.file_hash ≡ "H1")
    × (d.activated_at ≡ some 8)
approve-activates_example =
    approve-activates backed whole law officer 8 ids (world waiting) after_approval
      (approved_row ∷ []) 0 waiting approve_run refl asked

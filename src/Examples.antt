-- ===== src/Examples.antt =====
-- Stores and services small enough to run, on which the theorems are applied.
mod Reviews
mod Lifecycles
mod Sessions
mod Units
mod Taxonomies
mod Intakes
mod Verdicts
mod Maintenance
mod Users
use cred_chain_golang.Base.{
  ℕ, zero, suc, ◌+◌, Bool, true, false, not, ◌&&◌, String, List, [], ◌∷◌, ◌++◌, map, Option, none,
  some, length, nat_eq, if◌then◌else◌, ◌==◌,
}
use cred_chain_golang.Domain.Clock.{Time}
use cred_chain_golang.Domain.Role.{Role}
use cred_chain_golang.Domain.Fault.{Error, raw, record_not_found, Result, ok, err}
use cred_chain_golang.Domain.Reference.{Reference}
use cred_chain_golang.Domain.User.{User, Wallet, empty_user}
use cred_chain_golang.Domain.Credential.{Credential, empty_credential}
use cred_chain_golang.Effect.{Backend, World}
use cred_chain_golang.Credential.Ports.{
  CredentialRepository, RegistryService, Enqueuer, FileStore, VerifyPorts, CredentialService,
  ChainIssuance, OnChainCredential,
}
use cred_chain_golang.User.Ports.{UserRepository, AuthorityService, UserService, UserUnit}

abbrev member : List String → String → Bool
member [] k = false
member (x ∷ xs) k = if x == k then true else member xs k

abbrev keep {ℓ} : {A : Type ℓ} → (A → Bool) → List A → List A
keep p [] = []
keep p (x ∷ xs) = if p x then x ∷ keep p xs else keep p xs

abbrev first {ℓ} : {A : Type ℓ} → Option A → Option A → Option A
first none b = b
first (some a) b = some a

-- The database is the rows of one table, the chain counts the tokens (or, for the users, the calls),
-- the queue counts the jobs, the files are the paths that were saved, the cache is not used.
abbrev pub demo : Backend
demo = record { Db = List Credential; Chain = ℕ; Queue = ℕ; Files = List String; Cache = ℕ }

abbrev pub officer : User
officer = record empty_user { id = "U1"; role = Role.issuer; wallet_address = "W1" }

abbrev pub holder : User
holder = record empty_user { id = "U2"; role = Role.holder; wallet_address = "W2" }

abbrev pub reference : Reference
reference = record {
  id = "R1";
  name = "R";
  active = true;
  submitter_user_id = none;
  approver_user_id = none;
  rejecter_user_id = none;
  rejection_reason = none;
  activated_at = some 1;
  rejected_at = none;
}

-- A submission that waits for review, and the same row approved and minted.
abbrev pub waiting : Credential
waiting = record empty_credential {
  id = "C1";
  holder_user_id = "U2";
  submitter_user_id = "U2";
  issuer_organization_id = "O1";
  type_id = "T1";
  name = "Diploma";
  file_hash = "H1";
  file_uri = some "F1.pdf";
  issued_at = 62135596801000000000;
  type = some reference;
  issuer_organization = some reference;
}

abbrev pub minted : Credential
minted = record waiting {
  token_id = some "7";
  activated_at = some 5;
  issuer_user_id = some "U1";
  holder = some holder;
  issuer = some officer;
}

-- A patch writes what it sets.
abbrev merged : Credential → Credential → Credential
merged p c = record c {
  token_id = first p.token_id c.token_id;
  issuer_user_id = first p.issuer_user_id c.issuer_user_id;
  activated_at = first p.activated_at c.activated_at;
  extract_enqueued_at = first p.extract_enqueued_at c.extract_enqueued_at;
  extract_failed_at = first p.extract_failed_at c.extract_failed_at;
  extract_error = first p.extract_error c.extract_error;
  rejected_at = first p.rejected_at c.rejected_at;
  rejecter_user_id = first p.rejecter_user_id c.rejecter_user_id;
  rejection_reason = first p.rejection_reason c.rejection_reason;
  revoked_at = first p.revoked_at c.revoked_at;
  revoker_user_id = first p.revoker_user_id c.revoker_user_id;
  revocation_reason = first p.revocation_reason c.revocation_reason;
}

abbrev patched : List Credential → Credential → Credential
patched [] p = p
patched (c ∷ cs) p = if c.id == p.id then merged p c else patched cs p

abbrev overlaid : List Credential → Credential → Credential
overlaid [] c = c
overlaid (p ∷ ps) c = if p.id == c.id then merged p c else overlaid ps c

abbrev row_of : List Credential → Result Credential
row_of [] = err record_not_found
row_of (c ∷ cs) = ok c

abbrev restarted : Time → List String → Credential → Credential
restarted now ids c =
    if member ids c.id
    then record c { extract_enqueued_at = some now; extract_failed_at = none; extract_error = none }
    else c

abbrev repo : CredentialRepository (List Credential)
repo = record {
  find = λ id includes db. row_of (keep (λ c. c.id == id) db);
  find_by_ids = λ ids includes db. ok (keep (λ c. member ids c.id) db);
  find_verifiable_by_id = λ id includes db. err record_not_found;
  find_verifiable_by_ids = λ ids includes db. ok (keep (λ c. member ids c.id) db);
  find_by_file_hashes = λ hashes includes db. ok (keep (λ c. member hashes c.file_hash) db);
  rows_by_numbers = λ org numbers db. ok [];
  count_active_by_file_hashes = λ hashes db. ok 0;
  store = λ cs db. (ok cs, db ++ cs);
  update = λ ps db. (ok (map (patched db) ps), map (overlaid ps) db);
  clear_extract_outcome = λ now ids db. (ok tt, map (restarted now ids) db);
}

abbrev tokens_from : ℕ → List ChainIssuance → List ℕ
tokens_from n [] = []
tokens_from n (i ∷ is) = n ∷ tokens_from (suc n) is

-- The record on chain of `minted`.
abbrev pub on_chain : OnChainCredential
on_chain = record {
  id = some 7;
  issuer = "W1";
  holder = "W2";
  hash = "H1";
  uri = "C1";
  number = "";
  issued_at = some 1;
  expires_at = some 0;
  revoked_at = some 0;
}

abbrev registry : RegistryService ℕ
registry = record {
  issue_credentials = λ signer issuances n. (ok (tokens_from n issuances), n + length issuances);
  revoke_credentials = λ signer ids n. (ok tt, n);
  hash_statuses = λ hashes n. ok (map (λ h. 0) hashes);
  credentials_by_ids = λ ids n. ok (on_chain ∷ []);
}

abbrev pub credentials : CredentialService demo
credentials = record {
  begin = λ db. ok tt;
  commit = λ db. ok tt;
  repo = repo;
  store_links = λ links db. (ok tt, db);
  destroy_links = λ id db. (ok tt, db);
  store_notifications = λ notifications db. (ok tt, db);
  find_users = λ ids db. ok (keep (λ u. member ids u.id) (officer ∷ holder ∷ []));
  find_unit = λ id db. ok none;
  find_type = λ id db. ok (some reference);
  find_organization = λ id db. ok (some reference);
  find_competencies = λ ids db. ok (reference ∷ []);
  registry = registry;
  enqueuer = record {
    enqueue_extract = λ id uri n. (ok tt, suc n);
    enqueue_notifications = λ args n. (ok tt, suc n);
  };
  storage = record {
    save_bytes = λ text path files. (ok tt, path ∷ files);
    read_bytes = λ path files. ok "";
    delete = λ path files. (ok tt, files);
    encrypt = λ text. if text == "bad" then err (raw "cipher") else ok text;
    decrypt = λ text. ok text;
    keccak_hex = λ text. if text == "pdf" then "H1" else text;
    join_path = λ path. path;
    lower_ext = λ name. ".pdf";
    mime_by_extension = λ name. "";
  };
  verify = record {
    find_cached = λ hash n. ok none;
    store_cached = λ v n. (ok tt, n);
    delete_cached = λ hashes n. (ok tt, n);
    find_ranked = λ values limit n. ok [];
    extract_ids = λ upload. ok [];
    ai_verify = λ upload embedding. err (raw "off");
  };
  mail_enabled = true;
  ulid = λ n. if nat_eq n 0 then "F1" else "C1";
  clock = λ n. n + 5;
  decimal = λ n. if nat_eq n 7 then "7" else "8";
  parse_token = λ t. if t == "7" then some 7 else none;
  wallet_hex = λ a. some a;
  zero_address = "W0";
}

-- Seven tokens were minted before, and one row waits.
abbrev pub start : World demo
start = record { db = waiting ∷ []; chain = 7; queue = 0; files = []; cache = 0; drawn = 0 }

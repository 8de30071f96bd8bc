-- ===== src/Credential/Ports.antt =====
-- What feature/credential/credential_service.go calls and does not implement: the fields of
-- `credentialService`, with the methods that it uses. Postgres, the contract, River, the file system
-- and Mongo are types that the program does not fix. A repository behind the unit of work and the one
-- outside run the same queries, on the transaction's database and on what is committed.
use cred_chain_golang.Base.{ℕ, Bool, String, List, Option}
use cred_chain_golang.Domain.Clock.{Time}
use cred_chain_golang.Domain.Fault.{Result}
use cred_chain_golang.Domain.Reference.{Reference}
use cred_chain_golang.Domain.User.{User, Wallet}
use cred_chain_golang.Domain.Credential.{Credential}
use cred_chain_golang.Effect.{Backend}

-- domain.CredentialRepository. The `includes` of a query stand behind the ids; `rows_by_numbers` is
-- `Get` with the filters issuer_organization_id = org and number IN numbers.
pub record CredentialRepository (Db : Type 0) : Type 0 where
  pub find : String → List String → Db → Result Credential
  pub find_by_ids : List String → List String → Db → Result (List Credential)
  pub find_verifiable_by_id : String → List String → Db → Result Credential
  pub find_verifiable_by_ids : List String → List String → Db → Result (List Credential)
  pub find_by_file_hashes : List String → List String → Db → Result (List Credential)
  pub rows_by_numbers : String → List String → Db → Result (List Credential)
  pub count_active_by_file_hashes : List String → Db → Result ℕ
  pub store : List Credential → Db → Result (List Credential) × Db
  pub update : List Credential → Db → Result (List Credential) × Db
  pub clear_extract_outcome : Time → List String → Db → Result (Unit {0}) × Db

-- domain.CredentialNotificationType
pub data NotificationType : Type 0 where
  registered approved rejected revoked : NotificationType

-- domain.CredentialNotification, as it is stored; the repository gives it its id and its clock.
pub record CredentialNotification : Type 0 where
  pub notified_user_id : String
  pub credential_id : String
  pub type : NotificationType

-- domain.CompetencyCredential
pub record CompetencyCredential : Type 0 where
  pub competency_id : String
  pub credential_id : String

-- chain.CredentialIssuance
pub record ChainIssuance : Type 0 where
  pub holder_address : String
  pub hash : String
  pub uri : String
  pub issued_at : ℕ
  pub expires_at : ℕ
  pub number : String

-- contracts.CredentialRegistryCredential. An absent `*big.Int` is `none`; the ABI's integers are
-- unsigned. An address is its canonical text.
pub record OnChainCredential : Type 0 where
  pub id : Option ℕ
  pub issuer : String
  pub holder : String
  pub hash : String
  pub uri : String
  pub number : String
  pub issued_at : Option ℕ
  pub expires_at : Option ℕ
  pub revoked_at : Option ℕ

-- chain.RegistryService. The statuses are those of the given file hashes.
pub record RegistryService (Chain : Type 0) : Type 0 where
  pub issue_credentials : Wallet → List ChainIssuance → Chain → Result (List ℕ) × Chain
  pub revoke_credentials : Wallet → List ℕ → Chain → Result (Unit {0}) × Chain
  pub hash_statuses : List String → Chain → Result (List ℕ)
  pub credentials_by_ids : List ℕ → Chain → Result (List OnChainCredential)

-- jobs.CredentialNotificationArgs
pub record NotificationArgs : Type 0 where
  pub credential_id : String
  pub credential_number : String
  pub holder_user_id : String
  pub event : NotificationType
  pub event_time : Time

-- jobs.Enqueuer
pub record Enqueuer (Queue : Type 0) : Type 0 where
  pub enqueue_extract : String → String → Queue → Result (Unit {0}) × Queue
  pub enqueue_notifications : List NotificationArgs → Queue → Result (Unit {0}) × Queue

-- storage.Storage, with the cipher of infrastructure/crypto under the configured key. A file's
-- contents are a text of bytes.
pub record FileStore (Files : Type 0) : Type 0 where
  pub save_bytes : String → String → Files → Result (Unit {0}) × Files
  pub read_bytes : String → Files → Result String
  pub delete : String → Files → Result (Unit {0}) × Files
  pub encrypt : String → Result String
  pub decrypt : String → Result String
  pub keccak_hex : String → String
  pub join_path : String → String
  pub lower_ext : String → String
  pub mime_by_extension : String → String

-- domain.CredentialExtraction (the values of its ids and its embedding)
pub record CredentialExtraction : Type 0 where
  pub credential_id : String
  pub ids : List String
  pub embedding : List String

-- domain.CredentialVerification; a similarity score is the text that Mongo holds.
pub record CredentialVerification : Type 0 where
  pub uploaded_file_hash : String
  pub verdict_code : ℕ
  pub matched_credential_id : Option String
  pub similarity_score : Option String
  pub similarity_percent : Option String

-- pyai.VerifyResult
pub record AiVerdict : Type 0 where
  pub verdict : String
  pub similarity_score : String
  pub similarity_percent : String

-- The two Mongo repositories and pyai.PythonAIClient.
pub record VerifyPorts (Cache : Type 0) : Type 0 where
  pub find_cached : String → Cache → Result (Option CredentialVerification)
  pub store_cached : CredentialVerification → Cache → Result (Unit {0}) × Cache
  pub delete_cached : List String → Cache → Result (Unit {0}) × Cache
  pub find_ranked : List String → ℕ → Cache → Result (List CredentialExtraction)
  pub extract_ids : String → Result (List String)
  pub ai_verify : String → List String → Result AiVerdict

-- The rest of `credentialService`: the unit of work, the other repositories, the configuration.
-- `find_unit` is the name of a unit, `find_type` and `find_organization` give `none` for a nil row,
-- `ulid` is the n-th identifier drawn, `clock` the n-th reading of `time.Now`, `parse_token` reads a decimal `big.Int`, and `wallet_hex` is
-- `common.HexToAddress` after `common.IsHexAddress`.
pub record CredentialService (T : Backend) : Type 0 where
  pub begin : T.Db → Result (Unit {0})
  pub commit : T.Db → Result (Unit {0})
  pub repo : CredentialRepository T.Db
  pub store_links : List CompetencyCredential → T.Db → Result (Unit {0}) × T.Db
  pub destroy_links : String → T.Db → Result (Unit {0}) × T.Db
  pub store_notifications : List CredentialNotification → T.Db → Result (Unit {0}) × T.Db
  pub find_users : List String → T.Db → Result (List User)
  pub find_unit : String → T.Db → Result (Option String)
  pub find_type : String → T.Db → Result (Option Reference)
  pub find_organization : String → T.Db → Result (Option Reference)
  pub find_competencies : List String → T.Db → Result (List Reference)
  pub registry : RegistryService T.Chain
  pub enqueuer : Enqueuer T.Queue
  pub storage : FileStore T.Files
  pub verify : VerifyPorts T.Cache
  pub mail_enabled : Bool
  pub ulid : ℕ → String
  pub clock : ℕ → Time
  pub decimal : ℕ → String
  pub parse_token : String → Option ℕ
  pub wallet_hex : String → Option String
  pub zero_address : String

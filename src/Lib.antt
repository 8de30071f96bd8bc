-- ===== src/Lib.antt =====
-- CredChain: the services that issue, review, revoke and verify credentials and that manage users.
--
-- The program keeps its rows in Postgres (behind a unit of work), its roles and tokens in two
-- contracts on a chain, its extraction and mail jobs in a River queue, its encrypted files on disk, and
-- its verdict cache in Mongo. A service checks a request against the rows, writes them in one unit of
-- work, and calls the contract inside it, so that a refusal by the chain rolls the rows back.
--
-- Which file models what:
--   Domain.Role, Domain.User         domain/user.go, domain/wallet.go: roles, users, wallets
--   Domain.Credential                domain/credential.go: the row, Status and ExtractState
--   Domain.Reference                 domain/credential_type.go and its two siblings: taxonomy rows
--   Domain.Clock                     the times, and credentialIssuedAtToChain, credentialExpiresAtToChain
--   Domain.Fault                     domain/codes.go, domain/errors.go: codes, errors, results
--   Effect                           the outside world, handlers as state passing, and
--                                    GormUnitOfWork.Execute (infrastructure/database/gorm/uow.go)
--   Credential.Ports, User.Ports     the interfaces that the two services are given
--   Credential.Notify                feature/credential/credential_notification.go
--   Credential.Guards                the checks over fetched rows in credential_service.go
--   Credential.Mint                  mintCredentials and syncBlockchainRevoke
--   Credential.Intake                Issue and Submit, with Validate (issueValidate, submitValidate) and
--                                    Prepare (issuePrepareCredentials, submitPrepareCredentials); Facts and
--                                    Commit say what the look-ups and the commit come to
--   Credential.Numbers               the uniqueness of numbers within an organization
--   Credential.Review                Approve, Reject and Revoke
--   Credential.Maintain              Update, ReExtract, DownloadFile (with DownloadFilePreFetch of
--                                    credential_policy.go) and LinkCompetencies
--   Credential.Verify                Verify, with Match (the record on chain, the tie between
--                                    candidates) and Verdict (the rules on verdict codes)
--   Sql                              SELECT on a list of rows, and BuildCaseColumnSQL of
--                                    infrastructure/database/gorm/helpers.go
--   Credential.Table                 feature/credential/gorm_credential_repository.go
--   Credential.Lifecycle             the stamps of a row and how a table evolves, followed through the
--                                    handlers above (Patches to Intakes) and through sequences of
--                                    requests (Requests); Backing is the service over the table
--   Taxonomy                         feature/credential/competency_service.go, credential_type_service.go
--                                    and issuer_organization_service.go, one model with the differences
--                                    in Kinds; Table is their three gorm repositories
--   Auth                             feature/auth/auth_service.go; Tokens is
--                                    feature/user/gorm_user_token_repository.go, Guard is
--                                    infrastructure/http/middleware/auth.go
--   Units                            feature/user/user_unit_service.go; Table is
--                                    gorm_user_unit_repository.go, with the recursive query on fuel,
--                                    Database.rounds, after which it is cancelled; Descent has how much
--                                    is enough, Tree the tree and Moves the statements that keep it
--   Effect.Keeps                     a preorder on worlds followed through the steps of a handler
--   User.Policy                      feature/user/user_policy.go
--   User.Service                     feature/user/user_service.go: deletion, transfer, restoration; Create
--                                    (Store) and Change (Update, UpdateEmail, UpdateLanguage, UpdateRole)
--   Examples                         concrete stores and services on which the theorems are applied
--
-- How the code is read. A handler takes the world and gives a result beside the world it leaves, also
-- where it fails, since only the database rolls back. The database, the chain, the queue, the files and
-- the cache are types that the model does not fix, and the repositories, the contract clients and
-- the other injected interfaces are functions on them. A repository outside the unit of work reads what
-- is committed, which the body of a unit of work gets as an argument. The user of the request and one
-- reading of the clock are arguments; where a handler reads the clock for each item, as the preparation
-- of an issuance does three times, the service's `clock` gives the n-th reading. A time is the whole nanoseconds since year 1; `uint64` conversions
-- keep their wrap-around. A Go map that is built and looked up is the list of its assignments or a
-- function; the organizations of a batch are asked in order of first occurrence, where Go's order
-- varies. A nil dereference or an index out of range is the error `panic`. Every loop runs over a
-- list, so no fuel is needed, except for the recursive query of Units.Table, which gets as many rounds
-- as the database says. The free JSON of a row (`meta`) and fields that no operation reads are left out.
--
-- A table is the list of its rows in the order of a scan. Every statement of a repository's model
-- reaches the database; the laws of Lifecycle.Backing let a statement fail, and then the table stands as
-- it was. Unique indexes refuse an insert or an update, CHECK constraints are not in the model. The texts'
-- trimming and lower case, the JWT, the identity provider, the source of identifiers and the contract
-- clients are parameters.
--
-- Not modelled: routing, binding and rendering of HTTP; the listing queries, with their filters and
-- cursors; the user, notification, link and Mongo repositories (interfaces of the model); the
-- notification centre; the rate limiter; the contract bindings, the job workers, mail, storage and
-- encryption (interfaces where a service uses them); reports, seeders and configuration.
pub mod Base
pub mod Domain
pub mod Effect
pub mod Sql
pub mod Credential
pub mod User
pub mod Units
pub mod Taxonomy
pub mod Auth
pub mod Examples

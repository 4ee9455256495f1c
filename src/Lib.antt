-- ===== src/Lib.antt =====
-- DiddiFreeID, the identity service of identity_app/: accounts, one-time codes, sessions, roles
-- with KYC decisions, and an audit trail.
--
-- The program. A route of identity_app/modules/identity/presentation takes a request, lets a guard
-- of identity_app/core/auth_deps.py name the caller, and runs one command of
-- identity_app/modules/identity/application/commands on the session of the request
-- (identity_app/core/database.py). A command reads and writes five tables through the repositories
-- of infra/write_repository.py, invalidates the profile cache of infra/cache.py, and publishes an
-- event on a Redis stream (identity_app/shared_kernel/events/bus.py). It commits by itself, before
-- it replies; the session commits again if the route returns and rolls back if it raises. A route
-- that reads runs a query of identity_app/modules/identity/application/queries instead. Other
-- services verify tokens with the published keys (identity_app/shared_kernel/contracts) and read
-- the stream with the consumer of bus.py; scripts/ has what an operator runs.
--
-- The model.
--   Prelude: the names shared by all; Prelude/Tables the statements on a table as list functions,
--     Prelude/Lists filters and orders, and Prelude/Slices what parts of a list hold.
--   Domain: entities.py (Access, Entities) and events/user_events.py (Events).
--   Platform: the settings, the tables, the commands of Redis, the code outside the repository
--     (Environment), a request in progress as a state monad with faults (Monad), and get_session
--     (Session). The state holds the open transaction beside the committed tables, so that a fault
--     in the middle of a command, and its rollback, are in the model.
--   Infra: the repositories (Users, Otps, Tokens, and Reads for read_repository.py), Cache,
--     RateLimiter, Bus and Consumer (bus.py), Security, TokenService, Keys (core/keys.py) and Sms.
--     Consumer/Loop is the loop of a subscriber, whose process may die at any step, and
--     Consumer/Group what Redis promises of the entries that it was given.
--   Application: validation.py and payloads.py. Commands: one file for each command; each SQL
--     statement is a named operation of Infra.
--   Lifecycle: the abstract specification, a step relation `Change` on the tables.
--   Refinement: the commands beside `Change`. Invariants: predicates on the tables beside `Change`.
--   Behaviour: what commands reply and publish, and a login with the tokens that it gives.
--   Queries: queries/get_user.py and queries/list_users.py, what a list should hold (Wanted), the
--     replies (Pages, Outcomes), and a client that walks the pages (Walk, Listing).
--   Contract: contracts/identity_provider.py (Verifier), its requests, and its agreement with the
--     service. A verifier is a state monad of its own over the network of a module.
--   Scripts: migrate_from_diddigo.py (Migrate), issue_service_token.py (ServiceToken) and
--     generate_keys.py (GenerateKeys).
--   Schema: alembic/, as statements on a catalogue of tables: the two revisions (Revisions), the
--     tables of infra/models.py and what env.py compares with them (Models), both together (Head),
--     and what a downgrade leaves of the rows (Rows).
--   Ports: domain/interfaces.py, a record of operations for each port with its promises beside it
--     (Promises), what core/deps.py fills it with (Wiring), and the proofs that it keeps them.
--   Server: the guards (Auth), the nine routes that write (Routes), the five that read (Reads), the
--     checks of request bodies (Bodies), what one request does (Steps, Roles), the start of the
--     process (Startup) and the addresses of the routes (Paths).
--   Tests: a small instance of the outside code, and the theorems at work on it.
--
-- Names. A model of `Class.method` has the name of the method, and a command that of its file,
-- but for refresh_access_token (refresh_token.py, RefreshAccessToken). Rows stand in the order of
-- insertion. Ids are numbers, instants are microseconds, and Python's integers are natural numbers.
-- No loop of the modelled code runs without a bound; only `to_bytes`, the digits of a number in
-- base 256, has fuel: the number itself, which is at least its digits. A subscriber makes a list
-- of passes, each with the number of steps that its process lives for. `Query` bounds on pages are
-- hypotheses of the theorems that need them.
--
-- Outside the model: hashes, JWTs, UUIDs, randomness, the clock, character classes and the replies
-- of Redis are parameters (the record `Env`); Redis may answer or fail as it likes at every
-- command. The network of a module (`Network`) and the server of the stream with its JSON
-- (`Broker`) are parameters too. Requests run one after the other. A statement on the catalogue
-- is refused as PostgreSQL refuses it. Not modelled: the drivers of alembic/env.py, the command
-- factories of core/deps.py beyond the objects that they pass on, the envelope of validation
-- errors, the parsing of the parameters of a path, the widths of columns and the bounds of their
-- types (an OTP row is closed long before its SMALLINT counter is full), and the texts of error
-- messages and logs. A search for one row takes the first one that fits: that two rows have one
-- SHA-256 hash, for which SQLAlchemy raises in find_by_hash, is not modelled.
--
-- PyJWT cuts the dates of a token to whole seconds and refuses it before its iat; the hypotheses
-- on `jwt_decode` (Infra/Keys/Loading) say no more than that.
pub mod Prelude
pub mod Domain
pub mod Platform
pub mod Infra
pub mod Application
pub mod Behaviour
pub mod Commands
pub mod Lifecycle
pub mod Refinement
pub mod Invariants
pub mod Server
pub mod Queries
pub mod Scripts
pub mod Schema
pub mod Ports
pub mod Contract
pub mod Tests

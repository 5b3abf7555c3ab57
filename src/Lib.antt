-- ===== src/Lib.antt =====
-- eSPPD: the back end of an electronic travel order system, a set of Go services over PostgreSQL,
-- NATS and Redis. This library models its shared packages, the services auth, spd, approval, budget,
-- audit, notification and document and the ETL tool, and proves what their requests check, write and
-- return, and what any order of them can lead to.
--
-- A request is an action `M A` of a World (World.antt): the PostgreSQL tables, the settings of the
-- running transaction, the faults that coming calls of outside services meet, the random bytes, the
-- messages published to NATS and the clock. An action ends in a value or an error, and what it wrote
-- before an error stays written unless a transaction takes it back. All clock reads of one request
-- give one instant.
--
-- Base, Text, Decimal    lists, integers, and the parts of Go's strings, strconv and hex in use
-- Outcome, Exec          Go's `(value, error)` with explicit state; Exec/Rules inverts a chain
-- World/Rows, Sql        rows, events; shared/db/db.go: WithTx, SetRLSContext, statements
-- World/Policies         migrations/0002_rls.sql; they bind only where `rls` is on
-- World/Quiet, Atomic     rules: what leaves the tables alone, always or on an error
-- World/Calm             rules: what publishes nothing and takes back no id
-- World/Inversion, Tx     rules: what a success says of each step and of a transaction
-- Crypto                 shared/cryptox/aesgcm.go over an AEAD that is a parameter
-- Totp                   shared/mfax/totp.go over base32 and HMAC-SHA1, parameters
-- Jwt                    shared/jwtx/jwt.go over golang-jwt, a parameter
-- Httpx                  shared/httpx/httpx.go: JWTAuth, AuthFromLocals, ParseIDParam, WriteError;
--                        RateLimit with its script over a Redis that is a parameter
-- Auth                   services/auth-service: Ldap, Repo, Handler (Login), Session (Refresh,
--                        Logout, Me), Mfa (MFAEnroll, MFAVerify, MFADisable)
-- Paging                 parseInt, clampInt, ORDER BY and LIMIT of the list handlers
-- Spd                    services/spd-service: Repo, Handler
-- Approval               services/approval-service: Repo, Handler with the consumer
-- Budget                 services/budget-service: Repo, Handler
-- Life                   the requests and consumers of the services as a relation on states, and
--                        what comes of SPDs and approvals in the states it reaches; requests about
--                        users pass as steps that leave both alone, and a run of tools/etl is none
-- Audit                  services/audit-service: Itoa, Repo, Query with the filter builder, Handler
-- Notification           services/notification-service: Repo, Handler with the consumer
-- Document               services/document-service: Ooxml, Repo, Handler with the worker
-- Reporting              services/reporting-service: Repo with the counts, Handler with the cached
--                        replies
-- Cachex                 shared/cachex/cache.go over a Redis client
-- Etl                    tools/etl/main.go: Csv, Field, Load (the loop of every migrate function),
--                        Org, Money, Flow (the tables), Run (main and bumpSequences)
-- Config                 shared/config/config.go
-- Sample                 a toy cipher and test data; Tests in each part run it on them
--
-- The services meet in the tables and in the events: Submit of the SPD service publishes
-- spd.submitted, whose consumer opens an approval; a decision sets the status of the SPD.
--
-- Numbers are written out at their width where they wrap: TOTP's time steps, counter and modulus,
-- the 64-bit range of ParseInt, int32 of the configuration. No fuel is used but in the printing of decimals, where n + 1 rounds for n are
-- enough, since each divides by ten.
--
-- Not modelled: the limiter's fallback without Redis, key files, logging, metrics and process
-- start. Interleavings inside one request are not modelled: a request runs as one action. Foreign
-- keys are faults of the statement, but for those to spds. Texts hold no NUL character, and the tables
-- keep times to the nanosecond. An app.current_user_id that a transaction has left behind as an empty
-- text in its connection, on which the cast of a policy would fail, is not modelled.
pub mod Base
pub mod Text
pub mod Decimal
pub mod Outcome
pub mod Exec
pub mod World
pub mod Crypto
pub mod Totp
pub mod Jwt
pub mod Httpx
pub mod Auth
pub mod Paging
pub mod Spd
pub mod Approval
pub mod Budget
pub mod Etl
pub mod Life
pub mod Audit
pub mod Notification
pub mod Document
pub mod Cachex
pub mod Config
pub mod Reporting
pub mod Sample

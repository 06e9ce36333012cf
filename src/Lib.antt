-- ===== src/Lib.antt =====
-- Smart Gatekeeper: a verification library for the backend's own logic, backend/app.
--
-- The backend sits between Home Assistant, the administrators, the Targets (the controllers at the
-- doors) and an MQTT broker. Home Assistant's requests pass the bridge, which binds each to the boot of
-- the Target that is live and waits for the Target's ACK; the publisher carries every message, behind
-- a circuit breaker and a bound on publications in flight; the boot registry records the boots that the
-- Targets report; access lists are encoded, signed and sent, the delivery tracker waits for the Targets
-- to apply them, and the refresh worker renews their leases; administrators act through sessions.
--
-- - Common: names of the libraries passed on, Boolean tests, equality as an interface, Python's
--   dictionaries as association lists in insertion order (Common/Dict), texts as lists of codes and
--   topic patterns (Common/Text), integers (Common/Int), JSON documents (Common/Json), checks that give
--   up or raise (Common/Try), the strings of Python that the code strips and encodes (Common/Strings).
-- - Runtime: backend/app/ops_runtime.py. Runtime/RateLimiter is SlidingWindowRateLimiter (`allow`),
--   Runtime/Breaker CircuitBreaker (`permit`, `success`, `failure`), Runtime/Ledger IdempotencyLedger
--   (`reserve`, `complete`), Runtime/Metrics OperationalMetrics (`request`, `event`), Runtime/Publisher
--   PersistentMqttPublisher (`publish`, `probe`, `close`), which contains a breaker.
-- - Targets: Targets/BootRegistry is backend/app/target_boot_registry.py, its table a dictionary;
--   Targets/AclDelivery is backend/app/target_acl_delivery.py, with the wire payload in
--   Targets/AclDelivery/Wire; Targets/AclRefresh is
--   backend/app/acl_refresh.py.
-- - HaBridge: HomeAssistantCommandBridge of backend/app/home_assistant_bridge.py, its state and the
--   Target's status; HaBridge/Requests is `accept_request`, HaBridge/Answers `accept_ack`, and `_CONTROLS`
--   and `_parse_value` are in HaBridge/Controls.
-- - AdminSecurity: backend/app/admin_security.py, its state and the attempts; AdminSecurity/Logins is
--   `authenticate_personal_password` (its two steps under the lock), `authenticate_mtls` and
--   `issue_session`, AdminSecurity/Sessions `principal`.
-- - Acl: the snapshots of backend/app/acl_management.py, their validation, encoding and lease; Acl/Curve
--   is P-256, Acl/Envelope `verify_snapshot_envelope`, Acl/Enrollment the bytes of an enrollment and
--   Acl/Receipts `acl_snapshot_is_usable`.
-- - AclStore: the tables of `AclStore` of backend/app/acl_management.py and its transactions, for SQLite and
--   for MySQL: AclStore/Tenants, AclStore/Credentials (enrollment challenges and credentials),
--   AclStore/Grants, AclStore/Jobs (the durable snapshot jobs), AclStore/Snapshots (versions, snapshots,
--   ACKs, audit) and AclStore/Transitions (the transactions that end an access and queue its
--   replacements). AclStore/History is a run of transactions.
-- - AclService: `AclManagementService` of the same file, which calls the store: AclService/Enrolling,
--   AclService/Signing, AclService/Publishing, AclService/Revoking and AclService/Reading are its methods,
--   AclService/Requests a sequence of calls of them.
-- - CommandSecurity: backend/app/command_security.py, the signed commands.
-- - Examples: runs on concrete inputs.
--
-- An object with a lock is a record, and a method a function from the state before to the answer and
-- the state after, so that a run is a sequence of such steps in the order in which the lock is taken.
-- The publisher holds no lock during a call: what overlapping calls do to it is an argument of the call.
-- Password logins are two steps each and interleave. Clocks are arguments, in whole milliseconds, for the
-- rate limiter nanoseconds, or, for administrators and snapshots, whole seconds. The
-- JSON decoder, SHA-256, the database connection, the MQTT client and the token factories are
-- parameters. Exceptions are values: `none`, `raised`, `type_error`, an HTTP status code or, in the store
-- and the service of access lists, the error of a `Result`. A transaction of the store that raises
-- leaves the tables as they were; a method of the service that raises leaves what its finished
-- transactions wrote, so a run of the service is a list of requests, the failed ones included. What the
-- service takes from outside, the clock, the random bytes, the signatures, HMAC and the answers of the
-- publisher, are arguments of its configuration and its world. The tables compare texts by their
-- characters, and an UPDATE counts the rows that it finds.
--
-- Loops that drop entries until a bound holds run on the number of entries as fuel; each round drops
-- one entry, so it is enough, and the bounds below are proved of the result. Multiplication by a scalar
-- has 256 rounds, one for each bit. The wait for ACKs runs on
-- the rounds of a schedule, and ends with the round that sees the deadline.
--
-- Not modelled: of the service of access lists the personal bootstrap, the status and the activity that
-- the mobile application reads, and the metadata of firmware updates; log redaction and the support
-- export, the Prometheus text, the discovery documents of Home Assistant, reading the environment,
-- signing by RFC 6979, the HTTP routes, the diagnostics, the firmware and the mobile application.
pub mod Common
pub mod HaBridge
pub mod Runtime
pub mod Targets
pub mod AdminSecurity
pub mod Acl
pub mod AclStore
pub mod AclService
pub mod CommandSecurity
pub mod Examples

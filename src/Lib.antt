-- ===== src/Lib.antt =====
-- The state machines of the hysteria Python services: what they keep in JSON files under a lock and in
-- memory, and the operations on it.
--
-- * Store (hysteria/state_store.py): one transaction on a state file: lock, strict load, compute,
--   atomic replacement. A file is absent, corrupt, holds data, or makes its reading raise an
--   exception that the reader does not turn into its own. The host's part in a transaction is an
--   argument: whether the lock is obtained, and whether a replacement is durable, refused, or
--   visible without being surely durable. Revocation, Receipts, Admission and Alerts are made of such
--   transactions.
-- * Revocation (hysteria/revocation_queue.py): prepare, add_static_services, claim_due, release_claim,
--   complete_attempt and discard, on a dictionary of tasks. Tasks holds what they do to one task;
--   Edits what each call may write; Order, Precedence, Leases, Survival, Completion and Soundness the
--   proofs.
-- * Receipts (hysteria/rotation_recovery.py): prune_expired, lookup_bound, prepare,
--   bind_replacement_session and discard. Form holds the receipts and their validation; the SHA-256
--   of a text is a parameter. Replay and Access hold the proofs.
-- * Admission (hysteria/auth_backend.py): reserve_device_admission and its ledger. Pruning, Slots,
--   Burst, Limit and History hold the proofs.
-- * Alerts (hysteria/alerts.py): claim_alert, finish_alert_claim and the clearing transactions. Claims,
--   Once, Exclusion and History hold the proofs.
-- * Dispatch (hysteria/alerts.py): dispatch and dispatch_once, on top of Alerts; Delivery holds the
--   proofs.
-- * Limiter (hysteria/auth_service.py): PasswordWorkLimiter and its leases; Bounds and Rate hold the
--   proofs.
-- * Traffic (hysteria/traffic_limiter.py and hysteria/tuic_meter.py): normalize_usage_entry,
--   merge_traffic, traffic_totals, accumulate_daily, accumulate_hourly, accumulate_protocol_hourly and
--   the pruning of ledgers; extract_counters, counter_delta and its state, in Meter;
--   build_static_access_plan and resume_expired_temporary_disables, in Plan; the validators, in
--   Validation. Buckets, Accounting, Metering, Enforcement and Agreement hold the proofs.
-- * Service (hysteria/static_access.py): stop_fail_closed and recover_if_pending of one service;
--   Recovery holds the proofs.
-- * Users (hysteria/user_compat.py): what a user's record must be, and what it says. Rules holds the
--   accessors, Strictness the proofs. What the code uses of datetime and uuid is a parameter.
-- * Cycle (hysteria/cycle.py): the billing cycle, on ordinals of days; Tiling and Window hold the
--   proofs.
-- * Display (hysteria/display.py): the strict reading of the multiplier of quotas.
-- * Online (hysteria/online_snapshot.py): the metadata of the cached online counts; Freshness holds the
--   proofs.
-- * Auth (hysteria/auth_backend.py): Inputs holds the validators, Password the check of a hash (and
--   hash_secret of hysteria/subscription_service.py), Counts get_online_counts, User the reading of a
--   user's record, Credential the token or the password under the limiter, Quota the traffic of the
--   cycle, Decision authenticate, which composes these with Admission, and Payload
--   authenticate_payload and main. Meaning, Secrets, Accepted, Stages,
--   FailClosed, Uuids and Hashes hold the proofs.
--   One call of authenticate reads the world several times; what it sees each time is a field of one
--   argument, so any change in between is allowed.
-- * Bridge (hysteria/auth_service.py): Address holds normalize_client_addr, Message
--   decode_auth_request, Handler do_GET and do_POST, which calls authenticate_payload of Auth, and
--   Watchdog the deadlines of the sockets. Headers, Answers, Source and
--   Expiry hold the proofs.
-- * Python holds Python's integers with int and str on texts, the values of json.load, and
--   hmac.compare_digest on texts.
-- * Dict and Text are Python's dictionaries with text keys and its ordered texts; Prelude passes the
--   library's names on; Tests applies the theorems to concrete inputs.
--
-- A history is a list of calls, each with its own instant and host outcome: a lock makes the calls of
-- concurrent processes a sequence. Every function is structural recursion, so there is no fuel.
-- Instants are natural numbers in the source's unit, in microseconds where the source has floats. JSON
-- is taken as decoded: a file whose entries have not the expected types is corrupt.
--
-- Not modelled: the sockets and the readiness probes of auth_backend.py, the worker pool of
-- auth_service.py, the monthly reset, the commit order and the alerts of traffic_limiter.py, the nft calls of
-- tuic_meter.py and the message texts of alerts, none of which is covered yet; the pages, subscription
-- texts, dashboards, browser assets, deployment scripts and configuration editors, which are
-- presentation or host I/O.
pub mod Prelude
pub mod Dict
pub mod Text
pub mod Python
pub mod Store
pub mod Revocation
pub mod Admission
pub mod Limiter
pub mod Alerts
pub mod Dispatch
pub mod Receipts
pub mod Traffic
pub mod Service
pub mod Cycle
pub mod Users
pub mod Display
pub mod Online
pub mod Auth
pub mod Bridge
pub mod Tests

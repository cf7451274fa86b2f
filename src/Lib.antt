-- ===== src/Lib.antt =====
-- nodary: a control plane for inference hosts. This library models the parts of it that its
-- guarantees rest on, translated from the Go sources, whose paths are given from the repository's
-- root.
--
-- Canonical is internal/canonical: Text and Order are string.go (writeString, lessUTF16 and the
-- sort by it), Number is number.go (formatNumber, formatInt, formatBigInt), with a reader of
-- decimals in Number/Denoted; Encode is the encodeValue of canonical.go; Parse is the parse of
-- value.go over the tokens of a decoder, and Encode/Read a reader of the texts themselves, where
-- the code calls the standard library's. A text is a list of code points, of which one that is
-- no scalar value stands for bytes that are not UTF-8. A float64 is the decimal that strconv
-- prints for it.
--
-- Audit: internal/audit. Audit/Record is record.go (Record, Validate, Compute), and Audit/Digest
-- the canonical text that Compute takes the hash over. Audit/Verify is verify.go: the walk over a
-- source of records, with its reorder window and its expectations of the start; Audit/Database is
-- chain.go (AppendTx, tail, installID, the constraints of the table) and VerifyDB; Audit/Mirror is
-- the comparison of a mirror file with the rows (bySequence, Compare, VerifyMirror, Assessment),
-- and Audit/Assess how internal/cli/audit.go puts them together. Audit/Log is log.go and sink.go:
-- an audited mutation with its record (Log.Act) and its delivery. Core is Act of
-- internal/core/core.go, which composes the preview, Attest, Totp and the log. Retention is
-- internal/retention/retention.go, which cuts the chain that Audit verifies; its Usage is
-- pruneUsage, and its Pass is Prune and Plan as a whole. Gateway is internal/gateway/throttle.go:
-- Limits (limitsFor), Bucket (the token bucket) and Throttle (admit, release, the daily reset,
-- Server.admit). Identity is internal/identity: Role (role.go), Totp (totp.go: VerifyTOTP on one
-- account) and Enroll (Enroll and VerifyTOTP on the users' rows, and the key binding of
-- keybind.go, with the keyring of internal/secret an interface). Fleet/Restarts is
-- internal/fleet/transition.go: restart requests and the rolls they belong to; Fleet/Nodes is the
-- transitions of a node's state. Replay is internal/replay/replay.go with the middleware of
-- internal/api/idempotency.go, and Attest is internal/attest/attest.go. Policy is internal/policy:
-- the profile (policy.go), what it says of an origin (origin.go) and the diff of two profiles
-- (diff.go). Agent is Reconcile of internal/agent/reconcile.go, one round of a node's agent on the
-- plan it was given; systemd and the rest of its host are the commands of an interface, which may
-- answer anything, and the files it writes are its own state (Agent/Model); Agent/Units is
-- reconcileUnit. Each module has child modules for its proofs, and a module Tests with runs at
-- concrete inputs.
--
-- State is passed explicitly: a database is a record of its rows, an operation returns the next
-- state or a refusal, and a refused transaction carries no state. Sequences of operations are
-- indexed data types (Retention.History.Reach, Gateway.Throttle.Slots.Reach,
-- Fleet.Restarts.Rolls.Reach, Replay.Once.Steps.Reach, Identity.Enroll.Openable.Reach).
--
-- Audit/Log leaves to its environment whether a transaction commits and whether a sink takes a
-- record, so every answer is covered; a mutation is a function of what the database holds besides
-- the chain, and says itself whether it failed or reached outside of the transaction.
--
-- Conventions. Sequence numbers are natural numbers: those the code reads as negative or zero
-- are refused by Validate and by the table, and numbers do not reach 2^63. The hash of a record
-- is the parameter `digest` in Audit/Verify and Audit/Database, an arbitrary function, and the
-- SHA-256 of its canonical text in Audit/Digest, with SHA-256 a parameter; HMAC-SHA-1 is the
-- parameter `hmac`. The duration of a retention window is an integer of 64 bits. Stamps are
-- moments with the precision that is stored. The map of pending records is a list in order of
-- arrival, read by key, size and least key only. The error texts are left out. The arithmetic of
-- the limiter's float64s is a parameter, `Floats` of Gateway/Bucket, of which the theorems on a
-- bucket assume what IEEE 754 says: that whole numbers up to 2^53 are exact, and that rounding
-- is monotone. A roll of restarts has an id that is not in the table when it is requested.
--
-- The walk of Audit/Verify runs on fuel: the number of items and one more, which is enough since
-- each round consumes an item or a pending record. bySequence and Compare run on the number of
-- items, and of rows and items, and one more: each of their rounds takes one. The digits of a
-- number are written on that number as fuel, and a canonical text is read on its length, as every
-- step takes a character; parse runs on the number of tokens. first_free of Fleet/Restarts/Rolls
-- descends on sequence numbers.
--
-- Not modelled: the tokens of JSON and the Go values that are encoded, the reading of a mirror
-- file's lines and of a policy file, the repair of what an act notes, the sinks, and how the agent
-- plans and stages weights; the declared configuration (internal/config), the choice of a backend
-- (internal/gateway) and the life of accounts and tokens (internal/identity), whose rules are for
-- the most part SQL queries; the API and the command line; and what only moves bytes: HTTP,
-- SQLite, files, ciphers.
pub mod Prelude
pub mod Canonical
pub mod Audit
pub mod Retention
pub mod Gateway
pub mod Identity
pub mod Fleet
pub mod Replay
pub mod Attest
pub mod Policy
pub mod Core
pub mod Agent

-- ===== src/Lib.antt =====
-- Trilithon, the core of a manager of Caddy configurations: how a proposed change is tested and
-- applied to the desired state, how states are stored, rendered, loaded into Caddy and rolled back,
-- how two configurations are compared, and what that guarantees.
--
-- The parts. core/crates/core/src/mutation/apply.rs is the entry: `apply_mutation` compares the
-- version that a mutation expects with the state's, asks capability.rs whether the Caddy modules
-- that it needs are loaded, asks validate.rs for its pre-condition, adds one to the version, and
-- has the variant's step change a copy of the state and report the changes. The outcome holds the
-- new state, the changes and the audit event; the state's records are those of
-- core/crates/core/src/model/, and the events those of core/crates/core/src/audit/event.rs.
--
-- A state that was reached is stored as a snapshot in SQLite. The applier takes a snapshot to
-- Caddy: under an advisory lock it compares the version that it expects with the applied one,
-- parses and renders the state, checks the modules, loads the document, compares what Caddy runs
-- with the state, advances the applied version and audits the outcome. Its rows go by the audit
-- writer to the audit log of the same database, a chain of hashes; a row that cannot be written is
-- dropped, as the code does.
--
-- The files. Model.* are the files of model/ with the same type and function names: Route has
-- route.rs, header.rs, matcher.rs and redirect.rs, Hostname the host-name part of route.rs, State
-- has desired_state.rs and policy.rs, Config has global.rs and tls.rs, Pointer has primitive.rs and
-- `unescape_segment` of diff.rs, Identifier has identifiers.rs, Json is `serde_json::Value`.
-- Audit.Event is audit/event.rs with the list of storage/audit_vocab.rs; Audit.Redactor is
-- audit/redactor.rs with schema/mod.rs and schema/secret_fields.rs. Mutation.Types has types.rs,
-- patches.rs, error.rs and outcome.rs of mutation/; Mutation.Capability is capability.rs;
-- Mutation.Validate, Validate.Import, Url and Cidr are validate.rs; Mutation.Patch, Steps and Apply
-- are apply.rs. Diff.Flatten is diff/flatten.rs, Diff.Compare the comparison of diff.rs with the
-- list of diff/ignore_list.rs, Diff.Edit and Diff.Apply its `apply_diff`, Diff.Canonical
-- `canonicalise_value` of canonical_json.rs, Diff.Summary `summarise_diff` of diff.rs, and
-- Diff.Resolve diff/resolve.rs. Reconciler.Render and Reconciler.CapabilityCheck are render.rs and
-- capability_check.rs of reconciler/. Storage.Types is storage/types.rs with storage/error.rs;
-- Storage.Tables has the clauses of SQL over lists of rows; Storage.Sqlite is
-- core/crates/adapters/src/sqlite_storage.rs with storage_sqlite/snapshots.rs, its child Audit adds
-- storage_sqlite/audit.rs and storage/helpers.rs of the core, Drift has the drift events, Reads and
-- Tail the queries, and Locks is storage_sqlite/locks.rs. Applier.Types is reconciler/applier.rs,
-- Applier.Writer is `AuditWriter::record` of core/crates/adapters/src/audit_writer.rs for the rows
-- of the applier, and Applier.Reports and Applier.Apply are core/crates/adapters/src/applier_caddy.rs
-- over the monad of Applier.Monad. Beside a file, its children hold what is proved of it. Auth.RateLimit is
-- core/crates/adapters/src/auth/rate_limit.rs. Mutation.Invariant is the invariant of the state.
-- Examples has a small configuration, runs and tests.
--
-- How code is read. A function with `?` is a chain in the monad `Result`; a loop over a slice is a
-- function by clauses on the list, with the index as an argument; a function that changes
-- `new_state` returns it; an error keeps its rule, its pointer and its text. A `BTreeMap` is an
-- association list that `insert` keeps in the order of the keys, so that loops over it see that
-- order. An `i64` is an integer with its bound, and `checked_add(1)` gives `none` at the greatest.
-- Every identifier is its text. Base.IpAddr writes out the address parsers of std::net, and
-- Base.Text the functions on texts that the code calls. All recursion is structural, so there is no
-- fuel, but for `to_string`, whose number of digits is bounded by the number.
--
-- What is a parameter. The serialisers that serde derives, and the equality of its values, are the
-- record `Serde`: a step calls them for the values of its changes only. The diff's parameters are
-- the record `Engine`: regular expressions, `to_value`, the equality of values, and the reading of
-- a whole float as an integer. The redactor's are the registry's patterns and the hasher, a trait.
-- The login rate limiter's is DashMap's `retain` under a held reference, which is documented to
-- deadlock at times: no theorem assumes that it returns. The store's are the SHA-256 digest and the
-- text of a JSON value; the lock's are which processes live and what other processes do to the
-- table between two statements. The renderer's is the JSON parser. The applier's are the fields of
-- the record `CaddyApplier`: the client of Caddy and the diff engine, which are traits, the
-- parsers, the own process id and the time that an apply takes; and of its audit writer the clock,
-- the fresh ids and the texts of notes and ULIDs, numbered by the rows that were handed to it.
--
-- A table is the list of its rows, the last one first; a statement is a function on it, and a
-- transaction that fails leaves it as it was. Failures of the database itself are not modelled, so
-- the operations return only the errors that the code decides on.
--
-- What is not here: the bytes and hashes of canonical JSON, the adapters for HTTP and secrets, the
-- client of Caddy with its sentinel, probe and reconnection, the detection of drift, authentication
-- but for the rate limiter, the command line and the user interface, which are input and output for
-- the most part; the double of the store that tests use; serialisation, `Display` of mutation
-- errors and the generation of identifiers.
pub mod Base
pub mod Model
pub mod Audit
pub mod Mutation
pub mod Diff
pub mod Reconciler
pub mod Storage
pub mod Applier
pub mod Auth
pub mod Examples

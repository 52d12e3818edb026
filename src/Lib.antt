-- ===== src/Lib.antt =====
-- AMCP, the Agent Memory Control Plane: agents on hosts own the state of coding agents, a controller
-- asks them for collections, events and changes, keeps what it gets in a catalog, and derives an index
-- for retrieval from it. This library models the agent, the part of the Codex adapter that changes
-- files, the retrieval index and the catalog, with the messages and types they share.
--
-- Domain     crates/amcp-domain/src/lib.rs. Domain/Kinds has the enumerations and scopes,
--            Domain/Records the collected records, Domain/Change the change sets, Domain/Approval the
--            signed approvals, Domain/Foreign what comes from other crates.
-- Protocol   crates/amcp-protocol/src/lib.rs: requests and responses.
-- Providers  crates/amcp-provider-api/src/lib.rs: the adapter interface and the registry.
-- Agent      crates/amcp-agent/src/main.rs. Agent/Auth is `AgentAuth`; Agent/Approvals is
--            `consume_approval`; Agent/Events the event outbox and its pages; Agent/Stream
--            `open_event_stream` and the loop of `serve_event_stream`, one call of `step` for each
--            round; Agent/Cache the cached collections and `search_collection_cache`; Agent/Requests
--            `process_request`, where Collect and Change have the longer arms; Agent/Store the JSON
--            files of the state directory.
-- Codex      crates/amcp-codex/src/lib.rs. Codex/Files is the file system, Codex/Paths the authorized
--            paths and the trusted projects, Codex/Propose, Codex/Apply and Codex/Rollback the three
--            calls of the change workflow, Codex/Provider the adapter of the registry.
-- Rag        crates/amcp-rag/src/lib.rs. Rag/Config has the policy and its checks, Rag/Index the chunks
--            of `LexicalRagManager::index`, Rag/Retrieve `retrieve` and `evaluate`, Rag/Store the
--            tables of `PersistentRagIndex`, with `record_retrieval` and `stats` in Rag/Store/Runs.
-- Storage    crates/amcp-storage/src/lib.rs. Storage/Catalog has the tables and Storage/Key their keys,
--            Storage/Put and Storage/Ingest the loops of `ingest`, Storage/Forget
--            `forget_memory_record`, Storage/Steps the catalogs that these lead to,
--            Storage/Events `ingest_runtime_events`, Storage/Paths its paths.
-- Prelude    names of the standard library that the modules share, tests, lists, texts and results.
-- Examples   concrete runs.
--
-- A request goes through `process_request`: the version, then the token or the pairing code, then the
-- arm of its method. The arms that change a provider's state consume an approval first, then call the
-- adapter that the registry has for the change set. The state of the agent is the record `Agent`: what
-- is in memory, the files, and the world that the adapters act on, whose type is a parameter. The
-- surroundings of a request are the record `Env`: configuration, clock, random ids, and the failures
-- of the files. Codex/Provider makes the change workflow one of these adapters.
--
-- A collection that the controller receives goes through `ingest`, in one transaction over all tables;
-- a version of a source that `policy_tombstones` names is left out. `forget_memory_record` deletes a
-- memory with the artifacts, search entries and chunks of its source and makes the tombstone. The
-- chunks are in the same database as the catalog, so Storage uses the types of Rag. The index is made
-- from documents by `index`, stored by `persist_to_index`, loaded again by `load_from_index`, and
-- cleared of what the catalog has no longer by `invalidate_stale_sources`.
--
-- Conventions. A table is the list of its rows, and a query is a pass over it; a primary key, a unique
-- or a foreign key that a statement breaks is an error, with SQLite's text, and rolls its transaction
-- back, as does a fault of the database, which is a parameter of each call. What is stored as JSON or
-- as the text of a time is kept as the value. A stable sort is an insertion sort, and `chunks` of a
-- slice has one unit of fuel for each byte, of which each slice takes one at least. A request reads the clock once. A `DateTime` is its nanoseconds since the epoch, an
-- instant its milliseconds; a floating point number is its bit pattern. Sets that are only asked for
-- their members are lists. A state file of the agent, which is replaced by a write to a temporary file
-- and a rename, is replaced by one call that succeeds or fails. The files that the Codex adapter
-- replaces go through a temporary file whose calls fail one by one: it stays if the adapter fails
-- before the rename, and since its name is fresh, by a random id, the rename leaves nothing of it. The
-- text of an error is given without the values put into it. Files are
-- kept apart by the provider's id, so two ids whose file names would collide do not meet. A path is
-- the list of the components of an absolute path. All recursion is structural; `digits` has one unit
-- of fuel for each unit of its number, which is more than the number has digits, and `read_all` is
-- read with fuel that its theorem shows to be enough.
--
-- Parameters stand for HMAC-SHA256, SHA-256, RFC 3339, JSON, regular expressions, TOML, the calls
-- of the file system and what a failed write or copy leaves of its file, the tables of lower case, the arithmetic of `f32`, the decoding of bytes that
-- are no UTF-8, `AVG`, and the embedding providers of the retrieval index. What is not modelled: sockets, TLS and processes; the requests on runtime
-- threads and the waiting form of a subscription, which call a provider's app server; discovery and
-- parsing in the adapters; the table of `projects.toml` is given, since no authorized path names that
-- file; of the retrieval index the opening of its database, its migration and the two embedding
-- providers; of the catalog everything but `ingest`, `ingest_runtime_events` and `forget_memory_record`:
-- search, saved searches, tags, relationships, rebuilds, retention, change sets and
-- audit. The other crates (core, controller, mcp, platform, file providers, app server) and the
-- desktop application are not part of the library.
pub mod Prelude
pub mod Domain
pub mod Protocol
pub mod Providers
pub mod Agent
pub mod Codex
pub mod Rag
pub mod Storage
pub mod Examples

-- ===== src/Lib.antt =====
-- BIF (Before I Forget), a local task ledger: its domain, its authorization policy, the bytes behind
-- its idempotency hashes, and the transactions of its SQLite store.
--
-- A request to change an item is authorized (Application.Authorize), hashed with its actor and its
-- execution (Application.Payload) and run in one transaction on the store (Storage.Mutate). The
-- transaction loads the item (Storage.Codec), lets the domain plan the change (Domain.Mutation) and
-- writes the row, the operation, the events, the receipt and one change of the journal
-- (Storage.Journal). The journal is pruned, and a store activated or restored, by Storage.Maintenance;
-- Storage.Migration decides which stores are opened at all. A capture takes the same way
-- (Application.UseCases, Storage.Capture): it gives the item the next number of its requester and
-- project. Lists of items are filtered in SQL (Storage.Listing), as Application.ReadSemantics says what
-- a query means, and put in order and cut into pages (Application.Listing). The events of an item
-- are read as its history (Storage.History, Application.History). A reader continues a list or a
-- history with a token that is bound to its request (Application.Cursors). Where the store lies, who
-- asks, and which project a directory belongs to, is the configuration (Config).
--
-- - Base: tests, lists, results, Unicode texts with UTF-8, and the integers of SQLite's columns.
-- - Domain: src/domain.rs. A method on `&mut self` takes the item and returns it beside the result.
--   Identifier is `normalize_identifier` and the identifier types, Item the item with its parts,
--   Item.Display the `Display` of `ItemId`, Lifecycle the methods on the status, Triage
--   `Item::triage`, Mutation `Item::apply_mutation`, View `NamedView`.
-- - Application: src/application.rs. Authorize is `authorize`, Payload the bytes that
--   `mutation_payload_hash` and `capture_payload_hash` hash, Sha256 `sha256`, Request what the use
--   cases take, UseCases `capture` (named capture_item), `mutate_item_idempotent` and `mutate_item` on
--   any store, Reads `read_item` and the use cases of lists, Listing the filters, orders and pages of
--   item lists. ReadSemantics
--   is src/application/read_semantics.rs, and Fingerprint its `ItemQueryFingerprintInput`.
--   Projections is src/application/projections.rs with the projections of
--   src/application/reads.rs, History the event of a history with its use cases in
--   src/application.rs and src/application/reads.rs. Cursors is src/application/cursors.rs, with
--   Cursors.Wire for the envelope as a JSON value, Cursors.Parse for `DecodedCursor`,
--   Cursors.Context for the binding of `CursorContext`, and Cursors.Encode for its tokens.
-- - Storage: src/storage.rs, src/storage/journal.rs, src/storage/maintenance.rs and migrations/. Db
--   is the tables as lists of rows, with the constraints that the INSERTs and UPDATEs of a mutation
--   can break, Db.Captures those of a capture; Engine the requests to SQLite; Codec `decode_item`
--   and the column texts; Events the `events` rows; Session `read_store_state` and
--   `check_write_state`; Mutate `MutationRepository::mutate`; Capture
--   `CaptureRepository::capture_inner`; Repositories the two as stores of the use cases, Writes
--   their sequences; Listing the WHERE clauses of `select_items` and, in
--   src/storage/projection_reads.rs, of `page_query`, Listing.Selected `select_items` with the
--   loading of its rows, Listing.Legacy `legacy_page`; History the decoding of `history_event`, and
--   History.Queries `item_history` with src/storage/history_pages.rs; Journal, Migration and
--   Maintenance the rest.
-- - Config: src/config.rs. Mappings is `ProjectPathMappings` and `ProjectRemoteMappings`, which are
--   one type here since they differ in the key and the error only, Remotes
--   `normalize_remote_identity` and `local_remote_path`, Resolution `resolve_project`, File
--   `parse_file`, Load `load_with_environment`.
-- - Samples and Tests: the theorems at concrete inputs.
--
-- A text is the list of its code points. A `u64` or an `i64` is a number whose range is stated where
-- it matters: a cast to `i64` wraps, `checked_add` fails at 2 ^ 64 - 1 and the journal stops at
-- 2 ^ 63 - 1. Fuel: `digits` has more than the number, so than the count of its digits; the
-- padding loop of `sha256` has 64 turns, and waits for a length that comes round every 64; the chunks
-- of `sha256` have the length of the input; a walk over pages has one more than there are items.
--
-- SQLite is a parameter: `fault` tells which statement of a transaction the engine refuses, `scan` in
-- which order it answers rows that no ORDER BY puts in one, and `Engine` what its checks find and what
-- its schema and header are. A transaction that is dropped leaves the store as it was, as SQLite
-- documents. Also not modelled: the SQL of the migrations, `response_json`, which no code reads, the
-- randomness of a generation, backups, the hydration of projections, the validators of conditional
-- reads, the exposed files, and the adapters for the command line, RPC and MCP. serde_json is a
-- parameter of the cursors: the chunks that it writes for a JSON value, and the value that it reads
-- from bytes. The file system, the environment and the name of the operating system are parameters
-- of the configuration; a path is its text, divided by `/`.
pub mod Base
pub mod Domain
pub mod Application
pub mod Storage
pub mod Config
pub mod Samples
pub mod Tests

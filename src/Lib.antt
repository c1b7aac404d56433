-- ===== src/Lib.antt =====
-- A model of keryx-api-shim and the theorems about it.
--
-- The shim follows a keryx node and serves a wallet over HTTP. The node client keeps one stream to the
-- node, pairs responses with callers by id, and connects again when the stream breaks; it also hands
-- the node's notifications to the indexer. The indexer hands each accepted chain block, with its
-- transactions, to `Store::apply`, which attributes inputs and outputs to addresses, extracts the AI
-- inference payloads, and writes rows to an embedded database; a reorg takes a block back by
-- `Store::unwind_chain_block`, and a retention sweep removes old rows by `Store::expire_below`. A poller
-- builds an overlay of the unconfirmed transactions. The handlers of the API answer from the node, the
-- index and the overlay, with some answers kept in cells for a time.
--
-- Which file models what (paths from the repository's root):
--   Hex            src/indexer/inference.rs `to_hex`, `from_hex`; `from_hex_panics` says when the
--                  slicing in `from_hex` panics
--   Utf8           `String::from_utf8_lossy`, `str::from_utf8` and `str::trim`, as the code uses them
--   Inference      src/indexer/inference.rs: Private (sealed prompts), Models, Identity, Request,
--                  Response, Challenge, Markers (coinbase capabilities), Scripts
--   Address        src/indexer/address.rs
--   Store          src/indexer/store.rs: Types (rows), Keys (composite keys), Tables (the tables
--                  and `open`), Ledger (`compute_ledger`, `build_indexed` and the writes for one
--                  transaction), Ai (the inference rows), Apply, Unwind, Expire, Faults
--                  (`StoreError`), Panics (when `apply` panics), Order (the order of the scores,
--                  and the histories of a store), Linked (the entries that name a transaction by
--                  its number), Reads
--   Mempool        src/indexer/mempool.rs: `build_snapshot` and the lookups
--   Indexer        src/indexer/mod.rs: Bounded, Staging (`raw_from_proto`, `build_groups`), Sync (what
--                  `apply_groups` writes, and the loop over the removed blocks), Status, Answers
--                  (`resolve_daa`, `subscribe`), Run (the loop of `run` with `open_store`, `backfill`
--                  and `apply_groups`, and a round of the poller of src/indexer/mempool.rs)
--   Cache          src/cache.rs: the cell; Freshness has its concurrent callers as a step relation
--   Node           src/node.rs: `call` and `rpc_method!`; Client (`NodeClient` and the methods),
--                  Serve (`serve`, `route`, `forward`, `fail_all`), Actor (`actor`)
--   Api            src/error.rs; Transactions and Addresses (src/api/dto.rs); Utxos, Chain, Inference,
--                  Providers, Proxies, Info, Health (the handlers of src/api/handlers.rs, each with
--                  its response type from src/api/dto.rs), Refused (their errors from the store)
--   Startup        src/config.rs, and src/main.rs up to the start of the server; Routes and Probe
--                  (`router` and `startup_probe` of src/api/mod.rs)
--   Redb           the interface of the database, and an instance of it
--   Base           words, decimal text, lists, ASCII text, options, results
--
-- How code corresponds to definitions. Strings are their UTF-8 bytes, as lists of numbers. Integers
-- are natural numbers with the wrap-around of a release build written out (`add64`, `net_i64`), and
-- `saturating_sub` is the truncated subtraction. A table is a value: a write transaction takes the
-- tables and returns those that it commits. A loop over rows or transactions is a recursion on the
-- list. A `HashMap` is a list of pairs with an arbitrary order of iteration (`Deps.arrange`, a
-- permutation), or, for the callers of the node client, one where the order does not matter. Functions
-- that call `?` on absent data return an option, and fallible ones a `Result`. A task is a function of
-- the sequence of events that its `select!` or its channel hands out; the node, the HTTP client and the
-- clock enter as the answers and the instants of a call. A JSON body is a record of its members.
-- Which operations the database fails in a step or a request is an argument (`WriteFaults`,
-- `ReadFaults`): a failed write commits nothing, and a failed read gives its error. `hex_to_bytes` and
-- `from_hex` slice a text at every second byte and panic inside a character; they are modelled where
-- they return, and a panic in the `apply` of a batch ends the loop of the indexer (`alive`).
--
-- Parameters: the database (`Redb`: ordered tables with the laws of get, insert, remove and iteration,
-- where tables with equal contents are equal), BLAKE2b, base58, the hash map's order, the operations on
-- `f64`, the text of `{:?}` and of an HTTP status, what the data directory holds, the parser of the
-- node's address, and axum's matching of a path. The instance in Redb/Sorted shows that the laws can
-- hold together, and the tests run on it.
--
-- Bounds: the only fuel is that of `emit_words`, one unit for each bit, where a round takes five bits,
-- that of the UTF-8 loops and of `trim`, one unit for each byte, where a round takes at least one, and
-- that of `decimal`, one unit for each of the 20 digits that a `u64` can have. The twelve rounds of
-- `startup_probe` are the source's.
--
-- Not modelled: what a panic of the hex helpers leaves of the poller or of a request; the reads by
-- which the poller attributes debits do not fail, and where bincode could not decode a row, the
-- read as a whole fails; the extraction of requests is axum's; tokio's timers and locks, the
-- command line, the listener, the middleware, logging and the shutdown are libraries' (src/main.rs
-- after the start of the server); the protocol definitions are input to a generator (src/build.rs).
-- In a call of `get_or_try_init` as a function the wait for the lock takes no time; Cache/Freshness
-- has the waits.
pub mod Base
pub mod Redb
pub mod Hex
pub mod Utf8
pub mod Inference
pub mod Address
pub mod Store
pub mod Mempool
pub mod Indexer
pub mod Cache
pub mod Node
pub mod Api
pub mod Startup
mod Tests

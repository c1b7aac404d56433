-- ===== src/Startup.antt =====
-- `src/main.rs`, `src/config.rs` and `src/api/mod.rs`: how the parts are put together, the table of
-- the routes, and the probe of the node at the start. The command line, the listener, logging and
-- the middleware are libraries'.
pub mod Routes
pub mod Unambiguous
pub mod Probe
use keryx_api_shim.Base.{ℕ, Bool, false, Option, none, some, ◌++◌, Bytes, ascii, if◌then◌else◌}
use keryx_api_shim.Base.Results.{Result, ok, err}
use keryx_api_shim.Store.Tables.{Deps}
use keryx_api_shim.Node.Client.{NodeClient, spawn_client, spawn_indexed}
use keryx_api_shim.Indexer.Run
use keryx_api_shim.Indexer.Run.{Indexer}
use keryx_api_shim.Api.Health.{Caches, default_caches}

pub record Config : Type 0 where
  pub listen : Bytes
  pub node_grpc : Bytes
  pub node_timeout_secs : ℕ
  pub ipfs_gateway : Option Bytes
  pub market_upstream : Option Bytes
  pub max_utxo_limit : ℕ
  pub indexer : Bool
  pub indexer_window_days : ℕ
  pub indexer_dir : Bytes
  pub mempool_poll_ms : ℕ

-- What the command line gives where nothing is said.
unfoldable pub default_config : Config
default_config = record {
  listen = ascii "127.0.0.1:8787";
  node_grpc = ascii "http://127.0.0.1:22110";
  node_timeout_secs = 10;
  ipfs_gateway = none;
  market_upstream = none;
  max_utxo_limit = 10000;
  indexer = false;
  indexer_window_days = 7;
  indexer_dir = ascii "./indexer-data";
  mempool_poll_ms = 2000;
}

-- What the indexer's task was started with, and its state.
pub record IndexerTask (d : Deps) : Type 0 where
  pub data_dir : Bytes
  pub poll_ms : ℕ
  pub state : Indexer d

-- `AppInner`, with the timeout of the HTTP client in seconds. `F` and `V` are the types of `f64`
-- and of the market's JSON.
pub record AppInner (d : Deps) (F V : Type 0) : Type 0 where
  pub cfg : Config
  pub node : NodeClient
  pub caches : Caches F V
  pub http_timeout : ℕ
  pub indexer : Option (IndexerTask d)

-- `main` up to the start of the server: `check_url` is the parser of the node's address, with the
-- text of its error, and `debug` the text of `{:?}`.
module _ (d : Deps) (F V : Type 0) (check_url : Bytes → Result Bytes (Unit {0})) where
  unfoldable pub start_node : Config → NodeClient × Option (IndexerTask d)
  start_node cfg =
      if cfg.indexer
      then (
        spawn_indexed cfg.node_timeout_secs,
        some (record {
          data_dir = cfg.indexer_dir;
          poll_ms = cfg.mempool_poll_ms;
          state = Run.spawn d cfg.indexer_window_days;
        }),
      )
      else (spawn_client cfg.node_timeout_secs, none)

  unfoldable pub start_app : (Bytes → Bytes) → Config → Result Bytes (AppInner d F V)
  start_app debug cfg = elim (check_url cfg.node_grpc) [
    | err e ↦ err (ascii "invalid --node-grpc url " ++ debug cfg.node_grpc ++ ascii ": " ++ e)
    | ok _ ↦
        let started = start_node cfg in
        ok (record {
          cfg = cfg;
          node = started.0;
          caches = default_caches;
          http_timeout = 10;
          indexer = started.1;
        })
  ]

-- ===== src/Api/Health.antt =====
-- `/health` of `src/api/handlers.rs`, and the cells of `Caches` (`src/cache.rs`), whose times are
-- in seconds.
use keryx_api_shim.Base.{ℕ, Bool, Option, Bytes}
use mathlib.Core.Option
use keryx_api_shim.Base.Results.{Result, ok, err}
use keryx_api_shim.Cache.{TtlCell, new_cell}
use keryx_api_shim.Mempool.{Snapshot}
use keryx_api_shim.Node.{NodeError}
use keryx_api_shim.Indexer.Status.{IndexerStatus, StatusJson, json}
use keryx_api_shim.Api.{ApiError, node}
use keryx_api_shim.Api.Info.{InfoResponse}
use keryx_api_shim.Api.Providers.{ProvidersBody}

pub record ServerInfo : Type 0 where
  pub server_version : Bytes
  pub network_id : Bytes
  pub is_synced : Bool
  pub has_utxo_index : Bool
  pub virtual_daa_score : ℕ

-- `indexer` is absent where the JSON says that it is disabled.
pub record HealthBody : Type 0 where
  pub node : ServerInfo
  pub indexer : Option StatusJson

unfoldable pub health :
    Result NodeError ServerInfo → Option (IndexerStatus × Snapshot) → Result ApiError HealthBody
health server_info handle = elim server_info [
  | err e ↦ err (node e)
  | ok si ↦ ok (record { node = si; indexer = Option.map (λ h. json h.0 h.1) handle })
]

-- `F` is the type of `f64` and `V` that of the market's JSON.
pub record Caches (F V : Type 0) : Type 0 where
  pub info : TtlCell (InfoResponse F)
  pub hashrate : TtlCell F
  pub block_reward : TtlCell F
  pub market : TtlCell V
  pub node_version : TtlCell Bytes
  pub ai_providers : TtlCell ProvidersBody

unfoldable pub default_caches : {F V : Type 0} → Caches F V
default_caches = record {
  info = new_cell 2;
  hashrate = new_cell 30;
  block_reward = new_cell 30;
  market = new_cell 30;
  node_version = new_cell 30;
  ai_providers = new_cell 3;
}

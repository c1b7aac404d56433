-- ===== src/Api/Info.antt =====
-- `/info` and `/health` of `src/api/handlers.rs`. The operations on `f64` are parameters.
pub mod Median
use keryx_api_shim.Base.{
  ℕ, ◌/◌, Bool, Option, none, some, List, [], ◌∷◌, map, Bytes, ltb, leb, if◌then◌else◌, get_elem?,
  length, or_default, ◌>>=◌,
}
use mathlib.Core.Option
use keryx_api_shim.Base.Results.{Result, ok, err, unwrap_or}
use keryx_api_shim.Cache.{TtlCell, fresh, get_or_init, get_or_try_init}
use keryx_api_shim.Store.Tables.{Deps, Tables}
use keryx_api_shim.Store.Reads.{total_txs}
use keryx_api_shim.Store.Faults.{ReadFaults, attempt}
use keryx_api_shim.Node.{NodeError}
use keryx_api_shim.Indexer.Staging.{RpcOutput, RpcTransaction, RpcBlock}
use keryx_api_shim.Api.{ApiError, node}
use keryx_api_shim.Api.Providers.{try_join}

abbrev pub sompi_per_krx : ℕ
sompi_per_krx = 100000000

pub record Floats : Type 1 where
  pub F : Type 0
  pub of_u64 : ℕ → F
  pub div : F → F → F
  pub mul : F → F → F
  pub is_positive : F → Bool

-- `filter(|&a| a > 0)` on the outputs' amounts.
unfoldable pub positive_amounts : List RpcOutput → List ℕ
positive_amounts [] = []
positive_amounts (o ∷ l) =
    let rest = positive_amounts l in if ltb 0 o.amount then o.amount ∷ rest else rest

-- `sort_unstable`
unfoldable pub insert_amount : ℕ → List ℕ → List ℕ
insert_amount a [] = a ∷ []
insert_amount a (b ∷ l) = let rest = insert_amount a l in if leb a b then a ∷ b ∷ l else b ∷ rest

unfoldable pub sort_amounts : List ℕ → List ℕ
sort_amounts [] = []
sort_amounts (a ∷ l) = insert_amount a (sort_amounts l)

unfoldable pub median : List ℕ → Option ℕ
median amounts = get_elem? (sort_amounts amounts) (length amounts / 2)

-- `coinbase_reward_krx` in sompi.
unfoldable pub coinbase_reward : Option RpcBlock → Option ℕ
coinbase_reward block = do
  b ← block
  coinbase ← get_elem? b.transactions 0
  median (positive_amounts coinbase.outputs)

pub record DagInfo : Type 0 where
  pub network_name : Bytes
  pub virtual_daa_score : ℕ
  pub block_count : ℕ
  pub sink : Bytes

pub record CoinSupply : Type 0 where
  pub circulating_sompi : ℕ
  pub max_sompi : ℕ

-- The calls that `build_info` makes; of a block it reads only the transactions.
pub record InfoCalls : Type 0 where
  pub get_block_dag_info : Result NodeError DagInfo
  pub get_coin_supply : Result NodeError CoinSupply
  pub estimate_network_hashes_per_second : Result NodeError ℕ
  pub get_block : Bytes → Result NodeError (Option RpcBlock)

module _ (fl : Floats) where
  open fl use {F, of_u64, div, mul, is_positive}

  unfoldable pub to_krx : ℕ → F
  to_krx sompi = div (of_u64 sompi) (of_u64 sompi_per_krx)

  unfoldable pub coinbase_reward_krx : Option RpcBlock → Option F
  coinbase_reward_krx block = Option.map to_krx (coinbase_reward block)

-- The members that are always 0 are left out.
pub record InfoResponse (F : Type 0) : Type 0 where
  pub network : Bytes
  pub last_daa_score : ℕ
  pub block_reward_krx : F
  pub total_supply_krx : F
  pub max_supply_krx : F
  pub hashrate_hps : F
  pub total_blocks : ℕ
  pub total_txs : ℕ
  pub mined_pct : F

pub record InfoCaches (F : Type 0) : Type 0 where
  pub info : TtlCell (InfoResponse F)
  pub hashrate : TtlCell F
  pub block_reward : TtlCell F

-- The instants at which the calls of a request end.
pub record Instants : Type 0 where
  pub asked : ℕ
  pub joined : ℕ
  pub estimated : ℕ
  pub fetched : ℕ

module _ (fl : Floats) (d : Deps) (faults : ReadFaults) where
  unfoldable pub build_info :
      Bool
      → InfoCalls
      → Option (Tables d)
      → Instants
      → InfoCaches fl.F
      → Result ApiError (InfoResponse fl.F) × InfoCaches fl.F
  build_info second_first calls store t c =
      elim (try_join second_first calls.get_block_dag_info calls.get_coin_supply) [
        | err e ↦ (err (node e), c)
        | ok p ↦
            let hashes : fl.F = elim calls.estimate_network_hashes_per_second [
              | err e ↦ fl.of_u64 0
              | ok h ↦ fl.of_u64 h
            ] in
            let h = get_or_init t.joined t.estimated hashes c.hashrate in
            let reward : fl.F = elim (calls.get_block p.0.sink) [
              | err e ↦ fl.of_u64 0
              | ok resp ↦ or_default (coinbase_reward_krx fl resp) (fl.of_u64 0)
            ] in
            let r = get_or_init t.estimated t.fetched reward c.block_reward in
            let circulating = to_krx fl p.1.circulating_sompi in
            let max_supply = to_krx fl p.1.max_sompi in
            (
              ok (record {
                network = p.0.network_name;
                last_daa_score = p.0.virtual_daa_score;
                block_reward_krx = r.0;
                total_supply_krx = circulating;
                max_supply_krx = max_supply;
                hashrate_hps = h.0;
                total_blocks = p.0.block_count;
                total_txs = elim store [
                  | none ↦ 0
                  | some s ↦ unwrap_or (attempt faults.total_txs (total_txs d s)) 0
                ];
                mined_pct =
                    if fl.is_positive max_supply
                    then fl.mul (fl.div circulating max_supply) (fl.of_u64 100)
                    else fl.of_u64 0;
              }),
              record c { hashrate = h.1; block_reward = r.1 },
            )
      ]

  -- `info`: the other cells change only if the `init` runs.
  unfoldable pub info :
      Bool
      → InfoCalls
      → Option (Tables d)
      → Instants
      → InfoCaches fl.F
      → Result ApiError (InfoResponse fl.F) × InfoCaches fl.F
  info second_first calls store t c =
      let built = build_info second_first calls store t c in
      let r = get_or_try_init t.asked t.fetched built.0 c.info in
      elim (fresh t.asked c.info) [
        | some value ↦ (r.0, c)
        | none ↦ (r.0, record built.1 { info = r.1 })
      ]

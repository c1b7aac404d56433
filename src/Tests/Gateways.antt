-- ===== src/Tests/Gateways.antt =====
-- Answers of the HTTP API on inference, providers, proxies and the node.
use keryx_api_shim.Base.{◌*◌, arith}
use keryx_api_shim.Api.Info.{median}
use keryx_api_shim.Api.Info.Median.{smaller, larger, median_halves}
use keryx_api_shim.Base.{
  ℕ, ◌≤◌, ◌≡◌, refl, ◌⊎◌, true, false, none, some, Option, [], ◌∷◌, Bytes, ascii, length, All, ltb,
  if◌then◌else◌,
}
use keryx_api_shim.Base.Ascii.{is_ascii_digit, split}
use keryx_api_shim.Base.Decimal.{parse_u64, parse_digits}
use keryx_api_shim.Base.Results.{Result, ok, err}
use keryx_api_shim.Cache.{new_cell, fresh, get_or_try_init}
use keryx_api_shim.Node.{NodeError, timeout}
use keryx_api_shim.Mempool.{build_snapshot}
use keryx_api_shim.Utf8.Trim.{trim, trim_front, front_space, back_space}
use keryx_api_shim.Api.{node}
use keryx_api_shim.Api.Chain.{IndexerHandle}
use keryx_api_shim.Api.Inference.{infer}
use keryx_api_shim.Api.Inference.Public.{IsPublic, infer-IsPublic}
use keryx_api_shim.Api.Providers.{
  ProviderCaches, ServiceProviders, is_too_old, ltb_version, node_version, next_part, take_version,
  trim_start, calls_of, try_join, ai_providers,
}
use keryx_api_shim.Api.Providers.Gate.{asks_providers, IsNewEnough, ai_providers_gate}
use keryx_api_shim.Api.Proxies.{ipfs_max_bytes, read_body}
use keryx_api_shim.Api.Proxies.Capped.{arrived, concat, too_large, read_body_capped}
use keryx_api_shim.Api.Info.{Floats, InfoCalls, InfoCaches, Instants, build_info, info}
use keryx_api_shim.Api.Info.Median.{info_err}
use keryx_api_shim.Tests.Data.{sound_reads, deps, prefix, empty}

abbrev handle : IndexerHandle deps
handle = record { store = some empty; mempool = build_snapshot deps prefix empty [] }

infer-IsPublic_example :
    All IsPublic (infer deps sound_reads (some handle) (some 500) none)
    × (length (infer deps sound_reads (some handle) (some 500) none) ≤ 200)
infer-IsPublic_example = infer-IsPublic deps sound_reads (some handle) (some 500) none

abbrev server_version : Result NodeError Bytes
server_version = ok (ascii "v1.7.0")

abbrev provider_caches : ProviderCaches
provider_caches = record { version = new_cell 30; providers = new_cell 3 }

abbrev get_providers : Option ℕ → Result NodeError ServiceProviders
get_providers w = ok (record { virtual_daa_score = 9; providers = [] })

providers_asked :
    asks_providers (ai_providers server_version false get_providers 0 1 2 provider_caches).2 ≡ true
unfolding asks_providers ai_providers is_too_old ltb_version node_version next_part take_version
    trim_start calls_of get_or_try_init fresh new_cell trim trim_front front_space back_space split
    parse_u64 parse_digits is_ascii_digit
providers_asked = refl

ai_providers_gate_example :
    (version : Bytes) × ((get_or_try_init 0 1 server_version (new_cell 30)).0 ≡ ok version)
    × ((v : ℕ × ℕ × ℕ) × (node_version version ≡ some v) × IsNewEnough v)
ai_providers_gate_example =
    ai_providers_gate server_version false get_providers 0 1 2 provider_caches providers_asked

read_body_capped_example : read_body [] (arrived ((1 ∷ 2 ∷ []) ∷ (3 ∷ []) ∷ [])) ≡ (
    if ltb ipfs_max_bytes (length (concat ((1 ∷ 2 ∷ []) ∷ (3 ∷ []) ∷ [])))
    then too_large
    else ok (concat ((1 ∷ 2 ∷ []) ∷ (3 ∷ []) ∷ [])))
read_body_capped_example = read_body_capped ((1 ∷ 2 ∷ []) ∷ (3 ∷ []) ∷ [])

-- The operations of `f64` by those of the numbers.
abbrev floats : Floats
floats = record { F = ℕ; of_u64 = λ n. n; div = λ a b. a; mul = λ a b. a; is_positive = λ a. false }

abbrev calls : InfoCalls
calls = record {
  get_block_dag_info = err timeout;
  get_coin_supply = ok (record { circulating_sompi = 1; max_sompi = 2 });
  estimate_network_hashes_per_second = ok 3;
  get_block = λ h. err timeout;
}

abbrev info_caches : InfoCaches ℕ
info_caches = record { info = new_cell 2; hashrate = new_cell 30; block_reward = new_cell 30 }

abbrev instants : Instants
instants = record { asked = 0; joined = 1; estimated = 2; fetched = 3 }

info_failed :
    (info floats deps sound_reads false calls none instants info_caches).0 ≡ err (node timeout)
unfolding info build_info try_join get_or_try_init fresh new_cell
info_failed = refl

info_err_example :
    (f : NodeError) × (node timeout ≡ node f)
    × ((calls.get_block_dag_info ≡ err f) ⊎ (calls.get_coin_supply ≡ err f))
info_err_example =
    info_err floats deps sound_reads false calls none instants info_caches (node timeout)
      info_failed

median_halves_example :
    (m : ℕ) × (median (5 ∷ 9 ∷ 5 ∷ 7 ∷ []) ≡ some m)
    × (2 * smaller m (5 ∷ 9 ∷ 5 ∷ 7 ∷ []) ≤ 4)
    × (2 * larger m (5 ∷ 9 ∷ 5 ∷ 7 ∷ []) ≤ 4)
median_halves_example = median_halves (5 ∷ 9 ∷ 5 ∷ 7 ∷ []) (omega arith)

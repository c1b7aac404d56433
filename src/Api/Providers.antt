-- ===== src/Api/Providers.antt =====
-- `ai_providers` of `src/api/handlers.rs`: the version gate, and the two cached calls.
pub mod Gate
pub mod Versions
use keryx_api_shim.Base.{
  ℕ, zero, suc, ◌+◌, Bool, true, false, ◌&&◌, ◌||◌, not, Option, none, some, List, [], ◌∷◌, ◌++◌,
  map, Bytes, ltb, ◌==◌, if◌then◌else◌, length, take, or_default, ascii, ◌>>=◌,
}
use keryx_api_shim.Base.Ascii.{is_ascii_digit, split}
use keryx_api_shim.Base.Decimal.{parse_u64}
use keryx_api_shim.Base.Results.{Result, ok, err}
use keryx_api_shim.Utf8.Trim.{trim}
use keryx_api_shim.Cache.{TtlCell, fresh, get_or_try_init}
use keryx_api_shim.Node.{NodeError}
use keryx_api_shim.Api.{ApiError, unavailable, node}
use keryx_api_shim.Api.Inference.{model_name}

abbrev pub service_providers_min_node : ℕ × ℕ × ℕ
service_providers_min_node = (1, 6, 4)

abbrev pub providers_window_daa : ℕ
providers_window_daa = 18000

-- `trim_start_matches(c)`
unfoldable pub trim_start : ℕ → Bytes → Bytes
trim_start c [] = []
trim_start c (b ∷ s) = let rest = trim_start c s in if b == c then rest else b ∷ s

-- `&v[..end]`, where `end` is the first byte that is neither a digit nor a dot.
unfoldable pub take_version : Bytes → Bytes
unfolding is_ascii_digit
take_version [] = []
take_version (b ∷ s) =
    let rest = b ∷ take_version s in if is_ascii_digit b || b == b'.' then rest else []

-- `parts.next().flatten()` on the parts that are left, and what is left after it.
unfoldable pub next_part : List (Option ℕ) → Option ℕ × List (Option ℕ)
next_part [] = (none, [])
next_part (p ∷ parts) = (p, parts)

unfoldable pub node_version : Bytes → Option (ℕ × ℕ × ℕ)
node_version v =
    let parts = map parse_u64 (split b'.' (take_version (trim_start b'v' (trim v)))) in
    let first = next_part parts in
    let second = next_part first.1 in
    let third = next_part second.1 in
    (do major ← first.0; some (major, or_default second.0 0, or_default third.0 0))

-- `<` on triples
unfoldable pub ltb_version : ℕ × ℕ × ℕ → ℕ × ℕ × ℕ → Bool
ltb_version a b = ltb a.0 b.0 || (a.0 == b.0 && (ltb a.1 b.1 || (a.1 == b.1 && ltb a.2 b.2)))

unfoldable pub is_too_old : Bytes → Bool
is_too_old version = elim (node_version version) [
  | none ↦ true
  | some v ↦ ltb_version v service_providers_min_node
]

pub record ServiceProvider : Type 0 where
  pub tier : ℕ
  pub model_id : Bytes
  pub identity : Bytes
  pub escrow_pubkey : Bytes

pub record ServiceProviders : Type 0 where
  pub virtual_daa_score : ℕ
  pub providers : List ServiceProvider

pub record ProviderRow : Type 0 where
  pub tier : ℕ
  pub model : Bytes
  pub model_id : Bytes
  pub identity : Bytes
  pub escrow_pubkey : Bytes

pub record ProvidersBody : Type 0 where
  pub virtual_daa_score : ℕ
  pub window_daa : ℕ
  pub cohort : List ProviderRow
  pub window : List ProviderRow

unfoldable pub provider_json : ServiceProvider → ProviderRow
provider_json p = record {
  tier = p.tier;
  model = model_name p.model_id;
  model_id = p.model_id;
  identity = p.identity;
  escrow_pubkey = p.escrow_pubkey;
}

-- `try_join!`: of two errors it returns the one that comes first.
unfoldable pub try_join : {E A B : Type 0} → Bool → Result E A → Result E B → Result E (A × B)
try_join second_first (ok a) (ok b) = ok (a, b)
try_join second_first (ok a) (err e) = err e
try_join second_first (err e) (ok b) = err e
try_join second_first (err e) (err f) = err (if second_first then f else e)

-- What a request asks of the node.
pub data NodeCall : Type 0 where
  get_server_info : NodeCall
  get_service_providers : Option ℕ → NodeCall

pub record ProviderCaches : Type 0 where
  pub version : TtlCell Bytes
  pub providers : TtlCell ProvidersBody

unfoldable pub providers_body :
    Bool → (Option ℕ → Result NodeError ServiceProviders) → Result ApiError ProvidersBody
providers_body second_first get_providers =
    elim (try_join second_first (get_providers none) (get_providers (some providers_window_daa))) [
      | err e ↦ err (node e)
      | ok p ↦ ok (record {
        virtual_daa_score = p.0.virtual_daa_score;
        window_daa = providers_window_daa;
        cohort = map provider_json p.0.providers;
        window = map provider_json p.1.providers;
      })
    ]

-- The calls that a cell's `init` makes: none if the cell is fresh.
unfoldable pub calls_of : {T : Type 0} → Option T → List NodeCall → List NodeCall
calls_of none calls = calls
calls_of (some value) calls = []

-- A request at the time `now`, whose calls end at `known` and at `done`: the response, the caches,
-- and the calls to the node.
module _ (server_version : Result NodeError Bytes) (second_first : Bool)
    (get_providers : Option ℕ → Result NodeError ServiceProviders) where
  unfoldable pub ai_providers :
      ℕ → ℕ → ℕ → ProviderCaches → Result ApiError ProvidersBody × ProviderCaches × List NodeCall
  unfolding fresh
  ai_providers now known done c =
      let asked = calls_of (fresh now c.version) (get_server_info ∷ []) in
      let v = get_or_try_init now known server_version c.version in
      let c' = record c { version = v.1 } in
      elim v.0 [
        | err e ↦ (err (node e), c', asked)
        | ok version ↦
            let calls = calls_of (fresh known c.providers) (
              get_service_providers none
              ∷ get_service_providers (some providers_window_daa)
              ∷ []) in
            let p =
              get_or_try_init known done (providers_body second_first get_providers) c.providers in
            if is_too_old version
            then (
              err (
                  unavailable (
                    ascii "keryx node "
                    ++ version
                    ++ ascii " cannot list service providers (needs 1.6.4 or newer)")),
              c',
              asked,
            )
            else (p.0, record c' { providers = p.1 }, asked ++ calls)
      ]

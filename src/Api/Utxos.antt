-- ===== src/Api/Utxos.antt =====
-- The endpoints on the coins of an address (`src/api/handlers.rs`), with `utxo_dto` of
-- `src/api/dto.rs`. `node` is the client's call, and `debug` the `{:?}` of a string.
pub mod Largest
use keryx_api_shim.Base.{
  ℕ, Bool, true, false, ◌&&◌, ◌||◌, Option, none, some, List, [], ◌∷◌, Bytes, ltb, ◌==◌,
  if◌then◌else◌, length, take, max, or_default, bytes_eq, ◌>>=◌,
}
use keryx_api_shim.Base.Results.{Result, ok, err, map_err}
use keryx_api_shim.Base.Results
use keryx_api_shim.Redb.Order.{lt_bytes}
use keryx_api_shim.Node.{NodeError}
use keryx_api_shim.Indexer.Staging.{RpcOutpoint, RpcScriptPublicKey}
use keryx_api_shim.Api.{ApiError, bad_request, node}
use keryx_api_shim.Api.Addresses.{validate_address}

pub record RpcUtxoEntry : Type 0 where
  pub amount : ℕ
  pub script_public_key : Option RpcScriptPublicKey
  pub block_daa_score : ℕ
  pub is_coinbase : Bool

pub record RpcUtxosByAddressesEntry : Type 0 where
  pub outpoint : Option RpcOutpoint
  pub utxo_entry : Option RpcUtxoEntry

pub record UtxoDto : Type 0 where
  pub transaction_id : Bytes
  pub index : ℕ
  pub amount_sompi : ℕ
  pub script_version : ℕ
  pub script_public_key : Bytes
  pub block_daa_score : ℕ
  pub is_coinbase : Bool

unfoldable pub utxo_dto : RpcUtxosByAddressesEntry → Option UtxoDto
utxo_dto entry = do
  outpoint ← entry.outpoint
  utxo ← entry.utxo_entry
  let spk = or_default utxo.script_public_key (record { version = 0; script_public_key = [] })
  some (record {
    transaction_id = outpoint.transaction_id;
    index = outpoint.index;
    amount_sompi = utxo.amount;
    script_version = spk.version;
    script_public_key = spk.script_public_key;
    block_daa_score = utxo.block_daa_score;
    is_coinbase = utxo.is_coinbase;
  })

-- `filter_map`
abbrev pub filter_map {ℓ κ} : {A : Type ℓ} {B : Type κ} → (A → Option B) → List A → List B
filter_map f [] = []
filter_map f (x ∷ l) = elim (f x) [ none ↦ filter_map f l | some y ↦ y ∷ filter_map f l ]

-- `n.clamp(lo, hi)`, for lo ≤ hi
abbrev pub clamp : ℕ → ℕ → ℕ → ℕ
clamp lo hi n = if ltb n lo then lo else if ltb hi n then hi else n

-- Whether a coin goes before another: the larger amount, then the transaction id, then the index.
unfoldable pub goes_before : UtxoDto → UtxoDto → Bool
goes_before a b =
    ltb b.amount_sompi a.amount_sompi
    || (a.amount_sompi == b.amount_sompi
        && (lt_bytes a.transaction_id b.transaction_id
            || (bytes_eq a.transaction_id b.transaction_id && ltb a.index b.index)))

-- `sort_unstable_by`: no two coins of a node have the same outpoint.
unfoldable pub insert_utxo : UtxoDto → List UtxoDto → List UtxoDto
insert_utxo a [] = a ∷ []
insert_utxo a (b ∷ l) =
    let rest = insert_utxo a l in if goes_before a b then a ∷ b ∷ l else b ∷ rest

unfoldable pub sort_utxos : List UtxoDto → List UtxoDto
sort_utxos [] = []
sort_utxos (a ∷ l) = insert_utxo a (sort_utxos l)

-- `UtxoQuery::limit` as the handler uses it; `max_utxo_limit` is the configuration's.
unfoldable pub utxo_limit : ℕ → Option ℕ → ℕ
utxo_limit max_utxo_limit limit = clamp 1 (max max_utxo_limit 1) (or_default limit 400)

module _ (debug : Bytes → Bytes)
    (get_utxos : Bytes → Result NodeError (List RpcUtxosByAddressesEntry)) where
  unfoldable pub fetch_utxos : Bytes → Result ApiError (List UtxoDto)
  fetch_utxos address = elim (get_utxos address) [
    | err e ↦ err (node e)
    | ok entries ↦ ok (filter_map utxo_dto entries)
  ]

  unfoldable pub utxos : ℕ → Bytes → Option ℕ → Result ApiError (List UtxoDto)
  utxos max_utxo_limit address limit = elim (validate_address debug address) [
    | err m ↦ err (bad_request m)
    | ok _ ↦ elim (fetch_utxos address) [
      | err e ↦ err e
      | ok all ↦ ok (take (utxo_limit max_utxo_limit limit) (sort_utxos all))
    ]
  ]

  unfoldable pub utxo_count : Bytes → Result ApiError ℕ
  utxo_count address = elim (validate_address debug address) [
    | err m ↦ err (bad_request m)
    | ok _ ↦ elim (fetch_utxos address) [ err e ↦ err e | ok all ↦ ok (length all) ]
  ]

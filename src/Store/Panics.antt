-- ===== src/Store/Panics.antt =====
-- When `Store::apply` panics: `hex_to_bytes` and `from_hex` slice a text at every second byte, and a
-- slice that ends inside a character panics. A panic in the write transaction commits nothing.
use keryx_api_shim.Base.{
  Bool, false, ◌&&◌, ◌||◌, none, some, List, [], ◌∷◌, Bytes, if◌then◌else◌, bytes_eq, is_some,
}
use keryx_api_shim.Hex.{from_hex_panics}
use keryx_api_shim.Store.Types.{RawIn, RawOut, RawTx, AcceptedGroup}
use keryx_api_shim.Store.Tables.{Deps, LedgerTables, Tables}
use keryx_api_shim.Store.Ledger.{funding_output}
use keryx_api_shim.Store.Ai.{subnet_ai_request, subnet_ai_response, subnet_ai_challenge}
use keryx_api_shim.Store.Apply.{Run, apply_tx, apply_group, start}

-- `script_to_address` of the outputs' scripts.
unfoldable pub outputs_panic : List RawOut → Bool
outputs_panic [] = false
outputs_panic (o ∷ outs) = from_hex_panics o.script_public_key || outputs_panic outs

-- The payload is decoded on the inference subnetworks and in a coinbase.
unfoldable pub payload_panics : RawTx → Bool
payload_panics raw =
    (bytes_eq raw.subnetwork_id subnet_ai_request
      || bytes_eq raw.subnetwork_id subnet_ai_response
      || bytes_eq raw.subnetwork_id subnet_ai_challenge
      || raw.is_coinbase)
    && from_hex_panics raw.payload

module _ (d : Deps) (prefix : Bytes) where
  open d.db use {texts}

  -- `script_to_address` of the spent outputs' scripts.
  unfoldable pub inputs_panic : LedgerTables d → List RawIn → Bool
  inputs_panic t [] = false
  inputs_panic t (inp ∷ inps) =
      elim (funding_output d t inp) [ none ↦ false | some o ↦ from_hex_panics o.script_public_key ]
      || inputs_panic t inps

  unfoldable pub tx_panics : LedgerTables d → RawTx → Bool
  tx_panics t raw =
      outputs_panic raw.outputs
      || (if raw.is_coinbase then false else inputs_panic t raw.inputs)
      || payload_panics raw

  unfoldable pub txs_panic : AcceptedGroup → List RawTx → Run d → Bool
  txs_panic group [] r = false
  txs_panic group (raw ∷ txs) r =
      tx_panics r.ledger raw || txs_panic group txs (apply_tx d prefix group raw r)

  -- A block that is applied already is skipped.
  unfoldable pub group_panics : AcceptedGroup → Run d → Bool
  group_panics group r =
      if is_some (texts.get r.blocks.applied group.chain_block_hash)
      then false
      else txs_panic group group.txs r

  unfoldable pub groups_panic : List AcceptedGroup → Run d → Bool
  groups_panic [] r = false
  groups_panic (group ∷ groups) r =
      group_panics group r || groups_panic groups (apply_group d prefix group r)

  -- Whether `apply` panics, where the database does not fail it before.
  unfoldable pub apply_panics : List AcceptedGroup → Tables d → Bool
  apply_panics groups s = groups_panic groups (start d prefix s)

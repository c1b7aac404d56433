-- ===== src/Tests/Answers.antt =====
-- Answers of the HTTP API.
use keryx_api_shim.Base.{
  ℕ, ◌*◌, ◌≤◌, ◌≡◌, refl, ◌↔◌, Option, true, false, none, some, List, [], ◌∷◌, ◌++◌, map, Bytes,
  ascii, replicate, take, max, arith, bytes_eq, bytes_eq_refl,
}
use keryx_api_shim.Base.Ascii.{is_ascii_hexdigit, is_ascii_digit}
use keryx_api_shim.Base.Results.{Result, ok}
use keryx_api_shim.Node.{NodeError}
use keryx_api_shim.Store.Types.{RawTx}
use keryx_api_shim.Store.Keys.{outpoint_key}
use keryx_api_shim.Store.Ledger.{index_tx}
use keryx_api_shim.Store.Ledger.Undo.{spends_key}
use keryx_api_shim.Store.Reads.{address_totals, history_rows, window_low_daa}
use keryx_api_shim.Store.Reads.Pages.{values}
use keryx_api_shim.Mempool.{Snapshot, build_snapshot, render_input, render_pending}
use keryx_api_shim.Mempool.Overlay.{last_spender, all_rows}
use keryx_api_shim.Indexer.Staging.{raw_input}
use keryx_api_shim.Address.{encode_address, prefix_for_network}
use keryx_api_shim.Api.Addresses.{split_once, is_one_of, is_char_of, validate_address}
use keryx_api_shim.Api.Addresses.Encoded.{validate_address-encode_address}
use keryx_api_shim.Api.Transactions.{TxInputJson, TxJson, input_into_proto, validate}
use keryx_api_shim.Api.Transactions.Checks.{well_formed, validate_ok}
use keryx_api_shim.Api.Transactions.Sequences.{reread_input, reread_input-render_input}
use keryx_api_shim.Api.Utxos.{
  RpcUtxosByAddressesEntry, UtxoDto, filter_map, utxo_dto, utxo_limit, utxos,
}
use keryx_api_shim.Api.Utxos.Largest.{IsPage, utxos_largest}
use keryx_api_shim.Api.Chain.{
  pending_tx, history_tx, is_txid, mempool, accepted, IndexerHandle, address_history, transaction,
  outpoint_spend,
}
use keryx_api_shim.Api.Inference.{inference}
use keryx_api_shim.Api.Refused.{Tells, spend_fault, opened, history_fault, index_reads_tell}
use keryx_api_shim.Api.Chain.Spends.{outpoint_spend-index_tx}
use keryx_api_shim.Api.Chain.Pending.{address_history_shown}
use keryx_api_shim.Tests.Data.{
  sound_reads, failing_reads, deps, prefix, key32, coinbase, spend, block, empty,
}

abbrev debug : Bytes → Bytes
debug s = s

abbrev address : Bytes
address = ascii "keryx:qqrswpc8"

address_ok : validate_address debug address ≡ ok tt
unfolding validate_address split_once is_one_of is_char_of bytes_eq
address_ok = refl

validate_address-encode_address_example :
    validate_address debug (encode_address 0 key32 (prefix_for_network (ascii "keryx-testnet-1")))
    ≡ ok tt
validate_address-encode_address_example =
    validate_address-encode_address debug 0 key32 (ascii "keryx-testnet-1")

abbrev id64 : Bytes
id64 = replicate 64 b'a'

abbrev tx_input : TxInputJson
tx_input = record {
  transaction_id = id64;
  index = 0;
  signature_script = ascii "00";
  sequence = 18446744073709551615;
  sig_op_count = 1;
}

abbrev tx_json : TxJson
tx_json = record {
  version = 0;
  inputs = tx_input ∷ [];
  outputs = record { amount = 5; script_version = 0; script_public_key = ascii "20ac" } ∷ [];
  lock_time = 0;
  subnetwork_id = replicate 40 b'0';
  gas = 0;
  payload = [];
  mass = 0;
}

validate_ok_example : (validate tx_json ≡ ok tt) ↔ (well_formed tx_json ≡ true)
validate_ok_example = validate_ok tx_json

reread_input-render_input_example :
    reread_input debug (render_input (raw_input (input_into_proto tx_input))) ≡ ok tx_input
reread_input-render_input_example = reread_input-render_input debug tx_input (omega arith)

abbrev coin : ℕ → RpcUtxosByAddressesEntry
coin n = record {
  outpoint = some (record { transaction_id = id64; index = n });
  utxo_entry = some (record {
    amount = n * 100;
    script_public_key = none;
    block_daa_score = 1;
    is_coinbase = false;
  });
}

abbrev coins : List RpcUtxosByAddressesEntry
coins = coin 1 ∷ coin 3 ∷ coin 2 ∷ []

abbrev get_coins : Bytes → Result NodeError (List RpcUtxosByAddressesEntry)
get_coins a = ok coins

utxos_largest_example :
    (page : List UtxoDto) × (utxos debug get_coins 1000 address (some 2) ≡ ok page)
    × IsPage (utxo_limit 1000 (some 2)) (filter_map utxo_dto coins) page
    × (1 ≤ utxo_limit 1000 (some 2))
    × (utxo_limit 1000 (some 2) ≤ max 1000 1)
utxos_largest_example = utxos_largest debug get_coins 1000 address (some 2) coins address_ok refl

-- A transaction that spends an outpoint with a full id.
abbrev claim_tx : RawTx
claim_tx = record spend {
  inputs =
      record {
        previous_tx_id = id64;
        previous_index = 1;
        signature_script = [];
        sequence = 0;
        sig_op_count = 1;
      }
      ∷ [];
}

id64_ok : is_txid id64 ≡ true
unfolding is_txid is_ascii_hexdigit is_ascii_digit
id64_ok = refl

claim_spends : spends_key (outpoint_key id64 1) claim_tx.inputs ≡ true
unfolding spends_key
claim_spends = ground (arith, bytes_eq_refl (outpoint_key id64 1))

outpoint_spend-index_tx_example :
    outpoint_spend deps sound_reads
      (some (record {
        store = some (record empty { ledger = index_tx deps prefix block claim_tx 0 empty.ledger });
        mempool = build_snapshot deps prefix empty (coinbase ∷ []);
      }))
      id64
      1
    ≡ elim (last_spender (outpoint_key id64 1) (coinbase ∷ [])) [
      | some pending ↦ ok (mempool, pending)
      | none ↦ ok (
        accepted,
        record (render_pending claim_tx) {
          block_hash = some block.chain_block_hash;
          daa_score = block.daa_score;
        },
      )
    ]
outpoint_spend-index_tx_example =
    outpoint_spend-index_tx deps prefix sound_reads block claim_tx 0 empty (coinbase ∷ []) id64 1
      refl id64_ok refl claim_spends

address_history_shown_example :
    address_history deps sound_reads debug
      (some
        (record { store = some empty; mempool = build_snapshot deps prefix empty (coinbase ∷ []) }))
      address
      (some 5)
      none
    ≡ ok (record {
      address = address;
      total_received_sompi = (address_totals deps empty address).0;
      total_tx_count = (address_totals deps empty address).1;
      transactions =
          map (pending_tx address) (all_rows deps prefix empty address (coinbase ∷ []))
          ++ map (history_tx address) (take 5 (values (history_rows deps empty address)));
      history_since_daa = window_low_daa deps empty;
    })
address_history_shown_example =
    address_history_shown deps prefix sound_reads debug empty (coinbase ∷ []) address (some 5) none
      refl refl refl address_ok

abbrev no_overlay : Snapshot
no_overlay = build_snapshot deps prefix empty []

abbrev opened_empty : Option (IndexerHandle deps)
opened_empty = opened deps failing_reads empty no_overlay

index_reads_tell_example :
    Tells
      (history_fault deps failing_reads empty no_overlay)
      (address_history deps failing_reads debug opened_empty address none none)
    × Tells failing_reads.tx_by_id (transaction deps failing_reads opened_empty id64)
    × Tells
        (spend_fault failing_reads no_overlay id64 0)
        (outpoint_spend deps failing_reads opened_empty id64 0)
    × Tells failing_reads.inference_by_tx (inference deps failing_reads opened_empty id64)
index_reads_tell_example =
    index_reads_tell deps failing_reads empty no_overlay debug address id64 0 none none address_ok
      id64_ok

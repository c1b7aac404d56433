-- ===== src/Tests/Index.antt =====
-- Runs of the index on the concrete block.
use keryx_api_shim.Base.{ℕ, ◌≡◌, refl, true, List, [], ◌∷◌, Bytes, ascii, length, arith, bytes_eq}
use keryx_api_shim.Redb.Defs.{lookup}
use keryx_api_shim.Redb.Sorted.{sorted_engine, sorted_redb}
use keryx_api_shim.Store.Types.{LedgerEntry}
use keryx_api_shim.Store.Keys.{outpoint_key}
use keryx_api_shim.Store.Ledger.Undo.{spends_key}
use keryx_api_shim.Store.Apply.Idempotent.{apply_idempotent}
use keryx_api_shim.Store.Tables.{Tables, no_tables, meta_or_zero}
use keryx_api_shim.Store.Ledger.{
  build_indexed, index_tx, compute_ledger, amounts, credit_outputs, attribute, entry_or_default,
  add_credit, ledger_entry, read_totals,
}
use keryx_api_shim.Store.Ledger.Totals.{AllRoom}
use keryx_api_shim.Store.Unwind.{remove_tx, unwind_chain_block}
use keryx_api_shim.Store.Unwind.Inverse.{IsFresh, CanApply, remove_tx-index_tx}
use keryx_api_shim.Store.Unwind.Reorg.{unwind_chain_block-apply}
use keryx_api_shim.Store.Apply.{start, apply}
use keryx_api_shim.Address.{
  encode_address, to_words, to_words_loop, emit_words, checksum_words, polymod, polymod_loop,
  add_generators, char_of_word, single_push, hashed_push, script_form, hex_to_bytes,
  script_to_address,
}
use keryx_api_shim.Hex.{hex_pairs, byte_of_hex, hex_value}
use keryx_api_shim.Base.Words.{to_be_bytes, add64}
use keryx_api_shim.Tests.Data.{deps, prefix, coinbase, spend, block, next_block, empty}

abbrev address : Bytes
address = ascii "keryx:qqrswpc8qurswpc8qurswpc8qurswpc8qurswpc8qurswpc8qursws4lyz69x"

coinbase_ledger :
    compute_ledger deps empty.ledger prefix coinbase
    ≡ record { address = address; credit = 500; debit = 0 } ∷ []
unfolding compute_ledger amounts credit_outputs attribute script_to_address hex_to_bytes hex_pairs
    byte_of_hex hex_value script_form single_push hashed_push encode_address to_words to_words_loop
    emit_words checksum_words polymod polymod_loop add_generators char_of_word to_be_bytes
    entry_or_default add_credit bytes_eq ledger_entry add64
coinbase_ledger = refl

coinbase-IsFresh : IsFresh deps prefix coinbase 0 empty.ledger
unfolding no_tables sorted_redb sorted_engine lookup read_totals
coinbase-IsFresh = record {
  num_free = refl;
  id_free = refl;
  spends_free = λ h j k. refl;
  history_free = λ j k. refl;
  room =
      rw coinbase_ledger (
        record { received = omega arith; counted = omega arith; not_empty = λ e. ground arith },
        tt,
      );
}

pub block_applies : CanApply deps prefix block empty
unfolding no_tables sorted_redb sorted_engine lookup start meta_or_zero
block_applies = record {
  not_applied = refl;
  not_accepted = refl;
  not_chained = refl;
  fresh = (coinbase-IsFresh, tt);
  fits = omega arith;
}

abbrev applied : Tables deps
applied = (apply deps prefix (block ∷ []) empty).0

abbrev unwound : Tables deps × ℕ
unwound = unwind_chain_block deps block.chain_block_hash applied

unwind_chain_block-apply_example :
    (unwound.0.ledger ≡ empty.ledger)
    × (unwound.0.blocks ≡ empty.blocks)
    × (meta_or_zero deps unwound.0 (ascii "total_txs")
        ≡ meta_or_zero deps empty (ascii "total_txs"))
    × (unwound.1 ≡ length block.txs)
unwind_chain_block-apply_example = unwind_chain_block-apply deps prefix block empty block_applies

apply_idempotent_example :
    (apply deps prefix
      (block ∷ next_block ∷ [])
      (apply deps prefix (block ∷ next_block ∷ []) empty).0).0
    ≡ (apply deps prefix (block ∷ next_block ∷ []) empty).0
apply_idempotent_example = apply_idempotent deps prefix (block ∷ next_block ∷ []) empty

remove_tx-index_tx_example :
    remove_tx deps 0
      (build_indexed coinbase 0 block (compute_ledger deps empty.ledger prefix coinbase))
      (index_tx deps prefix block coinbase 0 empty.ledger)
    ≡ empty.ledger
remove_tx-index_tx_example =
    remove_tx-index_tx deps prefix block coinbase 0 empty.ledger coinbase-IsFresh

spend_is_keyed : spends_key (outpoint_key (ascii "aa") 0) spend.inputs ≡ true
unfolding spends_key outpoint_key to_be_bytes bytes_eq
spend_is_keyed = refl

abbrev entries : List LedgerEntry
entries = record { address = ascii "x"; credit = 5; debit = 0 } ∷ []

entries_room : AllRoom deps entries empty.ledger.addr_totals
unfolding no_tables sorted_redb sorted_engine lookup read_totals
entries_room =
    (record { received = omega arith; counted = omega arith; not_empty = λ e. ground arith }, tt)

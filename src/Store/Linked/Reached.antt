-- ===== src/Store/Linked/Reached.antt =====
-- The lookups by id and by outpoint in the stores that a history of writes leads to.
use keryx_api_shim.Base.{
  ℕ, ◌≡◌, true, false, refl, ◌⊎◌, ◌+◌, ◌<◌, List, ◌∷◌, ◌++◌, none, some, Bytes, ascii, arith,
  bytes_eq, Option-cases, inl, inr,
}
use keryx_api_shim.Store.Types.{IndexedTx, RawTx, AcceptedGroup}
use keryx_api_shim.Store.Keys.{outpoint_key}
use keryx_api_shim.Store.Tables.{Deps, Tables, no_tables, open_store, meta_or_zero}
use keryx_api_shim.Store.Unwind.{set_checkpoint}
use keryx_api_shim.Store.Reads.{tx_by_id, spend_of}
use keryx_api_shim.Store.Order.Reached.{
  History, created, reopened, applied, unwound, lowered, checkpointed, expired,
}
use keryx_api_shim.Base.Words.{u64_mod}
use keryx_api_shim.Store.Apply.{apply_groups, start, apply}
use keryx_api_shim.Store.Order.Applied.{groups_rise, tx_count}
use keryx_api_shim.Store.Linked.Recorded.{consumes, IsRecorded, IsRecorded-apply}
use keryx_api_shim.Store.Linked.{spends_stored}
use keryx_api_shim.Store.Linked.Steps.{
  TablesLinked, apply-TablesLinked, unwind_chain_block-TablesLinked, expire_below-TablesLinked,
}

module _ (d : Deps) (prefix : Bytes) where
  open d.db use {nums, texts}

  no_tables-TablesLinked : TablesLinked d (no_tables d)
  unfolding no_tables
  no_tables-TablesLinked = record {
    numbered = λ n r e. absurd (ground (arith, nums.get-create IndexedTx n));
    ids_lead = λ id n e. absurd (ground (arith, texts.get-create ℕ id));
    spends_lead = λ key n e. absurd (ground (arith, texts.get-create ℕ key));
  }

  open_store-TablesLinked :
      (s : Tables d) → TablesLinked d s → TablesLinked d (open_store d s prefix).tables
  unfolding open_store meta_or_zero bytes_eq
  open_store-TablesLinked s h = elim (Option-cases (texts.get s.meta (ascii "schema"))) [
    | inl e ↦ rw (e, open_store) (simp texts.get-insert h)
    | inr (v, e) ↦ rw (e, open_store) h
  ]

  set_checkpoint-TablesLinked :
      (hash : Bytes) (daa : ℕ) (s : Tables d)
      → TablesLinked d s
      → TablesLinked d (set_checkpoint d hash daa s)
  unfolding set_checkpoint meta_or_zero bytes_eq
  set_checkpoint-TablesLinked hash daa s h = simp texts.get-insert h

  pub History-TablesLinked : {top : ℕ} {s : Tables d} → History d prefix top s → TablesLinked d s
  History-TablesLinked created = open_store-TablesLinked (no_tables d) no_tables-TablesLinked
  History-TablesLinked (reopened {top} {s} h) = open_store-TablesLinked s (History-TablesLinked h)
  History-TablesLinked (applied {top} {s} groups rise room h) =
      apply-TablesLinked d prefix groups s (History-TablesLinked h) room
  History-TablesLinked (unwound {top} {s} hash h) =
      unwind_chain_block-TablesLinked d hash s (History-TablesLinked h)
  History-TablesLinked (lowered low none_above h) = History-TablesLinked h
  History-TablesLinked (checkpointed {top} {s} hash daa h) =
      set_checkpoint-TablesLinked hash daa s (History-TablesLinked h)
  History-TablesLinked (expired {top} {s} cutoff h) =
      expire_below-TablesLinked d cutoff s (History-TablesLinked h)

  -- The lookup by id finds a transaction with the id.
  pub record FindsId (s : Tables d) (tx_id : Bytes) : Type 0 where
    pub row : IndexedTx
    pub found : tx_by_id d s tx_id ≡ some row
    pub same_id : row.tx_id ≡ tx_id

  -- The lookup by outpoint finds a transaction that is no coinbase and spends the outpoint.
  pub record FindsSpend (s : Tables d) (txid : Bytes) (index : ℕ) : Type 0 where
    pub row : IndexedTx
    pub found : spend_of d s txid index ≡ some row
    pub spent : spends_stored (outpoint_key txid index) row.inputs ≡ true
    pub not_coinbase : row.is_coinbase ≡ false

  module _ (s : Tables d) (h : TablesLinked d s) where
    tx_by_id_linked :
        (tx_id : Bytes) (n : ℕ) → texts.get s.ledger.tx_by_id tx_id ≡ some n → FindsId s tx_id
    unfolding tx_by_id
    tx_by_id_linked tx_id n e =
        let link = h.ids_lead tx_id n e in
        record { row = link.row; found = rw (e, link.found, tx_by_id) refl; same_id = link.same_id }

    spend_of_linked :
        (txid : Bytes) (index n : ℕ)
        → texts.get s.ledger.outpoint_spend (outpoint_key txid index) ≡ some n
        → FindsSpend s txid index
    unfolding spend_of
    spend_of_linked txid index n e =
        let link = h.spends_lead (outpoint_key txid index) n e in
        record {
          row = link.row;
          found = rw (e, link.found, spend_of) refl;
          spent = link.spent;
          not_coinbase = link.not_coinbase;
        }

    tx_by_id_sound : (tx_id : Bytes) → (tx_by_id d s tx_id ≡ none) ⊎ FindsId s tx_id
    unfolding tx_by_id
    tx_by_id_sound tx_id = elim (Option-cases (texts.get s.ledger.tx_by_id tx_id)) [
      | inl e ↦ inl (rw (e, tx_by_id) refl)
      | inr (n, e) ↦ inr (tx_by_id_linked tx_id n e)
    ]

    spend_of_sound :
        (txid : Bytes) (index : ℕ) → (spend_of d s txid index ≡ none) ⊎ FindsSpend s txid index
    unfolding spend_of
    spend_of_sound txid index =
        elim (Option-cases (texts.get s.ledger.outpoint_spend (outpoint_key txid index))) [
          | inl e ↦ inl (rw (e, spend_of) refl)
          | inr (n, e) ↦ inr (spend_of_linked txid index n e)
        ]

    recorded_found :
        (raw : RawTx) (txid : Bytes) (index : ℕ)
        → IsRecorded d prefix raw (outpoint_key txid index) s.ledger
        → FindsId s raw.tx_id
          × ((consumes raw (outpoint_key txid index) ≡ false) ⊎ FindsSpend s txid index)
    recorded_found raw txid index r = (
      elim (Option-cases (texts.get s.ledger.tx_by_id raw.tx_id)) [
        | inl e ↦ absurd (ground (arith, e, r.by_id))
        | inr (n, e) ↦ tx_by_id_linked raw.tx_id n e
      ],
      elim r.by_spend [
        | inl e ↦ inl e
        | inr k ↦
            elim (Option-cases (texts.get s.ledger.outpoint_spend (outpoint_key txid index))) [
              | inl e ↦ absurd (ground (arith, e, k))
              | inr (n, e) ↦ inr (spend_of_linked txid index n e)
            ]
      ],
    )

  -- Take a store that starts from a new file and takes any sequence of restarts, batches with
  -- rising scores, unwound blocks, checkpoints and sweeps, with room in the transaction counter.
  -- A lookup by id finds nothing or a transaction with the id, and one by outpoint nothing or a
  -- transaction that is no coinbase and has an input that spends it. After one more such batch,
  -- the lookups find a transaction for the id of each transaction of a block that was not applied
  -- before, and for each outpoint that one of them spends.
  pub lookups_reached :
      {top : ℕ} {s : Tables d} (before after : List AcceptedGroup) (group : AcceptedGroup)
      (l m : List RawTx) (raw : RawTx) (tx_id txid : Bytes) (index : ℕ)
      → History d prefix top s
      → groups_rise top (before ++ group ∷ after) ≡ true
      → meta_or_zero d s (ascii "next_tx_num") + tx_count (before ++ group ∷ after) < u64_mod
      → texts.get
          (apply_groups d prefix before (start d prefix s)).blocks.applied
          group.chain_block_hash
        ≡ none
      → group.txs ≡ l ++ raw ∷ m
      → (let s' = (apply d prefix (before ++ group ∷ after) s).0 in
          ((tx_by_id d s tx_id ≡ none) ⊎ FindsId s tx_id)
          × ((spend_of d s txid index ≡ none) ⊎ FindsSpend s txid index)
          × FindsId s' raw.tx_id
          × ((consumes raw (outpoint_key txid index) ≡ false) ⊎ FindsSpend s' txid index))
  lookups_reached {top} {s} before after group l m raw tx_id txid index h rise room new e =
      let linked = History-TablesLinked h in
      let s' = (apply d prefix (before ++ group ∷ after) s).0 in
      let found =
        recorded_found s' (History-TablesLinked (applied (before ++ group ∷ after) rise room h)) raw
          txid index
          (IsRecorded-apply d prefix raw (outpoint_key txid index) before after group l m s new
            e) in
      (tx_by_id_sound s linked tx_id, spend_of_sound s linked txid index, found.0, found.1)

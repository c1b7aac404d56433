-- ===== src/Api/Refused.antt =====
-- The errors that a handler passes on from the database.
use keryx_api_shim.Base.{
  ℕ, ◌≡◌, ◌≢◌, refl, arith, true, Option, none, some, List, [], ◌∷◌, Bytes, Option-cases, inl, inr,
}
use keryx_api_shim.Base.Results.{Result, ok, err}
use keryx_api_shim.Store.Faults.{StoreError, store_error_text, ReadFaults}
use keryx_api_shim.Store.Tables.{Deps, Tables}
use keryx_api_shim.Store.Reads.{tx_by_id, spend_of, inference_by_tx}
use keryx_api_shim.Mempool.{Snapshot, pending_spend}
use keryx_api_shim.Api.{ApiError, internal, from_store_error, query}
use keryx_api_shim.Api.Addresses.{validate_address}
use keryx_api_shim.Api.Chain.{
  IndexerHandle, is_txid, open_index, require_index, address_history, transaction, outpoint_spend,
}
use keryx_api_shim.Api.Inference.{inference}

-- A result tells of a fault: with a fault it is the internal error with the text of the fault, and
-- without one it is no internal error.
abbrev pub Tells : {A : Type 0} → Option StoreError → Result ApiError A → Type 0
Tells (some e) r = r ≡ err (internal (store_error_text e))
Tells none r = (m : Bytes) → r ≢ err (internal m)

-- Of the reads of a request, in their order, the first that fails.
unfoldable pub first_fault : List (Option StoreError) → Option StoreError
first_fault [] = none
first_fault (none ∷ faults) = first_fault faults
first_fault (some e ∷ faults) = some e

-- The read of the store for a spend, which a pending spend makes needless.
unfoldable pub spend_fault : ReadFaults → Snapshot → Bytes → ℕ → Option StoreError
spend_fault faults overlay tx_id index = elim (pending_spend overlay tx_id index) [
  | some _ ↦ none
  | none ↦ faults.spend_of
]

module _ (d : Deps) (faults : ReadFaults) (s : Tables d) (overlay : Snapshot) where
  abbrev pub opened : Option (IndexerHandle d)
  opened = some (record { store = some s; mempool = overlay })

  transaction-Tells :
      (tx_id : Bytes)
      → is_txid tx_id ≡ true
      → Tells faults.tx_by_id (transaction d faults opened tx_id)
  unfolding transaction require_index open_index query from_store_error
  transaction-Tells tx_id b = elim (Option-cases faults.tx_by_id) [
    | inr (e, f) ↦ rw (b, f, transaction) refl
    | inl f ↦ elim (Option-cases (tx_by_id d s tx_id)) [
      | inl r ↦ rw (b, f, r, transaction) (λ m h. absurd (ground (arith, h)))
      | inr (itx, r) ↦ rw (b, f, r, transaction) (λ m h. absurd (ground (arith, h)))
    ]
  ]

  inference-Tells :
      (tx_id : Bytes)
      → is_txid tx_id ≡ true
      → Tells faults.inference_by_tx (inference d faults opened tx_id)
  unfolding inference require_index open_index query from_store_error
  inference-Tells tx_id b = elim (Option-cases faults.inference_by_tx) [
    | inr (e, f) ↦ rw (b, f, inference) refl
    | inl f ↦ elim (Option-cases (inference_by_tx d s tx_id)) [
      | inl r ↦ rw (b, f, r, inference) (λ m h. absurd (ground (arith, h)))
      | inr (detail, r) ↦ rw (b, f, r, inference) (λ m h. absurd (ground (arith, h)))
    ]
  ]

  outpoint_spend-Tells :
      (tx_id : Bytes) (index : ℕ)
      → is_txid tx_id ≡ true
      → Tells (spend_fault faults overlay tx_id index) (outpoint_spend d faults opened tx_id index)
  unfolding outpoint_spend spend_fault open_index query from_store_error
  outpoint_spend-Tells tx_id index b = elim (Option-cases (pending_spend overlay tx_id index)) [
    | inr (p, g) ↦ rw (b, g, outpoint_spend, spend_fault) (λ m h. absurd (ground (arith, h)))
    | inl g ↦ elim (Option-cases faults.spend_of) [
      | inr (e, f) ↦ rw (b, g, f, outpoint_spend, spend_fault) refl
      | inl f ↦ elim (Option-cases (spend_of d s tx_id index)) [
        | inl r ↦ rw (b, g, f, r, outpoint_spend, spend_fault) (λ m h. absurd (ground (arith, h)))
        | inr (itx, r) ↦
            rw (b, g, f, r, outpoint_spend, spend_fault) (λ m h. absurd (ground (arith, h)))
      ]
    ]
  ]

  abbrev pub history_fault : Option StoreError
  history_fault =
      first_fault (faults.address_history ∷ faults.address_totals ∷ faults.window_low_daa ∷ [])

  address_history-Tells :
      (debug : Bytes → Bytes) (address : Bytes) (limit offset : Option ℕ)
      → validate_address debug address ≡ ok tt
      → Tells history_fault (address_history d faults debug opened address limit offset)
  unfolding address_history open_index query from_store_error first_fault
  address_history-Tells debug address limit offset valid =
      elim (Option-cases faults.address_history) [
        | inr (e, f) ↦ rw (valid, f, address_history, first_fault) refl
        | inl f ↦ elim (Option-cases faults.address_totals) [
          | inr (e, g) ↦ rw (valid, f, g, address_history, first_fault) refl
          | inl g ↦ elim (Option-cases faults.window_low_daa) [
            | inr (e, h) ↦ rw (valid, f, g, h, address_history, first_fault) refl
            | inl h ↦
                rw (valid, f, g, h, address_history, first_fault)
                  (λ m k. absurd (ground (arith, k)))
          ]
        ]
      ]

  -- With an open index, for an address that passes the check and a transaction id of 64 hex
  -- digits: when a read that `/addresses`, `/transactions`, `/outpoints` or `/inference` needs
  -- fails, it answers with an internal error that has the text of the first read that failed, and
  -- when none fails, it does not answer with an internal error; a spend that is pending needs no
  -- read.
  pub index_reads_tell :
      (debug : Bytes → Bytes) (address tx_id : Bytes) (index : ℕ) (limit offset : Option ℕ)
      → validate_address debug address ≡ ok tt
      → is_txid tx_id ≡ true
      → Tells history_fault (address_history d faults debug opened address limit offset)
        × Tells faults.tx_by_id (transaction d faults opened tx_id)
        × Tells
            (spend_fault faults overlay tx_id index)
            (outpoint_spend d faults opened tx_id index)
        × Tells faults.inference_by_tx (inference d faults opened tx_id)
  index_reads_tell debug address tx_id index limit offset valid hex = (
    address_history-Tells debug address limit offset valid,
    transaction-Tells tx_id hex,
    outpoint_spend-Tells tx_id index hex,
    inference-Tells tx_id hex,
  )

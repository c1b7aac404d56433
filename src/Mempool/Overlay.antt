-- ===== src/Mempool/Overlay.antt =====
-- What the overlay shows of the pending transactions.
use mathlib.Core.List.{append-nil, append_assoc}
use keryx_api_shim.Base.{
  ℕ, ◌≡◌, refl, sym, ap, ◌∙◌, Bool, true, false, Option, none, some, List, [], ◌∷◌, ◌++◌, Bytes,
  if◌then◌else◌, get_elem?, or_default, or_else, bytes_eq, bytes_eq_iff, arith, Option-cases,
  Bool-cases, inl, inr,
}
use keryx_api_shim.Base.Maps.{HashMap, map_get, map_insert, get-map_insert}
use keryx_api_shim.Store.Types.{RawIn, RawTx}
use keryx_api_shim.Store.Keys.{outpoint_key}
use keryx_api_shim.Store.Tables.{Deps, Tables}
use keryx_api_shim.Store.Ledger.{Amounts, funding_output, debit_inputs, amounts}
use keryx_api_shim.Store.Ledger.Undo.{spends_key}
use keryx_api_shim.Store.Reads.{tx_by_id}
use keryx_api_shim.Mempool.{
  PendingRow, Rendered, Snapshot, render_pending, add_spends, pending_row, push_row, push_rows,
  debit_pending, pending_amounts, add_pending, add_all, build_snapshot, pending_spend,
  pending_history,
}

-- The last of the transactions that spends the outpoint with this key.
unfoldable pub last_spender : Bytes → List RawTx → Option Rendered
last_spender key [] = none
last_spender key (raw ∷ txs) = or_else (last_spender key txs) (
    if raw.is_coinbase
    then none
    else if spends_key key raw.inputs
    then some (render_pending raw)
    else none)

get-add_spends :
    (rendered : Rendered) (inps : List RawIn) (m : HashMap Rendered) (key : Bytes)
    → map_get key (add_spends rendered inps m)
      ≡ (if spends_key key inps then some rendered else map_get key m)
unfolding add_spends spends_key
get-add_spends rendered [] m key = refl
get-add_spends rendered (inp ∷ inps) m key =
    let k = outpoint_key inp.previous_tx_id inp.previous_index in
    ground (
      arith,
      get-add_spends rendered inps (map_insert k rendered m) key,
      get-map_insert k key rendered m,
    )

get-spends_after :
    (coinbase : Bool) (rendered : Rendered) (inps : List RawIn) (m : HashMap Rendered) (key : Bytes)
    → map_get key (if coinbase then m else add_spends rendered inps m) ≡ (
        if coinbase
        then map_get key m
        else if spends_key key inps
        then some rendered
        else map_get key m)
get-spends_after true rendered inps m key = refl
get-spends_after false rendered inps m key = get-add_spends rendered inps m key

or_else_merge :
    (later : Option Rendered) (coinbase spent : Bool) (r : Rendered) (before : Option Rendered)
    → or_else later (if coinbase then before else if spent then some r else before)
      ≡ or_else (or_else later (if coinbase then none else if spent then some r else none)) before
or_else_merge none true spent r before = refl
or_else_merge none false true r before = refl
or_else_merge none false false r before = refl
or_else_merge (some x) coinbase spent r before = refl

-- The rows of one transaction for an address.
unfoldable pub rows_of : RawTx → Bytes → Amounts → List PendingRow
rows_of raw address [] = []
rows_of raw address ((a, p) ∷ acc) =
    let rest = rows_of raw address acc in
    if bytes_eq a address then pending_row raw p ∷ rest else rest

get-push_row :
    (a : Bytes) (row : PendingRow) (m : HashMap (List PendingRow)) (address : Bytes)
    → or_default (map_get address (push_row a row m)) []
      ≡ or_default (map_get address m) [] ++ (if bytes_eq a address then row ∷ [] else [])
unfolding push_row
get-push_row a row m address =
    let rows = or_default (map_get a m) [] ++ row ∷ [] in
    ap (λ o. or_default o []) (get-map_insert a address rows m)
    ∙ elim (Bool-cases (bytes_eq a address)) [
      | inl e ↦ rw (e, (bytes_eq_iff a address).0 e) refl
      | inr e ↦ rw e (sym (append-nil (or_default (map_get address m) [])))
    ]

get-push_rows :
    (raw : RawTx) (acc : Amounts) (m : HashMap (List PendingRow)) (address : Bytes)
    → or_default (map_get address (push_rows raw acc m)) []
      ≡ or_default (map_get address m) [] ++ rows_of raw address acc
unfolding push_rows rows_of
get-push_rows raw [] m address = sym (append-nil (or_default (map_get address m) []))
get-push_rows raw ((a, p) ∷ acc) m address =
    let rows = or_default (map_get address m) [] in
    let row = pending_row raw p in
    get-push_rows raw acc (push_row a row m) address
    ∙ ap (λ l. l ++ rows_of raw address acc) (get-push_row a row m address)
    ∙ append_assoc rows (if bytes_eq a address then row ∷ [] else []) (rows_of raw address acc)
    ∙ ap (λ l. rows ++ l)
        (elim (Bool-cases (bytes_eq a address)) [ inl e ↦ rw e refl | inr e ↦ rw e refl ])

module _ (d : Deps) (prefix : Bytes) (store : Tables d) where
  open d.db use {nums, texts}

  debit_pending-debit_inputs :
      (inps : List RawIn) (acc : Amounts)
      → debit_pending d prefix store inps acc ≡ debit_inputs d store.ledger prefix inps acc
  unfolding debit_pending debit_inputs funding_output tx_by_id
  debit_pending-debit_inputs [] acc = refl
  debit_pending-debit_inputs (inp ∷ inps) acc =
      elim (Option-cases (texts.get store.ledger.tx_by_id inp.previous_tx_id)) [
        | inl e ↦ rw e (debit_pending-debit_inputs inps acc)
        | inr (n, e) ↦ elim (Option-cases (nums.get store.ledger.tx n)) [
          | inl f ↦ rw (e, f) (debit_pending-debit_inputs inps acc)
          | inr (funding, f) ↦
              rw (e, f)
                (elim (Option-cases (get_elem? funding.outputs inp.previous_index)) [
                  | inl g ↦ rw g (debit_pending-debit_inputs inps acc)
                  | inr (o, g) ↦ rw g (debit_pending-debit_inputs inps _)
                ])
        ]
      ]

  -- A pending transaction is attributed to the addresses that it will be attributed to when it is
  -- indexed, with the same amounts, if it is indexed while the confirmed rows are as they are.
  pub pending_amounts-amounts :
      (raw : RawTx) → pending_amounts d prefix store raw ≡ amounts d store.ledger prefix raw
  unfolding pending_amounts amounts
  pending_amounts-amounts raw = elim (Bool-cases raw.is_coinbase) [
    | inl e ↦ rw e refl
    | inr e ↦ rw e (debit_pending-debit_inputs raw.inputs _)
  ]

  spends-add_all :
      (txs : List RawTx) (s : Snapshot) (key : Bytes)
      → map_get key (add_all d prefix store txs s).spends
        ≡ or_else (last_spender key txs) (map_get key s.spends)
  unfolding add_all add_pending last_spender
  spends-add_all [] s key = refl
  spends-add_all (raw ∷ txs) s key =
      spends-add_all txs (add_pending d prefix store raw s) key
      ∙ ap (or_else (last_spender key txs))
          (get-spends_after raw.is_coinbase (render_pending raw) raw.inputs s.spends key)
      ∙ or_else_merge (last_spender key txs) raw.is_coinbase (spends_key key raw.inputs)
          (render_pending raw) (map_get key s.spends)

  -- For an outpoint the overlay shows the last of the pending transactions, coinbases left out,
  -- that have an input with the outpoint's key, and nothing if there is none.
  pub pending_spend-build_snapshot :
      (txs : List RawTx) (txid : Bytes) (index : ℕ)
      → pending_spend (build_snapshot d prefix store txs) txid index
        ≡ last_spender (outpoint_key txid index) txs
  unfolding pending_spend build_snapshot map_get
  pending_spend-build_snapshot txs txid index =
      spends-add_all txs (record { spends = []; history = []; count = 0 }) (outpoint_key txid index)
      ∙ or_else_none (last_spender (outpoint_key txid index) txs)
    where
      or_else_none : (o : Option Rendered) → or_else o none ≡ o
      or_else_none none = refl
      or_else_none (some r) = refl

  -- The rows of all the transactions for an address, in their order.
  unfoldable pub all_rows : Bytes → List RawTx → List PendingRow
  all_rows address [] = []
  all_rows address (raw ∷ txs) =
      rows_of raw address (d.arrange (amounts d store.ledger prefix raw)) ++ all_rows address txs

  history-add_all :
      (txs : List RawTx) (s : Snapshot) (address : Bytes)
      → or_default (map_get address (add_all d prefix store txs s).history) []
        ≡ or_default (map_get address s.history) [] ++ all_rows address txs
  unfolding add_all add_pending all_rows
  history-add_all [] s address = sym (append-nil (or_default (map_get address s.history) []))
  history-add_all (raw ∷ txs) s address =
      let rows = rows_of raw address (d.arrange (amounts d store.ledger prefix raw)) in
      history-add_all txs (add_pending d prefix store raw s) address
      ∙ ap (λ l. l ++ all_rows address txs)
          (get-push_rows raw (d.arrange (pending_amounts d prefix store raw)) s.history address
            ∙ ap
                (λ acc.
                  or_default (map_get address s.history) [] ++ rows_of raw address (d.arrange acc))
                (pending_amounts-amounts raw))
      ∙ append_assoc (or_default (map_get address s.history) []) rows (all_rows address txs)

  -- The pending history of an address holds the rows of the pending transactions for it, in the
  -- transactions' order, each with the amounts that indexing the transaction would give it.
  pub pending_history-build_snapshot :
      (txs : List RawTx) (address : Bytes)
      → pending_history (build_snapshot d prefix store txs) address ≡ all_rows address txs
  unfolding pending_history build_snapshot map_get
  pending_history-build_snapshot txs address =
      history-add_all txs (record { spends = []; history = []; count = 0 }) address

-- ===== src/Store/Ledger/Undo.antt =====
-- Recording the spends and the history rows of a transaction, and removing them again.
use keryx_api_shim.Base.{
  ℕ, ◌≡◌, refl, Bool, true, false, ◌||◌, none, some, List, [], ◌∷◌, map, Bytes, if◌then◌else◌,
  arith, bytes_eq,
}
use keryx_api_shim.Store.Types.{RawIn, RawTx, AcceptedGroup, LedgerEntry, HistRow}
use keryx_api_shim.Store.Keys.{outpoint_key, hist_key}
use keryx_api_shim.Store.Tables.{Deps, TextTable}
use keryx_api_shim.Store.Ledger.{stored_in, hist_row, record_spends, record_history}
use keryx_api_shim.Store.Unwind.{remove_spends, remove_history}

-- Whether `j` is the outpoint of one of the inputs.
unfoldable pub spends_key : Bytes → List RawIn → Bool
spends_key j [] = false
spends_key j (inp ∷ inps) =
    bytes_eq (outpoint_key inp.previous_tx_id inp.previous_index) j || spends_key j inps

-- Whether `j` is the history key of one of the entries.
unfoldable pub history_key : ℕ → Bytes → List LedgerEntry → Bool
history_key tx_num j [] = false
history_key tx_num j (e ∷ es) = bytes_eq (hist_key e.address tx_num) j || history_key tx_num j es

module _ (d : Deps) where
  open d.db use {texts}

  pub get-record_spends :
      (tx_num : ℕ) (inps : List RawIn) (t : TextTable d ℕ) (j : Bytes)
      → texts.get (record_spends d tx_num inps t) j
        ≡ (if spends_key j inps then some tx_num else texts.get t j)
  unfolding record_spends spends_key
  get-record_spends tx_num [] t j = refl
  get-record_spends tx_num (inp ∷ inps) t j =
      let k = outpoint_key inp.previous_tx_id inp.previous_index in
      ground (
        arith,
        get-record_spends tx_num inps (texts.insert t k tx_num) j,
        texts.get-insert t k tx_num j,
      )

  pub get-remove_spends :
      {V : Type 0} (inps : List RawIn) (t : TextTable d V) (j : Bytes)
      → texts.get (remove_spends d (map stored_in inps) t) j
        ≡ (if spends_key j inps then none else texts.get t j)
  unfolding remove_spends spends_key stored_in
  get-remove_spends [] t j = refl
  get-remove_spends (inp ∷ inps) t j =
      let k = outpoint_key inp.previous_tx_id inp.previous_index in
      ground (arith, get-remove_spends inps (texts.remove t k) j, texts.get-remove t k j)

  -- The spends of outpoints that were not recorded before leave no trace.
  pub remove_spends-record_spends :
      (tx_num : ℕ) (inps : List RawIn) (t : TextTable d ℕ)
      → ((j : Bytes) → spends_key j inps ≡ true → texts.get t j ≡ none)
      → remove_spends d (map stored_in inps) (record_spends d tx_num inps t) ≡ t
  remove_spends-record_spends tx_num inps t h = texts.extensional _ _ λ j. ground (
    arith,
    get-remove_spends inps (record_spends d tx_num inps t) j,
    get-record_spends tx_num inps t j,
    h j,
  )

  pub get-record_history_ne :
      (raw : RawTx) (group : AcceptedGroup) (tx_num : ℕ) (es : List LedgerEntry)
      (t : TextTable d HistRow) (j : Bytes)
      → history_key tx_num j es ≡ false
      → texts.get (record_history d raw group tx_num es t) j ≡ texts.get t j
  unfolding record_history history_key
  get-record_history_ne raw group tx_num [] t j h = refl
  get-record_history_ne raw group tx_num (e ∷ es) t j h =
      let row = hist_row raw group e in
      let k = hist_key e.address tx_num in
      ground (
        arith,
        get-record_history_ne raw group tx_num es (texts.insert t k row) j,
        texts.get-insert t k row j,
      )

  pub get-remove_history :
      {V : Type 0} (tx_num : ℕ) (es : List LedgerEntry) (t : TextTable d V) (j : Bytes)
      → texts.get (remove_history d tx_num es t) j
        ≡ (if history_key tx_num j es then none else texts.get t j)
  unfolding remove_history history_key
  get-remove_history tx_num [] t j = refl
  get-remove_history tx_num (e ∷ es) t j =
      let k = hist_key e.address tx_num in
      ground (arith, get-remove_history tx_num es (texts.remove t k) j, texts.get-remove t k j)

  pub remove_history-record_history :
      (raw : RawTx) (group : AcceptedGroup) (tx_num : ℕ) (es : List LedgerEntry)
      (t : TextTable d HistRow)
      → ((j : Bytes) → history_key tx_num j es ≡ true → texts.get t j ≡ none)
      → remove_history d tx_num es (record_history d raw group tx_num es t) ≡ t
  remove_history-record_history raw group tx_num es t h = texts.extensional _ _ λ j. ground (
    arith,
    get-remove_history tx_num es (record_history d raw group tx_num es t) j,
    get-record_history_ne raw group tx_num es t j,
    h j,
  )

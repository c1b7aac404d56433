-- ===== src/Api/Chain/Pending.antt =====
-- What the history of an address shows.
use keryx_api_shim.Base.{
  ℕ, ◌≡◌, refl, Option, none, some, List, [], ◌++◌, map, Bytes, ◌==◌, if◌then◌else◌, take, drop,
  or_default,
}
use keryx_api_shim.Base.Results.{ok}
use keryx_api_shim.Store.Types.{RawTx}
use keryx_api_shim.Store.Faults.{ReadFaults}
use keryx_api_shim.Api.{query}
use keryx_api_shim.Store.Tables.{Deps, Tables}
use keryx_api_shim.Store.Reads.{history_rows, address_totals, window_low_daa}
use keryx_api_shim.Store.Reads.Pages.{values, address_history_page}
use keryx_api_shim.Mempool.{build_snapshot}
use keryx_api_shim.Mempool.Overlay.{all_rows, pending_history-build_snapshot}
use keryx_api_shim.Api.Addresses.{validate_address}
use keryx_api_shim.Api.Utxos.{clamp}
use keryx_api_shim.Api.Chain.{
  history_max_limit, pending_tx, history_tx, open_index, address_history,
}

module _ (d : Deps) (prefix : Bytes) where
  -- For an address that passes the check, when the three reads of the store succeed, the history
  -- shows the totals and, on a page from offset 0, the rows of the pending transactions, and then
  -- the newest-first rows of the index from the offset on, at most as many as the limit, which is
  -- 10 by default and held between 1 and 1000.
  pub address_history_shown :
      (faults : ReadFaults) (debug : Bytes → Bytes) (s : Tables d) (txs : List RawTx)
      (address : Bytes) (limit offset : Option ℕ)
      → faults.address_history ≡ none
      → faults.address_totals ≡ none
      → faults.window_low_daa ≡ none
      → validate_address debug address ≡ ok tt
      → address_history d faults debug
          (some (record { store = some s; mempool = build_snapshot d prefix s txs }))
          address
          limit
          offset
        ≡ ok (record {
          address = address;
          total_received_sompi = (address_totals d s address).0;
          total_tx_count = (address_totals d s address).1;
          transactions =
              (if or_default offset 0 == 0
                then map (pending_tx address) (all_rows d prefix s address txs)
                else [])
              ++ map (history_tx address) (
                  take
                    (clamp 1 history_max_limit (or_default limit 10))
                    (drop (or_default offset 0) (values (history_rows d s address))));
          history_since_daa = window_low_daa d s;
        })
  unfolding address_history open_index query
  address_history_shown faults debug s txs address limit offset h t w valid =
      rw (valid, h, t, w, address_history)
        (rw
          (
            pending_history-build_snapshot d prefix s txs address,
            address_history_page d s address (clamp 1 history_max_limit (or_default limit 10))
                (or_default offset 0),
          )
          refl)

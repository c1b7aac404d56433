-- ===== src/Store/Ledger/Net.antt =====
-- The amount and the direction of a history row.
use keryx_api_shim.Base.{◌+◌, ◌-◌, ◌^◌, ◌<◌, ◌≡◌, ltb, arith}
use keryx_api_shim.Store.Types.{RawTx, AcceptedGroup, LedgerEntry}
use keryx_api_shim.Store.Ledger.{net_i64, unsigned_abs, is_negative, hist_row}

-- For a credit and a debit that an `i64` holds, the row shows their distance, and shows a spend
-- exactly if the debit is the greater one.
pub hist_row_net :
    (raw : RawTx) (group : AcceptedGroup) (e : LedgerEntry)
    → e.credit < 2 ^ 63
    → e.debit < 2 ^ 63
    → ((hist_row raw group e).amount_sompi ≡ (e.credit - e.debit) + (e.debit - e.credit))
      × ((hist_row raw group e).is_spend ≡ ltb e.credit e.debit)
unfolding hist_row net_i64 unsigned_abs is_negative
hist_row_net raw group e h k = (ground arith, ground arith)

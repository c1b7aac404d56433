-- ===== src/Store/Order/Reached.antt =====
-- The histories of a store: a new file, then any sequence of the store's writes.
use keryx_api_shim.Base.{
  ℕ, ◌+◌, ◌<◌, ◌≤◌, ◌≡◌, true, some, List, Bytes, ascii, arith, bytes_eq, Option-cases, inl, inr,
}
use keryx_api_shim.Base.Words.{u64_mod}
use keryx_api_shim.Store.Types.{IndexedTx, AcceptedGroup}
use keryx_api_shim.Store.Tables.{Deps, Tables, no_tables, open_store, meta_or_zero}
use keryx_api_shim.Store.Apply.{apply}
use keryx_api_shim.Store.Unwind.{unwind_chain_block, set_checkpoint}
use keryx_api_shim.Store.Expire.{expire_below}
use keryx_api_shim.Store.Expire.Window.{kept, expire_below_exact}
use keryx_api_shim.Store.Order.{IsOrdered-daa_from}
use keryx_api_shim.Store.Order.Applied.{
  InOrder, groups_rise, last_score, tx_count, apply-InOrder, unwind_chain_block-InOrder,
  expire_below-InOrder,
}

module _ (d : Deps) where
  open d.db use {nums, texts}

  -- No stored transaction has a score above `low`.
  abbrev pub NoneAbove : ℕ → Tables d → Type 0
  NoneAbove low s =
      (n : ℕ) (r : IndexedTx) → nums.get s.ledger.tx n ≡ some r → r.accepting_daa ≤ low

-- The tables that a store has after a sequence of writes in which the groups come with rising
-- scores, from a bound on the stored scores on, and the counter of the transactions has room. The
-- bound goes down where blocks left the chain.
pub data History (d : Deps) (prefix : Bytes) : ℕ → Tables d → Type 0 where
  created : History d prefix 0 (open_store d (no_tables d) prefix).tables
  reopened :
      {top : ℕ} {s : Tables d}
      → History d prefix top s
      → History d prefix top (open_store d s prefix).tables
  applied :
      {top : ℕ} {s : Tables d} (groups : List AcceptedGroup)
      → groups_rise top groups ≡ true
      → meta_or_zero d s (ascii "next_tx_num") + tx_count groups < u64_mod
      → History d prefix top s
      → History d prefix (last_score top groups) (apply d prefix groups s).0
  unwound :
      {top : ℕ} {s : Tables d} (hash : Bytes)
      → History d prefix top s
      → History d prefix top (unwind_chain_block d hash s).0
  lowered :
      {top : ℕ} {s : Tables d} (low : ℕ)
      → NoneAbove d low s
      → History d prefix top s
      → History d prefix low s
  checkpointed :
      {top : ℕ} {s : Tables d} (hash : Bytes) (daa : ℕ)
      → History d prefix top s
      → History d prefix top (set_checkpoint d hash daa s)
  expired :
      {top : ℕ} {s : Tables d} (cutoff : ℕ)
      → History d prefix top s
      → History d prefix top (expire_below d cutoff s).0

module _ (d : Deps) (prefix : Bytes) where
  open d.db use {nums, texts}

  no_tables-InOrder : InOrder d 0 (no_tables d)
  unfolding no_tables
  no_tables-InOrder = record {
    numbered = λ n r e. ground (arith, nums.get-create IndexedTx n);
    bounded = λ n r e. ground (arith, nums.get-create IndexedTx n);
    rising = λ m n q r e f l. ground (arith, nums.get-create IndexedTx n);
  }

  open_store-InOrder :
      (top : ℕ) (s : Tables d) → InOrder d top s → InOrder d top (open_store d s prefix).tables
  unfolding open_store meta_or_zero bytes_eq
  open_store-InOrder top s o = elim (Option-cases (texts.get s.meta (ascii "schema"))) [
    | inl e ↦ rw (e, open_store) (simp texts.get-insert o)
    | inr (v, e) ↦ rw (e, open_store) o
  ]

  set_checkpoint-InOrder :
      (top : ℕ) (hash : Bytes) (daa : ℕ) (s : Tables d)
      → InOrder d top s
      → InOrder d top (set_checkpoint d hash daa s)
  unfolding set_checkpoint meta_or_zero bytes_eq
  set_checkpoint-InOrder top hash daa s o = simp texts.get-insert o

  pub History-InOrder : {top : ℕ} {s : Tables d} → History d prefix top s → InOrder d top s
  History-InOrder created = open_store-InOrder 0 (no_tables d) no_tables-InOrder
  History-InOrder (reopened {top} {s} h) = open_store-InOrder top s (History-InOrder h)
  History-InOrder (applied {top} {s} groups rise room h) =
      apply-InOrder d prefix top groups s (History-InOrder h) rise room
  History-InOrder (unwound {top} {s} hash h) =
      unwind_chain_block-InOrder d top hash s (History-InOrder h)
  History-InOrder (lowered {top} {s} low none_above h) =
      let o = History-InOrder h in
      record { numbered = o.numbered; bounded = none_above; rising = o.rising }
  History-InOrder (checkpointed {top} {s} hash daa h) =
      set_checkpoint-InOrder top hash daa s (History-InOrder h)
  History-InOrder (expired {top} {s} cutoff h) =
      expire_below-InOrder d top cutoff s (History-InOrder h)

  -- In every store that starts from a new file and takes any sequence of restarts, batches of
  -- chain blocks, unwound blocks, checkpoints and sweeps, in which the batches come with rising
  -- scores and the transaction counter does not overflow, a sweep removes exactly the transactions
  -- below its cutoff: a row stays as it is if its score is at or above the cutoff, and is gone
  -- otherwise.
  pub expire_below_reached :
      {top : ℕ} {s : Tables d} (cutoff n : ℕ)
      → History d prefix top s
      → nums.get (expire_below d cutoff s).0.ledger.tx n ≡ kept cutoff (nums.get s.ledger.tx n)
  expire_below_reached {top} {s} cutoff n h = expire_below_exact d cutoff s n (
      IsOrdered-daa_from d top (meta_or_zero d s (ascii "next_tx_num")) s.ledger.tx
        (History-InOrder h))

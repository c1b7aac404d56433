-- ===== src/Store/Apply/Idempotent.antt =====
-- Applying a chain block a second time.
use keryx_api_shim.Base.{
  ℕ, ◌≡◌, refl, ap, ◌∙◌, Bool, true, false, Option, none, some, List, [], ◌∷◌, Bytes, if◌then◌else◌,
  ascii, or_default, arith, bytes_eq, is_some, ◌&&◌, Option-cases, inl, inr,
}
use keryx_api_shim.Redb.Laws
use keryx_api_shim.Store.Types.{AcceptedGroup, Checkpoint}
use keryx_api_shim.Store.Tables.{Deps, BlockTables, Tables, meta_or_zero}
use keryx_api_shim.Store.Apply.{
  Run, apply_txs, record_block, apply_new_group, apply_group, apply_groups, start, save_counters,
  save_checkpoint, apply,
}
use keryx_api_shim.Store.Apply.Counters.{blocks-apply_txs}

module _ (d : Deps) (prefix : Bytes) where
  open d.db use {texts}

  -- Every block of the list is applied already.
  unfoldable pub all_applied : List AcceptedGroup → BlockTables d → Bool
  all_applied [] b = true
  all_applied (group ∷ groups) b =
      if is_some (texts.get b.applied group.chain_block_hash) then all_applied groups b else false

  apply_groups_applied :
      (groups : List AcceptedGroup) (r : Run d)
      → all_applied groups r.blocks ≡ true
      → apply_groups d prefix groups r ≡ r
  unfolding apply_groups apply_group all_applied
  apply_groups_applied [] r h = refl
  apply_groups_applied (group ∷ groups) r h = ground (arith, apply_groups_applied groups r)

  -- Once a group went through the loop, its block is applied, and stays so.
  pub is_some-insert :
      (t : texts.Table ℕ) (k : Bytes) (v : ℕ) (j : Bytes)
      → is_some (texts.get t j) ≡ true
      → is_some (texts.get (texts.insert t k v) j) ≡ true
  is_some-insert t k v j h = ground (arith, texts.get-insert t k v j)

  applied_grows :
      (group : AcceptedGroup) (r : Run d) (hash : Bytes)
      → is_some (texts.get r.blocks.applied hash) ≡ true
      → is_some (texts.get (apply_group d prefix group r).blocks.applied hash) ≡ true
  unfolding apply_group apply_new_group record_block
  applied_grows group r hash h = ground (
    arith,
    is_some-insert (apply_txs d prefix group group.txs r).0.blocks.applied group.chain_block_hash
        group.daa_score hash,
    ap (λ (b : BlockTables d). b.applied) (blocks-apply_txs d prefix group group.txs r),
  )

  applied_stays :
      (groups : List AcceptedGroup) (r : Run d) (hash : Bytes)
      → is_some (texts.get r.blocks.applied hash) ≡ true
      → is_some (texts.get (apply_groups d prefix groups r).blocks.applied hash) ≡ true
  unfolding apply_groups
  applied_stays [] r hash h = h
  applied_stays (group ∷ groups) r hash h =
      applied_stays groups (apply_group d prefix group r) hash (applied_grows group r hash h)

  applied_after :
      (group : AcceptedGroup) (r : Run d)
      → is_some (texts.get (apply_group d prefix group r).blocks.applied group.chain_block_hash)
        ≡ true
  unfolding apply_group apply_new_group record_block
  applied_after group r = ground (
    arith,
    Laws.get-insert_self texts (apply_txs d prefix group group.txs r).0.blocks.applied
        group.chain_block_hash group.daa_score,
  )

  all_applied_after :
      (groups : List AcceptedGroup) (r : Run d)
      → all_applied groups (apply_groups d prefix groups r).blocks ≡ true
  unfolding apply_groups all_applied
  all_applied_after [] r = refl
  all_applied_after (group ∷ groups) r =
      let r1 = apply_group d prefix group r in
      rw (applied_stays groups r1 group.chain_block_hash (applied_after group r))
        (all_applied_after groups r1)

  -- The four counters are stored.
  unfoldable pub has_counters : texts.Table ℕ → Bool
  has_counters m =
      is_some (texts.get m (ascii "next_tx_num"))
      && is_some (texts.get m (ascii "total_txs"))
      && is_some (texts.get m (ascii "ai_req_seq"))
      && is_some (texts.get m (ascii "ai_chal_seq"))

  has_counters-save :
      (cp : Option Checkpoint) (r : Run d) (s : Tables d)
      → has_counters (save_checkpoint d prefix cp (save_counters d prefix r s)).meta ≡ true
  unfolding has_counters save_checkpoint save_counters bytes_eq
  has_counters-save none r s = simp texts.get-insert
  has_counters-save (some cp) r s = simp texts.get-insert

  blocks-save :
      (cp : Option Checkpoint) (r : Run d) (s : Tables d)
      → (save_checkpoint d prefix cp (save_counters d prefix r s)).blocks ≡ r.blocks
  unfolding save_checkpoint save_counters
  blocks-save none r s = refl
  blocks-save (some cp) r s = refl

  -- Writing back the value that a counter was read with changes nothing.
  write_back :
      (m : texts.Table ℕ) (k : Bytes)
      → is_some (texts.get m k) ≡ true
      → texts.insert m k (or_default (texts.get m k) 0) ≡ m
  write_back m k h = elim (Option-cases (texts.get m k)) [
    | inl e ↦ absurd (ground arith)
    | inr (v, e) ↦ rw e (Laws.insert_present texts m k v e)
  ]

  save_counters-start :
      (s : Tables d) → has_counters s.meta ≡ true → save_counters d prefix (start d prefix s) s ≡ s
  unfolding save_counters start has_counters meta_or_zero
  save_counters-start s h =
      let m = s.meta in
      let k1 = write_back m (ascii "next_tx_num") (ground arith) in
      let k2 = write_back m (ascii "total_txs") (ground arith) in
      let k3 = write_back m (ascii "ai_req_seq") (ground arith) in
      let k4 = write_back m (ascii "ai_chal_seq") (ground arith) in
      ap (λ m'. record s { meta = m' }) (rw (k1, k2, k3) k4)

  -- A call in which every block is applied already commits the tables that it read.
  pub apply_replayed :
      (groups : List AcceptedGroup) (s : Tables d)
      → all_applied groups s.blocks ≡ true
      → has_counters s.meta ≡ true
      → (apply d prefix groups s).0 ≡ s
  unfolding apply
  apply_replayed groups s h k =
      let same = apply_groups_applied groups (start d prefix s) (unfold start in h) in
      ap (λ (r : Run d). save_checkpoint d prefix r.checkpoint (save_counters d prefix r s)) same
      ∙ (unfold start save_checkpoint in save_counters-start s k)

  -- Applying the same groups a second time changes no table at all, wherever the first call
  -- started from.
  pub apply_idempotent :
      (groups : List AcceptedGroup) (s : Tables d)
      → (apply d prefix groups (apply d prefix groups s).0).0 ≡ (apply d prefix groups s).0
  apply_idempotent groups s =
      let r = apply_groups d prefix groups (start d prefix s) in
      apply_replayed groups (apply d prefix groups s).0
        (unfold apply in
          ap (all_applied groups) (blocks-save r.checkpoint r s)
          ∙ all_applied_after groups (start d prefix s))
        (unfold apply in has_counters-save r.checkpoint r s)

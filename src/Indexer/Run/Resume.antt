-- ===== src/Indexer/Run/Resume.antt =====
-- Where the backfill after a batch starts.
use keryx_api_shim.Base.{
  ℕ, ◌-◌, ◌≡◌, refl, ap, ◌∙◌, none, some, List, [], ◌∷◌, ◌++◌, Bytes, bytes_eq, Bool-cases,
  Option-cases, inl, inr,
}
use keryx_api_shim.Base.Words.{add64}
use keryx_api_shim.Base.Results.{Result, ok}
use keryx_api_shim.Store.Types.{AcceptedGroup, Checkpoint}
use keryx_api_shim.Store.Tables.{Deps, Tables}
use keryx_api_shim.Store.Faults.{WriteFaults}
use keryx_api_shim.Store.Apply.{
  Run, apply_new_group, apply_group, apply_groups, start, save_counters, save_checkpoint, apply,
}
use keryx_api_shim.Store.Expire.{expire_below}
use keryx_api_shim.Store.Reads.{checkpoint}
use keryx_api_shim.Indexer.Answers.{Answers}
use keryx_api_shim.Indexer.Sync.{Ctx, sweep_due, sync_groups}
use keryx_api_shim.Indexer.Run.{backfill_start}

module _ (d : Deps) (prefix : Bytes) where
  open d.db use {texts}

  checkpoint-save :
      (cp : Checkpoint) (r : Run d) (s : Tables d)
      → checkpoint d (save_checkpoint d prefix (some cp) (save_counters d prefix r s)) ≡ some cp
  unfolding checkpoint save_checkpoint save_counters bytes_eq
  checkpoint-save cp r s = simp texts.get-insert

  apply_groups-snoc :
      (groups : List AcceptedGroup) (g : AcceptedGroup) (r : Run d)
      → apply_groups d prefix (groups ++ g ∷ []) r
        ≡ apply_group d prefix g (apply_groups d prefix groups r)
  unfolding apply_groups
  apply_groups-snoc [] g r = refl
  apply_groups-snoc (x ∷ groups) g r = apply_groups-snoc groups g (apply_group d prefix x r)

  checkpoint-apply_group :
      (g : AcceptedGroup) (r : Run d)
      → texts.get r.blocks.applied g.chain_block_hash ≡ none
      → (apply_group d prefix g r).checkpoint
        ≡ some (record { chain_block_hash = g.chain_block_hash; daa_score = g.daa_score })
  unfolding apply_group apply_new_group
  checkpoint-apply_group g r h = rw (h, apply_group) refl

  checkpoint-apply :
      (groups : List AcceptedGroup) (g : AcceptedGroup) (s : Tables d)
      → texts.get
          (apply_groups d prefix groups (start d prefix s)).blocks.applied
          g.chain_block_hash
        ≡ none
      → checkpoint d (apply d prefix (groups ++ g ∷ []) s).0
        ≡ some (record { chain_block_hash = g.chain_block_hash; daa_score = g.daa_score })
  unfolding apply
  checkpoint-apply groups g s h =
      let before = apply_groups d prefix groups (start d prefix s) in
      let last : (apply_groups d prefix (groups ++ g ∷ []) (start d prefix s)).checkpoint
          ≡ some (record { chain_block_hash = g.chain_block_hash; daa_score = g.daa_score }) =
        ap (λ (r : Run d). r.checkpoint) (apply_groups-snoc groups g (start d prefix s))
        ∙ checkpoint-apply_group g before h in
      ap
        (λ cp. checkpoint d (
          save_checkpoint d prefix cp (
            save_counters d prefix (apply_groups d prefix (groups ++ g ∷ []) (start d prefix s))
              s)))
        last
      ∙ checkpoint-save _ _ s

  checkpoint-expire_below :
      (cutoff : ℕ) (s : Tables d) → checkpoint d (expire_below d cutoff s).0 ≡ checkpoint d s
  unfolding expire_below checkpoint
  checkpoint-expire_below cutoff s = refl

  checkpoint-sync_groups :
      (faults : WriteFaults) (g : AcceptedGroup) (groups : List AcceptedGroup) (misses : ℕ)
      (s : Tables d) (ctx : Ctx)
      → faults.apply ≡ none
      → checkpoint d (sync_groups d prefix faults (g ∷ groups) misses s ctx).0
        ≡ checkpoint d (apply d prefix (g ∷ groups) s).0
  unfolding sync_groups
  checkpoint-sync_groups faults g groups misses s ctx sound =
      let r = apply d prefix (g ∷ groups) s in
      let counted : Ctx = record ctx { total_misses = add64 ctx.total_misses misses } in
      elim (Bool-cases (sweep_due counted r.1.checkpoint_daa)) [
        | inr e ↦ rw (sound, e, sync_groups) refl
        | inl e ↦ elim (Option-cases faults.expire_below) [
          | inl f ↦
              rw (sound, e, f, sync_groups)
                (checkpoint-expire_below (r.1.checkpoint_daa - ctx.window_daa) r.0)
          | inr (m, f) ↦ rw (sound, e, f, sync_groups) refl
        ]
      ]

  checkpoint-sync_snoc :
      (faults : WriteFaults) (groups : List AcceptedGroup) (g : AcceptedGroup) (misses : ℕ)
      (s : Tables d) (ctx : Ctx)
      → faults.apply ≡ none
      → checkpoint d (sync_groups d prefix faults (groups ++ g ∷ []) misses s ctx).0
        ≡ checkpoint d (apply d prefix (groups ++ g ∷ []) s).0
  checkpoint-sync_snoc faults [] g misses s ctx sound =
      checkpoint-sync_groups faults g [] misses s ctx sound
  checkpoint-sync_snoc faults (x ∷ groups) g misses s ctx sound =
      checkpoint-sync_groups faults x (groups ++ g ∷ []) misses s ctx sound

  module _ (open_file : Bytes → Result Bytes (Tables d)) (poll_ms : ℕ) where
    -- After a batch that the database takes and whose last block was not applied before, the next
    -- backfill asks the node for the chain from that block on, if the checkpoint can be read,
    -- whatever the tables lacked before the batch and whether or not a sweep followed.
    pub backfill_resumes :
        (faults later : WriteFaults) (node : Answers) (groups : List AcceptedGroup)
        (g : AcceptedGroup) (misses : ℕ) (s : Tables d) (ctx : Ctx)
        → faults.apply ≡ none
        → later.checkpoint ≡ none
        → texts.get
            (apply_groups d prefix groups (start d prefix s)).blocks.applied
            g.chain_block_hash
          ≡ none
        → backfill_start d open_file poll_ms later node (record {
          tables = (sync_groups d prefix faults (groups ++ g ∷ []) misses s ctx).0;
          prefix = prefix;
        })
          ≡ ok g.chain_block_hash
    unfolding backfill_start
    backfill_resumes faults later node groups g misses s ctx sound readable fresh =
        rw
          (
            readable,
            checkpoint-sync_snoc faults groups g misses s ctx sound,
            checkpoint-apply groups g s fresh,
            backfill_start,
          )
          refl

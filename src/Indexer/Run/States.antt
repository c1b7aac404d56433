-- ===== src/Indexer/Run/States.antt =====
-- The status between the steps of the indexer.
use keryx_api_shim.Base.{
  ℕ, ◌≡◌, refl, false, Bool, if◌then◌else◌, ◌∙◌, inl, inr, true, Option, some, List, [], ◌∷◌, Bytes,
  ◌==◌, length, is_some, arith, Bool-cases, Option-cases,
}
use keryx_api_shim.Base.Results.{Result, Result-cases}
use keryx_api_shim.Store.Types.{AcceptedGroup}
use keryx_api_shim.Store.Panics.{apply_panics}
use keryx_api_shim.Store.Faults.{WriteFaults}
use keryx_api_shim.Store.Tables.{Deps, Tables, Store}
use keryx_api_shim.Indexer.Staging.{RpcAccepted, build_groups}
use keryx_api_shim.Indexer.Sync.{unwind_removed}
use keryx_api_shim.Indexer.Status.{connecting, backfilling, live}
use keryx_api_shim.Indexer.Answers.{Answers, resolve_daa, subscribe, store_prefix}
use keryx_api_shim.Indexer.Run.{
  Indexer, Step, connected, block_added, virtual_chain_changed, spawn, set_state, report,
  batch_panics, apply_groups, open_index, backfill_start, stage_gap, backfill, on_connected,
  run_step, run,
}

module _ (d : Deps) (open_file : Bytes → Result Bytes (Tables d)) (poll_ms : ℕ) where
  -- On the indexer's store, `apply` panics on the batch that is built of the indexer's staged
  -- transactions for what the node accepted.
  pub record Panics (node : Answers) (accepted : List RpcAccepted) (store : Store d) (x : Indexer d)
      : Type 0 where
    pub found : x.store ≡ some store
    pub panics :
        apply_panics d store.prefix
          (build_groups (resolve_daa node) x.staging accepted).0
          store.tables
        ≡ true

  -- Between two steps the indexer is not backfilling, and a live one has its store, unless its
  -- task ended with the panic of a batch.
  pub data IsSettled (x : Indexer d) : Type 0 where
    waiting : x.alive ≡ true → x.status.state ≡ connecting → IsSettled x
    ready : x.alive ≡ true → x.status.state ≡ live → is_some x.store ≡ true → IsSettled x
    died :
        (node : Answers) (accepted : List RpcAccepted) (store : Store d)
        → x.alive ≡ false
        → Panics node accepted store x
        → IsSettled x

  -- The store is there, and the state is as it was, or the task ended with the panic of a batch.
  data IsKept (x y : Indexer d) : Type 0 where
    kept : y.alive ≡ x.alive → is_some y.store ≡ true → y.status.state ≡ x.status.state → IsKept x y
    ended :
        (node : Answers) (accepted : List RpcAccepted) (store : Store d)
        → y.alive ≡ false
        → Panics node accepted store y
        → IsKept x y

  apply_groups-IsKept :
      (faults : WriteFaults) (groups : List AcceptedGroup) (misses : ℕ) (store : Store d)
      (x : Indexer d) (node : Answers) (accepted : List RpcAccepted)
      → (build_groups (resolve_daa node) x.staging accepted).0 ≡ groups
      → IsKept x (apply_groups d open_file poll_ms faults groups misses store x)
  unfolding apply_groups report batch_panics
  apply_groups-IsKept faults [] misses store x node accepted b = kept refl refl refl
  apply_groups-IsKept faults (g ∷ groups) misses store x node accepted b =
      elim (Option-cases faults.apply) [
        | inr (m, e) ↦ rw (e, apply_groups, batch_panics) (kept refl refl refl)
        | inl e ↦ elim (Bool-cases (apply_panics d store.prefix (g ∷ groups) store.tables)) [
          | inl f ↦
              rw (e, f, apply_groups, batch_panics)
                (ended node accepted store refl (record { found = refl; panics = rw b f }))
          | inr f ↦ rw (e, f, apply_groups, batch_panics) (kept refl refl refl)
        ]
      ]

  backfill-IsKept :
      (faults : WriteFaults) (node : Answers) (store : Store d) (x : Indexer d)
      → is_some x.store ≡ true
      → IsKept x (backfill d open_file poll_ms faults node store x)
  unfolding backfill
  backfill-IsKept faults node store x h =
      elim (Result-cases (backfill_start d open_file poll_ms faults node store)) [
        | inr (e, f) ↦ rw (f, backfill) (kept refl h refl)
        | inl (start, f) ↦ elim (Bool-cases (length start == 0)) [
          | inl g ↦ rw (f, g, backfill) (kept refl h refl)
          | inr g ↦ elim (Result-cases (node.get_virtual_chain start)) [
            | inr (e, v) ↦ rw (f, g, v, backfill) (kept refl h refl)
            | inl (vc, v) ↦
                let staging =
                  stage_gap d open_file poll_ms node vc.added_chain_block_hashes x.staging in
                let built = build_groups (resolve_daa node) staging vc.accepted_transaction_ids in
                let after =
                  apply_groups-IsKept faults built.0 built.1 store (record x { staging = staging })
                    node vc.accepted_transaction_ids refl in
                rw (f, g, v, backfill)
                  (elim after [
                    | kept a o t ↦ kept a o t
                    | ended n t r a p ↦
                        ended n t r a (record { found = p.found; panics = p.panics })
                  ])
          ]
        ]
      ]

  -- A store that was opened is in the indexer's cell, and the state is as it was.
  record IsOpened (x : Indexer d) (r : Option (Store d) × Indexer d) : Type 0 where
    here : is_some r.0 ≡ true → is_some r.1.store ≡ true
    state : r.1.status.state ≡ x.status.state
    alive : r.1.alive ≡ x.alive

  open_index-IsOpened :
      (node : Answers) (x : Indexer d) → IsOpened x (open_index d open_file poll_ms node x)
  unfolding open_index
  open_index-IsOpened node x = elim (Option-cases x.store) [
    | inr (s, e) ↦ rw (e, open_index) (record { here = λ h. rw e refl; state = refl; alive = refl })
    | inl e ↦ elim (Result-cases (open_file (store_prefix node))) [
      | inr (m, f) ↦
          rw (e, f, open_index)
            (record { here = λ h. absurd (ground arith); state = refl; alive = refl })
      | inl (t, f) ↦ rw (e, f, open_index) (record { here = λ h. refl; state = refl; alive = refl })
    ]
  ]

  settled_then :
      (b : Bool) (u v : Indexer d) → b ≡ true → IsSettled u → IsSettled (if b then u else v)
  settled_then b u v e h = rw e h

  settled_else :
      (b : Bool) (u v : Indexer d) → b ≡ false → IsSettled v → IsSettled (if b then u else v)
  settled_else b u v e h = rw e h

  on_connected-IsSettled :
      (faults : WriteFaults) (generation : ℕ) (node : Answers) (x : Indexer d)
      → x.alive ≡ true
      → IsSettled (on_connected d open_file poll_ms faults generation node x)
  unfolding on_connected set_state
  on_connected-IsSettled faults generation node x up =
      let started : Indexer d = record x {
        status = record x.status { state = connecting; generation = generation };
      } in
      let o = open_index-IsOpened node started in
      let opened = open_index d open_file poll_ms node started in
      elim (Option-cases opened.0) [
        | inl e ↦ rw (e, on_connected) (waiting (o.alive ∙ up) o.state)
        | inr (store, e) ↦ elim (Result-cases (subscribe node)) [
          | inr (m, f) ↦ rw (e, f, on_connected) (waiting (o.alive ∙ up) o.state)
          | inl (u, f) ↦
              let there : is_some opened.1.store ≡ true = o.here (rw e refl) in
              let filling = set_state d open_file poll_ms backfilling opened.1 in
              elim (backfill-IsKept faults node store filling there) [
                | kept a s t ↦
                    let on = a ∙ o.alive ∙ up in
                    rw (e, f, on_connected) (settled_then _ _ _ on (ready on refl s))
                | ended n t r a p ↦ rw (e, f, on_connected) (settled_else _ _ _ a (died n t r a p))
              ]
        ]
      ]

  run_step-IsSettled :
      (step : Step) (x : Indexer d)
      → x.alive ≡ true
      → IsSettled x
      → IsSettled (run_step d open_file poll_ms step x)
  unfolding run_step
  run_step-IsSettled (connected generation node faults) x up h =
      on_connected-IsSettled faults generation node x up
  run_step-IsSettled (block_added block) x up (waiting a e) = waiting a e
  run_step-IsSettled (block_added block) x up (ready a e s) = ready a e s
  run_step-IsSettled (block_added block) x up (died n t r a p) = absurd (ground (arith, up, a))
  run_step-IsSettled (virtual_chain_changed removed accepted node faults) x up h =
      elim (Option-cases x.store) [
        | inl e ↦ simp (e, run_step) h
        | inr (store, e) ↦
            let built = build_groups (resolve_daa node) x.staging accepted in
            let unwound : Store d = record store {
              tables = unwind_removed d store.prefix faults removed store.tables;
            } in
            simp (e, run_step)
              (keep (apply_groups-IsKept faults built.0 built.1 unwound x node accepted refl) h up)
      ]
    where
      keep : {y : Indexer d} → IsKept x y → IsSettled x → x.alive ≡ true → IsSettled y
      keep (kept a o t) (waiting b e) up = waiting (a ∙ b) (t ∙ e)
      keep (kept a o t) (ready b e s) up = ready (a ∙ b) (t ∙ e) o
      keep (kept a o t) (died n c r b p) up = absurd (ground (arith, b, up))
      keep (ended n c r a p) h up = died n c r a p

  run-IsSettled :
      (steps : List Step) (x : Indexer d)
      → IsSettled x
      → IsSettled (run d open_file poll_ms steps x)
  unfolding run
  run-IsSettled [] x h = h
  run-IsSettled (step ∷ steps) x h = run-IsSettled steps _ (elim (Bool-cases x.alive) [
    | inl e ↦ settled_then x.alive _ _ e (run_step-IsSettled step x e h)
    | inr e ↦ settled_else x.alive _ _ e h
  ])

  -- After any steps from the start, whatever the node answers and the database fails in them: the
  -- task runs, and the indexer is connecting, or it is live and its store is open; or the task has
  -- ended, and on the indexer's store `apply` panics on a batch that is built of the transactions
  -- that the indexer has staged. While the task runs, the indexer is not left backfilling.
  pub run_settled :
      (window_days : ℕ) (steps : List Step)
      → IsSettled (run d open_file poll_ms steps (spawn d window_days))
  unfolding spawn
  run_settled window_days steps = run-IsSettled steps (spawn d window_days) (waiting refl refl)

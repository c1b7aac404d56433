-- ===== src/Indexer/Staging/Bodies.antt =====
-- What the groups hold of the accepted transactions.
use keryx_api_shim.Base.{
  ℕ, ◌+◌, ◌<◌, ◌≡◌, List, [], ◌∷◌, Bytes, length, arith, Option-cases, inl, inr,
}
use keryx_api_shim.Base.Words.{add64, add64_lem, u64_mod}
use keryx_api_shim.Store.Types.{AcceptedGroup}
use keryx_api_shim.Indexer.Staging.{
  RpcAccepted, Staging, get_tx, accepted_txs, build_from, build_groups,
}

abbrev pub accepted_ids : List RpcAccepted → ℕ
accepted_ids [] = 0
accepted_ids (a ∷ accepted) = length a.accepted_transaction_ids + accepted_ids accepted

abbrev pub group_txs : List AcceptedGroup → ℕ
group_txs [] = 0
group_txs (group ∷ groups) = length group.txs + group_txs groups

accepted_txs_count :
    (s : Staging) (ids : List Bytes) (misses : ℕ)
    → misses + length ids < u64_mod
    → length (accepted_txs s ids misses).0 + (accepted_txs s ids misses).1 ≡ misses + length ids
unfolding accepted_txs
accepted_txs_count s [] misses h = omega arith
accepted_txs_count s (id ∷ ids) misses h = elim (Option-cases (get_tx s id)) [
  | inl e ↦
      rw (e, accepted_txs)
        (omega (
          arith,
          add64_lem misses 1 (omega arith),
          accepted_txs_count s ids (add64 misses 1)
              (omega (arith, add64_lem misses 1 (omega arith))),
        ))
  | inr (raw, e) ↦
      rw (e, accepted_txs) (omega (arith, accepted_txs_count s ids misses (omega arith)))
]

module _ (resolve_daa : Bytes → ℕ) where
  build_from_count :
      (s : Staging) (accepted : List RpcAccepted) (misses : ℕ)
      → misses + accepted_ids accepted < u64_mod
      → group_txs (build_from resolve_daa s accepted misses).0
          + (build_from resolve_daa s accepted misses).1
        ≡ misses + accepted_ids accepted
  unfolding build_from
  build_from_count s [] misses h = omega arith
  build_from_count s (a ∷ accepted) misses h =
      let first = accepted_txs_count s a.accepted_transaction_ids misses (omega arith) in
      let n = (accepted_txs s a.accepted_transaction_ids misses).1 in
      omega (arith, first, build_from_count s accepted n (omega (arith, first)))

  -- Every accepted transaction id ends up as a transaction of a group or as a counted miss, as
  -- long as there are fewer of them than a `u64` counts.
  pub build_groups_count :
      (s : Staging) (accepted : List RpcAccepted)
      → accepted_ids accepted < u64_mod
      → group_txs (build_groups resolve_daa s accepted).0 + (build_groups resolve_daa s accepted).1
        ≡ accepted_ids accepted
  unfolding build_groups
  build_groups_count s accepted h = omega (arith, build_from_count s accepted 0 (omega arith))

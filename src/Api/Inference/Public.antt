-- ===== src/Api/Inference/Public.antt =====
-- The rows of the feed.
use keryx_api_shim.Base.{
  ℕ, suc, ◌≤◌, ◌≡◌, refl, false, Option, List, [], ◌∷◌, map, reverse, length, take, drop, All,
  or_default, arith, Bool-cases, Option-cases, inl, inr, ap, length-take, All-take, All-drop,
}
use keryx_api_shim.Store.Faults.{ReadFaults}
use keryx_api_shim.Store.Types.{
  AiRequestRec, AiRequestRecV1, AiResponseRec, AiResponseRecV1, Compat, dec_request,
}
use keryx_api_shim.Store.Tables.{Deps, TextTable, Tables}
use keryx_api_shim.Store.Reads.{inference_feed}
use keryx_api_shim.Store.Reads.Pages.{public_rows, inference_feed_page}
use keryx_api_shim.Api.Utxos.{clamp}
use keryx_api_shim.Api.Chain.{IndexerHandle}
use keryx_api_shim.Api.Inference.{InferRow, infer_row, inference_store, infer}

abbrev pub IsPublic : InferRow → Type 0
IsPublic row = row.sealed ≡ false

abbrev IsOpen : AiRequestRec × Option AiResponseRec → Type 0
IsOpen p = p.0.private ≡ false

All-infer_row :
    (l : List (AiRequestRec × Option AiResponseRec))
    → All IsOpen l
    → All IsPublic (map (λ p. infer_row p.0 p.1) l)
unfolding infer_row
All-infer_row [] h = tt
All-infer_row (p ∷ l) h = (h.0, All-infer_row l h.1)

length-map-infer_row :
    (l : List (AiRequestRec × Option AiResponseRec))
    → length (map (λ p. infer_row p.0 p.1) l) ≡ length l
length-map-infer_row [] = refl
length-map-infer_row (p ∷ l) = ap suc (length-map-infer_row l)

module _ (d : Deps) where
  public_rows-IsOpen :
      (resp : TextTable d (Compat AiResponseRec AiResponseRecV1))
      (rows : List (ℕ × Compat AiRequestRec AiRequestRecV1))
      → All IsOpen (public_rows d resp rows)
  unfolding public_rows
  public_rows-IsOpen resp [] = tt
  public_rows-IsOpen resp ((k, row) ∷ rows) = elim (Bool-cases (dec_request row).private) [
    | inl e ↦ simp (e) (public_rows-IsOpen resp rows)
    | inr e ↦ simp (e) (refl, public_rows-IsOpen resp rows)
  ]

  page-IsPublic :
      (s : Tables d) (n offset : ℕ)
      → n ≤ 200
      → All IsPublic (map (λ p. infer_row p.0 p.1) (inference_feed d s n offset))
        × (length (map (λ p. infer_row p.0 p.1) (inference_feed d s n offset)) ≤ 200)
  page-IsPublic s n offset h =
      let rows = public_rows d s.ai.ai_resp (reverse (d.db.nums.iter s.ai.ai_req)) in
      rw (inference_feed_page d s n offset) (
        All-infer_row _
            (All-take IsOpen n _ (All-drop IsOpen offset rows (public_rows-IsOpen s.ai.ai_resp _))),
        omega (
          arith,
          length-map-infer_row (take n (drop offset rows)),
          length-take n (drop offset rows),
        ),
      )

  -- The feed shows no sealed request and at most 200 rows, whatever limit is asked for, whether or
  -- not there is an index and whether or not the read of the store succeeds.
  pub infer-IsPublic :
      (faults : ReadFaults) (indexer : Option (IndexerHandle d)) (limit offset : Option ℕ)
      → All IsPublic (infer d faults indexer limit offset)
        × (length (infer d faults indexer limit offset) ≤ 200)
  unfolding infer
  infer-IsPublic faults indexer limit offset = elim (Option-cases (inference_store d indexer)) [
    | inl e ↦ rw (e, infer) (tt, omega arith)
    | inr (s, e) ↦ elim (Option-cases faults.inference_feed) [
      | inl f ↦
          rw (e, f, infer)
            (page-IsPublic s (clamp 1 200 (or_default limit 20)) (or_default offset 0)
              (ground arith))
      | inr (m, f) ↦ rw (e, f, infer) (tt, omega arith)
    ]
  ]

-- ===== src/Store/Reads/Caps.antt =====
-- `Store::capabilities`: the declared models, with their miners, the latest seen first.
use keryx_api_shim.Base.{
  ℕ, suc, List, [], ◌∷◌, ◌++◌, map, Bytes, ltb, ◌==◌, if◌then◌else◌, bytes_eq, length, take, drop,
  max,
}
use keryx_api_shim.Base.Ascii.{position_or_end}
use keryx_api_shim.Redb.Order.{lt_bytes}
use keryx_api_shim.Utf8.{from_utf8_lossy}
use keryx_api_shim.Store.Types.{Capability}
use keryx_api_shim.Store.Tables.{Deps, Tables}

-- The `HashMap` from a model to its declaring keys and its last sighting.
abbrev Models : Type 0
Models = List (Bytes × (List Bytes × ℕ))

unfoldable pub note_model : Bytes → Bytes → ℕ → Models → Models
note_model model pubkey seen [] = (model, (pubkey ∷ [], max 0 seen)) ∷ []
note_model model pubkey seen ((m, (keys, last)) ∷ l) =
    if bytes_eq m model
    then (m, (keys ++ pubkey ∷ [], max last seen)) ∷ l
    else (m, (keys, last)) ∷ note_model model pubkey seen l

-- The loop over the table; a key without a separator is passed over.
unfoldable pub by_model : List (Bytes × ℕ) → Models → Models
by_model [] models = models
by_model ((key, last_seen) ∷ l) models =
    let sep = position_or_end 0xFF key in
    if sep == length key
    then by_model l models
    else by_model l (
        note_model (from_utf8_lossy (take sep key)) (from_utf8_lossy (drop (suc sep) key)) last_seen
          models)

-- `Vec::sort` on strings
unfoldable pub insert_text : Bytes → List Bytes → List Bytes
insert_text k [] = k ∷ []
insert_text k (j ∷ l) = let rest = insert_text k l in if lt_bytes j k then j ∷ rest else k ∷ j ∷ l

unfoldable pub sort_texts : List Bytes → List Bytes
sort_texts [] = []
sort_texts (k ∷ l) = insert_text k (sort_texts l)

-- `Vec::dedup`: of equal neighbours the first stays
unfoldable pub dedup : List Bytes → List Bytes
dedup [] = []
dedup (k ∷ []) = k ∷ []
dedup (j ∷ k ∷ l) = let rest = dedup (k ∷ l) in if bytes_eq j k then rest else j ∷ rest

unfoldable pub capability : Bytes × (List Bytes × ℕ) → Capability
capability (model, (keys, last)) = record {
  model_id = model;
  miner_pubkeys = dedup (sort_texts keys);
  last_seen_daa = last;
}

-- `sort_by_key(|c| Reverse(c.last_seen_daa))`, which is stable
unfoldable pub insert_cap : Capability → List Capability → List Capability
insert_cap c [] = c ∷ []
insert_cap c (e ∷ l) =
    let rest = insert_cap c l in if ltb c.last_seen_daa e.last_seen_daa then e ∷ rest else c ∷ e ∷ l

unfoldable pub sort_caps : List Capability → List Capability
sort_caps [] = []
sort_caps (c ∷ l) = insert_cap c (sort_caps l)

module _ (d : Deps) where
  open d.db use {texts}

  unfoldable pub capabilities : Tables d → List Capability
  capabilities s = sort_caps (map capability (d.arrange (by_model (texts.iter s.ai.ai_caps) [])))

-- ===== src/Utf8/Lossy.antt =====
-- The lossy decoding of valid text.
use keryx_api_shim.Base.{
  ℕ, zero, suc, ◌≤◌, ◌<◌, ◌≡◌, refl, true, ◌⊎◌, inl, inr, [], ◌∷◌, Bytes, length, drop,
  take-append-drop, length-drop, arith,
}
use keryx_api_shim.Utf8.{
  Chunk, valid, invalid, next_chunk, lossy_loop, from_utf8_lossy, valid_loop, is_utf8,
}

Chunk-cases : (c : Chunk) → ((n : ℕ) × (c ≡ valid n)) ⊎ ((n : ℕ) × (c ≡ invalid n))
Chunk-cases (valid n) = inl (n, refl)
Chunk-cases (invalid n) = inr (n, refl)

next_chunk_pos : (a : ℕ) (s : Bytes) (n : ℕ) → next_chunk a s ≡ valid n → 0 < n
unfolding next_chunk
next_chunk_pos a [] n h = ground arith
next_chunk_pos a (b ∷ []) n h = ground arith
next_chunk_pos a (b ∷ c ∷ []) n h = ground arith
next_chunk_pos a (b ∷ c ∷ d ∷ s) n h = ground arith

lossy_loop_valid : (f : ℕ) (s : Bytes) → length s ≤ f → valid_loop f s ≡ true → lossy_loop f s ≡ s
unfolding lossy_loop valid_loop
lossy_loop_valid zero [] h v = refl
lossy_loop_valid zero (a ∷ s) h v = absurd (omega arith)
lossy_loop_valid (suc f) [] h v = refl
lossy_loop_valid (suc f) (a ∷ s) h v = elim (Chunk-cases (next_chunk a s)) [
  | inl (n, e) ↦
      let pos : 0 < n = next_chunk_pos a s n e in
      ground (
        arith,
        lossy_loop_valid f (drop n (a ∷ s)) (omega (arith, length-drop {0} n (a ∷ s)))
            (ground arith),
        take-append-drop n (a ∷ s),
      )
  | inr (n, e) ↦ absurd (ground arith)
]

-- Valid UTF-8 is kept byte for byte.
pub from_utf8_lossy_valid : (s : Bytes) → is_utf8 s ≡ true → from_utf8_lossy s ≡ s
unfolding from_utf8_lossy is_utf8
from_utf8_lossy_valid s v = lossy_loop_valid (length s) s (omega arith) v

-- ===== src/Base/Slices.antt =====
-- Slices of a byte string that was put together from parts.
use Prim.Native.Nat.{ℕ, zero, suc, ◌-◌, ◌≤◌}
use mathlib.Core.List.{List, [], ◌∷◌, ◌++◌}
use mathlib.Core.Path.{◌≡◌, refl, ap, ◌∙◌}
use native.Mathlib.Omega.{arith}
use keryx_api_shim.Base.Lists.{length, take, drop, take-append-drop, length-take, length-drop}
use keryx_api_shim.Base.Ascii.{slice}

module _ {ℓ} {A : Type ℓ} where
  pub drop_skip :
      (xs ys : List A) (a : ℕ) → length xs ≤ a → drop a (xs ++ ys) ≡ drop (a - length xs) ys
  drop_skip [] ys a h = ap (λ n. drop n ys) (omega arith)
  drop_skip (x ∷ xs) ys zero h = absurd (omega arith)
  drop_skip (x ∷ xs) ys (suc a) h =
      drop_skip xs ys a (omega arith) ∙ ap (λ n. drop n ys) (omega arith)

  pub take_part : (xs ys : List A) (a : ℕ) → length xs ≡ a → take a (xs ++ ys) ≡ xs
  take_part [] ys zero h = refl
  take_part [] ys (suc a) h = absurd (omega arith)
  take_part (x ∷ xs) ys zero h = absurd (omega arith)
  take_part (x ∷ xs) ys (suc a) h = ap (◌∷◌ x) (take_part xs ys a (omega arith))

  pub drop_part : (xs ys : List A) (a : ℕ) → length xs ≡ a → drop a (xs ++ ys) ≡ ys
  drop_part [] ys zero h = refl
  drop_part [] ys (suc a) h = absurd (omega arith)
  drop_part (x ∷ xs) ys zero h = absurd (omega arith)
  drop_part (x ∷ xs) ys (suc a) h = drop_part xs ys a (omega arith)

  -- A slice that begins behind the first `n` elements.
  pub slice_skip :
      (n : ℕ) (xs ys : List A) (a b : ℕ)
      → length xs ≡ n
      → n ≤ a
      → a ≤ b
      → slice a b (xs ++ ys) ≡ slice (a - n) (b - n) ys
  slice_skip n xs ys a b e h k =
      ap (take (b - a)) (drop_skip xs ys a (omega arith) ∙ ap (λ m. drop (a - m) ys) e)
      ∙ ap (λ m. take m (drop (a - n) ys)) (omega arith)

  -- The slice from 0 to the length of the first part.
  pub slice_first : (n : ℕ) (xs ys : List A) → length xs ≡ n → slice 0 n (xs ++ ys) ≡ xs
  slice_first n xs ys e = ap (λ m. take m (xs ++ ys)) (omega arith) ∙ take_part xs ys n e

  take_nil : (n : ℕ) → ◌≡◌ {A = List A} (take n [] ++ []) []
  take_nil zero = refl
  take_nil (suc n) = refl

  -- A slice and what follows it make up what it was taken from.
  pub slice-append-drop : (a b : ℕ) (s : List A) → a ≤ b → slice a b s ++ drop b s ≡ drop a s
  slice-append-drop zero b s h = ap (λ m. take m s ++ drop b s) (omega arith) ∙ take-append-drop b s
  slice-append-drop (suc a) zero s h = absurd (omega arith)
  slice-append-drop (suc a) (suc b) [] h = take_nil (suc b - suc a)
  slice-append-drop (suc a) (suc b) (x ∷ s) h =
      ap (λ m. take m (drop a s) ++ drop b s) (omega arith) ∙ slice-append-drop a b s (omega arith)

  pub length-slice : (a b : ℕ) (s : List A) → a ≤ b → b ≤ length s → length (slice a b s) ≡ b - a
  length-slice a b s h k = omega (arith, length-take {ℓ} (b - a) (drop a s), length-drop {ℓ} a s)

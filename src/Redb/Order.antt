-- ===== src/Redb/Order.antt =====
-- The orders of the keys: numbers, and byte strings compared byte by byte.
use keryx_api_shim.Base.{
  ℕ, ◌≡◌, refl, ◌⊎◌, inl, inr, Bool, true, false, ◌&&◌, ◌||◌, [], ◌∷◌, Bytes, ltb, ◌==◌, bytes_eq,
  arith,
}

pub ltb_irrefl : (a : ℕ) → ltb a a ≡ false
ltb_irrefl a = ground arith

pub ltb_trans : (a b c : ℕ) → ltb a b ≡ true → ltb b c ≡ true → ltb a c ≡ true
ltb_trans a b c p q = ground arith

pub ltb_total : (a b : ℕ) → (ltb a b ≡ true) ⊎ (((a == b) ≡ true) ⊎ (ltb b a ≡ true))
ltb_total a b = ground arith

unfoldable pub lt_bytes : Bytes → Bytes → Bool
lt_bytes [] [] = false
lt_bytes [] (y ∷ ys) = true
lt_bytes (x ∷ xs) [] = false
lt_bytes (x ∷ xs) (y ∷ ys) = ltb x y || (x == y && lt_bytes xs ys)

pub lt_bytes_irrefl : (a : Bytes) → lt_bytes a a ≡ false
unfolding lt_bytes
lt_bytes_irrefl [] = refl
lt_bytes_irrefl (x ∷ xs) = ground (arith, lt_bytes_irrefl xs)

pub lt_bytes_trans :
    (a b c : Bytes) → lt_bytes a b ≡ true → lt_bytes b c ≡ true → lt_bytes a c ≡ true
unfolding lt_bytes
lt_bytes_trans [] [] c p q = ground arith
lt_bytes_trans [] (y ∷ ys) [] p q = ground arith
lt_bytes_trans [] (y ∷ ys) (z ∷ zs) p q = refl
lt_bytes_trans (x ∷ xs) [] c p q = ground arith
lt_bytes_trans (x ∷ xs) (y ∷ ys) [] p q = ground arith
lt_bytes_trans (x ∷ xs) (y ∷ ys) (z ∷ zs) p q = ground (arith, lt_bytes_trans xs ys zs)

pub lt_bytes_total :
    (a b : Bytes) → (lt_bytes a b ≡ true) ⊎ ((bytes_eq a b ≡ true) ⊎ (lt_bytes b a ≡ true))
unfolding lt_bytes bytes_eq
lt_bytes_total [] [] = inr (inl refl)
lt_bytes_total [] (y ∷ ys) = inl refl
lt_bytes_total (x ∷ xs) [] = inr (inr refl)
lt_bytes_total (x ∷ xs) (y ∷ ys) = ground (arith, lt_bytes_total xs ys)

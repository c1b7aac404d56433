-- ===== src/Base/Decimal.antt =====
-- Numbers as decimal text: `to_string` on a `u64`, and `parse::<u64>`.
use Prim.Native.Nat.{ℕ, zero, suc, ◌+◌, ◌-◌, ◌*◌, ◌/◌, ◌%◌, ◌^◌, ◌<◌}
use mathlib.Core.Path.{◌≡◌, refl, ap, ◌∙◌}
use mathlib.Core.Bool.{◌&&◌}
use mathlib.Core.Option.{Option, none, some}
use mathlib.Core.List.{[], ◌∷◌, ◌++◌}
use mathlib.Core.Logic.{inl, inr}
use native.Mathlib.Omega.{arith}
use keryx_api_shim.Base.Tests.{Bytes, ltb, ◌==◌, if◌then◌else◌, Bool-cases}
use keryx_api_shim.Base.Words.{u64_mod}
use keryx_api_shim.Base.Ascii.{is_ascii_digit}

-- `to_string` on a `u64`, which has at most 20 decimal digits: one unit of fuel for each.
unfoldable pub decimal : ℕ → ℕ → Bytes
decimal zero n = []
decimal (suc fuel) n =
    let rest = decimal fuel (n / 10) in
    if ltb n 10 then (48 + n) ∷ [] else rest ++ (48 + n % 10) ∷ []

-- The digits of a `u64`, after the number that the ones before make. A number that leaves the
-- type is an error.
unfoldable pub parse_digits : ℕ → Bytes → Option ℕ
unfolding is_ascii_digit
parse_digits n [] = some n
parse_digits n (c ∷ s) =
    let n' = n * 10 + (c - 48) in
    let rest = parse_digits n' s in if is_ascii_digit c && ltb n' u64_mod then rest else none

-- `parse::<u64>`: an optional `+`, then at least one digit.
unfoldable pub parse_u64 : Bytes → Option ℕ
parse_u64 [] = none
parse_u64 (c ∷ []) = parse_digits 0 (c ∷ [])
parse_u64 (c ∷ d ∷ s) = if c == b'+' then parse_digits 0 (d ∷ s) else parse_digits 0 (c ∷ d ∷ s)

-- A digit is read after the ones before it.
parse_digits-append :
    (d n m : ℕ) (s : Bytes)
    → parse_digits n s ≡ some m
    → d < 10
    → m * 10 + d < u64_mod
    → parse_digits n (s ++ (48 + d) ∷ []) ≡ some (m * 10 + d)
unfolding parse_digits is_ascii_digit
parse_digits-append d n m [] h k b = ground arith
parse_digits-append d n m (c ∷ s) h k b =
    ground (arith, parse_digits-append d (n * 10 + (c - 48)) m s)

pub parse_digits-decimal :
    (fuel n : ℕ) → n < 10 ^ fuel → n < u64_mod → parse_digits 0 (decimal fuel n) ≡ some n
unfolding decimal parse_digits is_ascii_digit
parse_digits-decimal zero n h b = ap some (omega arith)
parse_digits-decimal (suc fuel) n h b = elim (Bool-cases (ltb n 10)) [
  | inl e ↦ rw e (ground arith)
  | inr e ↦ rw e (
      parse_digits-append (n % 10) 0 (n / 10) (decimal fuel (n / 10))
        (parse_digits-decimal fuel (n / 10) (grind arith) (omega arith)) (omega arith) (omega arith)
      ∙ ap some (omega arith))
]

-- The text starts with a digit.
pub data StartsDigit (s : Bytes) : Type 0 where
  digit : (d : ℕ) (rest : Bytes) → d < 10 → s ≡ (48 + d) ∷ rest → StartsDigit s

pub decimal_starts : (fuel n : ℕ) → StartsDigit (decimal (suc fuel) n)
unfolding decimal
decimal_starts zero n = elim (Bool-cases (ltb n 10)) [
  | inl e ↦ rw e (digit n [] (ground arith) refl)
  | inr e ↦ rw e (digit (n % 10) [] (omega arith) refl)
]
decimal_starts (suc fuel) n = elim (Bool-cases (ltb n 10)) [
  | inl e ↦ rw e (digit n [] (ground arith) refl)
  | inr e ↦ rw e (longer (decimal_starts fuel (n / 10)))
]
  where
    longer : {s : Bytes} → StartsDigit s → StartsDigit (s ++ (48 + n % 10) ∷ [])
    longer (digit d rest h e) = digit d (rest ++ (48 + n % 10) ∷ []) h (rw e refl)

parse_u64_digits : (s : Bytes) → StartsDigit s → parse_u64 s ≡ parse_digits 0 s
unfolding parse_u64
parse_u64_digits [] (digit d rest h e) = absurd (ground arith)
parse_u64_digits (c ∷ []) h = refl
parse_u64_digits (c ∷ b ∷ s) (digit d rest h e) = ground arith

-- The decimal text of a `u64` is read back as the number.
pub parse_u64-decimal : (n : ℕ) → n < u64_mod → parse_u64 (decimal 20 n) ≡ some n
parse_u64-decimal n h =
    parse_u64_digits (decimal 20 n) (decimal_starts 19 n)
    ∙ parse_digits-decimal 20 n (omega arith) h

-- The text ends with a digit.
pub data EndsDigit (s : Bytes) : Type 0 where
  last_digit : (d : ℕ) (rest : Bytes) → d < 10 → s ≡ rest ++ (48 + d) ∷ [] → EndsDigit s

pub decimal_ends : (fuel n : ℕ) → EndsDigit (decimal (suc fuel) n)
unfolding decimal
decimal_ends fuel n = elim (Bool-cases (ltb n 10)) [
  | inl e ↦ rw e (last_digit n [] (ground arith) refl)
  | inr e ↦ rw e (last_digit (n % 10) (decimal fuel (n / 10)) (omega arith) refl)
]

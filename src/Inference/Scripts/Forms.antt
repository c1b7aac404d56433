-- ===== src/Inference/Scripts/Forms.antt =====
-- The scripts that name a miner, and the vault that names nobody.
use Prim.Native.Nat.{ℕ, suc, ◌+◌, ◌-◌, ◌≤◌}
use keryx_api_shim.Base.{
  take, drop, length-take, ◌<◌, ◌==◌, if◌then◌else◌, bytes_eq, refl, none, false, ◌>>=◌,
  Option-cases, inl, inr, Bool, true, ◌≡◌, ap, ◌∙◌, some, [], ◌∷◌, ◌++◌, Bytes, length,
  length-append, get_or, All, All-append, arith,
}
use keryx_api_shim.Base.Ascii.{slice}
use keryx_api_shim.Base.Slices.{take_part, slice_skip}
use keryx_api_shim.Base.Words.{IsByte}
use keryx_api_shim.Hex.{to_hex, from_hex}
use keryx_api_shim.Hex.RoundTrip.{from_hex-to_hex, from_hex_sound}
use keryx_api_shim.Base.Ascii.{to_ascii_lowercase, eq_ignore_ascii_case}
use keryx_api_shim.Inference.Scripts.{
  csv_escrow_key, csv_escrow_pubkey, p2pk_pubkey, between, is_inference_vault,
  inference_vault_script_hex,
}

-- The CSV-escrow script of a miner's key, with the bytes of the lock before it.
unfoldable pub csv_escrow_script : Bytes → Bytes → Bytes
csv_escrow_script sequence key = length sequence ∷ (sequence ++ 0xb1 ∷ 0x20 ∷ (key ++ 0xac ∷ []))

get_or_skip : (xs ys : Bytes) (k : ℕ) → get_or (xs ++ ys) (length xs + k) 0 ≡ get_or ys k 0
get_or_skip [] ys k = ap (λ n. get_or ys n 0) (omega arith)
get_or_skip (x ∷ xs) ys k = get_or_next x (xs ++ ys) _ _ (omega arith) ∙ get_or_skip xs ys k
  where
    get_or_next : (x : ℕ) (l : Bytes) (m n : ℕ) → m ≡ suc n → get_or (x ∷ l) m 0 ≡ get_or l n 0
    get_or_next x l m n h = ap (λ i. get_or (x ∷ l) i 0) h

csv_escrow_key-csv_escrow_script :
    (sequence key : Bytes)
    → 1 ≤ length sequence
    → length sequence ≤ 8
    → length key ≡ 32
    → csv_escrow_key (csv_escrow_script sequence key) ≡ some (to_hex key)
unfolding csv_escrow_key csv_escrow_script
csv_escrow_key-csv_escrow_script sequence key h k l =
    let n = length sequence in
    let tail = 0xb1 ∷ 0x20 ∷ (key ++ 0xac ∷ []) in
    let front = n ∷ sequence in
    let script = front ++ tail in
    let at : (i k : ℕ) → i ≡ length front + k → get_or script i 0 ≡ get_or tail k 0 =
      λ i k e. ap (λ i. get_or script i 0) e ∙ get_or_skip front tail k in
    let script_length : length script ≡ n + 36 =
      omega (arith, length-append {0} front tail, length-append {0} key (0xac ∷ [])) in
    let csv = at (n + 1) 0 (omega arith) in
    let push = at (n + 2) 1 (omega arith) in
    let check =
      at (length script - 1) 34 (omega (arith, script_length))
      ∙ ap (λ i. get_or (key ++ 0xac ∷ []) i 0) (the_end l)
      ∙ get_or_skip key (0xac ∷ []) 0 in
    let inner : slice (n + 3) (n + 35) script ≡ key =
      slice_skip (n + 1) front tail (n + 3) (n + 35) (omega arith) (omega arith) (omega arith)
      ∙ (λ i. slice (two n i) (end n i) tail)
      ∙ take_part key (0xac ∷ []) 32 l in
    ground (arith, script_length, csv, push, check, ap to_hex inner)
  where
    two : (n : ℕ) → n + 3 - (n + 1) ≡ 2
    two n = omega arith

    end : (n : ℕ) → n + 35 - (n + 1) ≡ 34
    end n = omega arith

    the_end : {m : ℕ} → m ≡ 32 → 32 ≡ m + 0
    the_end h = omega (arith, h)

-- The CSV-escrow script of a lock of 1 to 8 bytes and a key of 32 bytes, in hex, names that key.
pub csv_escrow_pubkey-csv_escrow_script :
    (sequence key : Bytes)
    → 1 ≤ length sequence
    → length sequence ≤ 8
    → length key ≡ 32
    → All IsByte sequence
    → All IsByte key
    → csv_escrow_pubkey (to_hex (csv_escrow_script sequence key)) ≡ some (to_hex key)
unfolding csv_escrow_pubkey
csv_escrow_pubkey-csv_escrow_script sequence key h k l b c =
    let tail = 0xb1 ∷ 0x20 ∷ (key ++ 0xac ∷ []) in
    let script = csv_escrow_script sequence key in
    let bytes : All IsByte script =
      unfold csv_escrow_script in
      (
        omega arith,
        All-append IsByte sequence tail b
            (omega arith, (omega arith, All-append IsByte key (0xac ∷ []) c (omega arith, tt))),
      ) in
    rw (from_hex-to_hex script bytes) (csv_escrow_key-csv_escrow_script sequence key h k l)

bytes_eq-length : (s t : Bytes) → bytes_eq s t ≡ true → length s ≡ length t
unfolding bytes_eq
bytes_eq-length [] [] h = refl
bytes_eq-length [] (y ∷ t) h = absurd (ground arith)
bytes_eq-length (x ∷ s) [] h = absurd (ground arith)
bytes_eq-length (x ∷ s) (y ∷ t) h = omega (arith, bytes_eq-length s t (ground arith))

length-to_ascii_lowercase : (s : Bytes) → length (to_ascii_lowercase s) ≡ length s
unfolding to_ascii_lowercase
length-to_ascii_lowercase [] = refl
length-to_ascii_lowercase (x ∷ s) = ap suc (length-to_ascii_lowercase s)

vault_length : (s : Bytes) → is_inference_vault s ≡ true → length s ≡ 18
unfolding is_inference_vault eq_ignore_ascii_case
vault_length s h = omega (
  arith,
  bytes_eq-length (to_ascii_lowercase s) (to_ascii_lowercase inference_vault_script_hex) h,
  length-to_ascii_lowercase s,
  length-to_ascii_lowercase inference_vault_script_hex,
)

short_no_key :
    (test : Bool) (l : Bytes)
    → length l < 32
    → ((if test then some l else none) >>= λ key.
        if length key == 32 then some (to_hex key) else none)
      ≡ none
short_no_key true l h = ground arith
short_no_key false l h = refl

-- The vault's script, in any letter case, names no miner: neither as a CSV escrow nor as a P2PK
-- script.
pub is_inference_vault_no_pubkey :
    (s : Bytes)
    → is_inference_vault s ≡ true
    → (csv_escrow_pubkey s ≡ none) × (p2pk_pubkey s ≡ none)
unfolding csv_escrow_pubkey p2pk_pubkey csv_escrow_key between
is_inference_vault_no_pubkey s h = elim (Option-cases (from_hex s)) [
  | inl e ↦ rw e (refl, refl)
  | inr (b, e) ↦
      let nine : length b ≡ 9 = omega (arith, (from_hex_sound s b e).1, vault_length s h) in
      rw (e, nine)
        (refl, short_no_key _ (take 7 (drop 1 b)) (omega (arith, length-take {0} 7 (drop 1 b))))
]

-- ===== src/Address/Owner.antt =====
-- The scripts of an address.
use Prim.Native.Nat.{ℕ, zero, suc, ◌<◌}
use keryx_api_shim.Base.{
  ◌≡◌, refl, ap, ap₂, sym, subst, ◌∙◌, some, [], ◌∷◌, ◌++◌, Bytes, ◌==◌, ==_iff, if◌then◌else◌,
  length, take, get_or, All, arith, inl, inr, Bool-cases, Option-cases, some_inj,
}
use keryx_api_shim.Base.Words.{IsByte}
use keryx_api_shim.Hex.{from_hex}
use keryx_api_shim.Hex.RoundTrip.{from_hex_sound}
use keryx_api_shim.Address.{
  encode_address, single_push, hashed_push, script_form, hex_to_bytes, script_to_address,
}
use keryx_api_shim.Address.Distinct.{encode_address_inj}

split_last : (n : ℕ) (xs : Bytes) → length xs ≡ suc n → xs ≡ take n xs ++ get_or xs n 0 ∷ []
split_last zero [] h = absurd (omega arith)
split_last zero (x ∷ []) h = refl
split_last zero (x ∷ y ∷ xs) h = absurd (omega arith)
split_last (suc n) [] h = absurd (omega arith)
split_last (suc n) (x ∷ xs) h = ap (◌∷◌ x) (split_last n xs (omega arith))

single_push_sound :
    (first last n : ℕ) (s k : Bytes)
    → single_push first last n s ≡ some k
    → s ≡ first ∷ (k ++ last ∷ [])
unfolding single_push
single_push_sound first last n [] k e = absurd (ground arith)
single_push_sound first last n (x ∷ xs) k e =
    ground (arith, split_last n xs, ==_iff x first, ==_iff (get_or xs n 0) last)

hashed_push_sound :
    (first second last n : ℕ) (s k : Bytes)
    → hashed_push first second last n s ≡ some k
    → s ≡ first ∷ (second ∷ (k ++ last ∷ []))
unfolding hashed_push
hashed_push_sound first second last n [] k e = absurd (ground arith)
hashed_push_sound first second last n (x ∷ []) k e = absurd (ground arith)
hashed_push_sound first second last n (x ∷ y ∷ xs) k e =
    ground (arith, split_last n xs, ==_iff x first, ==_iff y second, ==_iff (get_or xs n 0) last)

-- The script of a version and a payload.
unfoldable script_of : ℕ → Bytes → Bytes
script_of version payload =
    if version == 0
    then 0x20 ∷ (payload ++ 0xac ∷ [])
    else if version == 1
    then 0x21 ∷ (payload ++ 0xab ∷ [])
    else 0xaa ∷ (0x20 ∷ (payload ++ 0x87 ∷ []))

script_form_sound :
    (s : Bytes) (v : ℕ) (p : Bytes) → script_form s ≡ some (v, p) → (s ≡ script_of v p) × (v < 256)
unfolding script_form script_of
script_form_sound s v p e = elim (Option-cases (single_push 0x20 0xac 32 s)) [
  | inr (k, f) ↦ ground (arith, single_push_sound 0x20 0xac 32 s k f)
  | inl f ↦ elim (Option-cases (single_push 0x21 0xab 33 s)) [
    | inr (k, g) ↦ ground (arith, single_push_sound 0x21 0xab 33 s k g)
    | inl g ↦ elim (Option-cases (hashed_push 0xaa 0x20 0x87 32 s)) [
      | inr (k, h) ↦ ground (arith, hashed_push_sound 0xaa 0x20 0x87 32 s k h)
      | inl h ↦ absurd (ground arith)
    ]
  ]
]

All-front : (xs ys : Bytes) → All IsByte (xs ++ ys) → All IsByte xs
All-front [] ys h = tt
All-front (x ∷ xs) ys h = (h.0, All-front xs ys h.1)

payload-IsByte : (v : ℕ) (p : Bytes) → All IsByte (script_of v p) → All IsByte p
unfolding script_of
payload-IsByte v p h = elim (Bool-cases (v == 0)) [
  | inl e ↦ All-front p (0xac ∷ []) (rw (e, script_of) at h).1
  | inr e ↦ elim (Bool-cases (v == 1)) [
    | inl f ↦ All-front p (0xab ∷ []) (rw (e, f, script_of) at h).1
    | inr f ↦ All-front p (0x87 ∷ []) (rw (e, f, script_of) at h).1.1
  ]
]

-- What an address of a script comes from.
record IsSource (script_hex prefix address : Bytes) : Type 0 where
  script : Bytes
  version : ℕ
  payload : Bytes
  decoded : hex_to_bytes script_hex ≡ some script
  form : script ≡ script_of version payload
  bytes : All IsByte (version ∷ payload)
  encoded : encode_address version payload prefix ≡ address

script_to_address-IsSource :
    (script_hex prefix address : Bytes)
    → script_to_address script_hex prefix ≡ some address
    → IsSource script_hex prefix address
unfolding script_to_address
script_to_address-IsSource script_hex prefix address e =
    elim (Option-cases (hex_to_bytes script_hex)) [
      | inl f ↦ absurd (ground (arith))
      | inr (script, f) ↦ elim (Option-cases (script_form script)) [
        | inl g ↦ absurd (ground (arith))
        | inr ((v, p), g) ↦
            let sound = script_form_sound script v p g in
            let all_bytes : All IsByte script =
              (from_hex_sound script_hex script (unfold hex_to_bytes from_hex in f)).0 in
            record {
              script = script;
              version = v;
              payload = p;
              decoded = f;
              form = sound.0;
              bytes = (sound.1, payload-IsByte v p (subst (All IsByte) sound.0 all_bytes));
              encoded = some_inj (rw (f, g) at e);
            }
      ]
    ]

-- Under one prefix, two scripts that are attributed to the same address are the same script: the
-- hex texts decode to the same bytes.
pub script_to_address_inj :
    (a b prefix address : Bytes)
    → script_to_address a prefix ≡ some address
    → script_to_address b prefix ≡ some address
    → hex_to_bytes a ≡ hex_to_bytes b
script_to_address_inj a b prefix address e f =
    let p = script_to_address-IsSource a prefix address e in
    let q = script_to_address-IsSource b prefix address f in
    let same : p.version ∷ p.payload ≡ q.version ∷ q.payload =
      encode_address_inj p.version q.version p.payload q.payload prefix p.bytes q.bytes
        (p.encoded ∙ sym q.encoded) in
    let versions : p.version ≡ q.version = ground (arith, same) in
    let payloads : p.payload ≡ q.payload = ground (arith, same) in
    p.decoded ∙ ap some (p.form ∙ ap₂ script_of versions payloads ∙ sym q.form) ∙ sym q.decoded

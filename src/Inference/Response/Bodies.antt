-- ===== src/Inference/Response/Bodies.antt =====
-- When a response carries an inline answer: exactly for the node's layout of the extensions.
use keryx_api_shim.Base.{
  ℕ, suc, ◌+◌, ◌-◌, ◌*◌, ◌^◌, ◌<◌, ◌≤◌, ◌≡◌, refl, ap, sym, ◌∙◌, Bool, true, ◌||◌, ◌⊎◌, inl, inr,
  some, [], ◌∷◌, ◌++◌, Bytes, ltb, leb, ◌==◌, length, length-append, drop, take, arith,
  Option-cases, take-append-drop,
}
use keryx_api_shim.Base.Ascii.{slice}
use keryx_api_shim.Base.Slices.{
  slice_skip, slice_first, drop_skip, drop_part, slice-append-drop, length-slice,
}
use keryx_api_shim.Base.Words.{
  to_le_bytes, from_le_bytes, length-to_le_bytes, from_le_bytes-to_le_bytes,
}
use keryx_api_shim.Inference.Response.{
  is_trace_extension, get_from, get_range, extension_body, has_body_kind, inline_body,
}

-- `[0x80] [len: 4 LE] [body]`, and what follows it.
abbrev pub encode_extension : Bytes → Bytes → Bytes
encode_extension body rest = 0x80 ∷ to_le_bytes 4 (length body) ++ (body ++ rest)

-- What may follow the body: nothing, or one trace commitment.
abbrev pub FollowsBody : Bytes → Type 0
FollowsBody rest = (rest ≡ []) ⊎ (is_trace_extension rest ≡ true)

module _ (body rest : Bytes) where
  abbrev len_bytes : Bytes
  len_bytes = to_le_bytes 4 (length body)

  abbrev ext : Bytes
  ext = 0x80 ∷ len_bytes ++ (body ++ rest)

  length-ext : length ext ≡ 5 + length body + length rest
  length-ext = omega (
    arith,
    length-append {0} len_bytes (body ++ rest),
    length-append {0} body rest,
    length-to_le_bytes 4 (length body),
  )

  len_part : length body < 2 ^ 32 → from_le_bytes (slice 1 5 ext) ≡ length body
  len_part h =
      ap from_le_bytes (slice_first 4 len_bytes (body ++ rest) (length-to_le_bytes 4 (length body)))
      ∙ from_le_bytes-to_le_bytes 4 (length body) h

  body_part : get_range 5 (5 + length body) ext ≡ some body
  unfolding get_range
  body_part =
      let inside : leb (5 + length body) (length ext) ≡ true = ground (arith, length-ext) in
      let ordered : leb 5 (5 + length body) ≡ true = ground arith in
      let found : slice 5 (5 + length body) ext ≡ body =
        slice_skip 5 (0x80 ∷ len_bytes) (body ++ rest) 5 (5 + length body)
          (ap suc (length-to_le_bytes 4 (length body))) (omega arith) (omega arith)
        ∙ ap (λ n. slice 0 n (body ++ rest)) (omega arith)
        ∙ slice_first (length body) body rest refl in
      rw (ordered, inside, found)

  rest_part : drop (5 + length body) ext ≡ rest
  rest_part =
      drop_skip (0x80 ∷ len_bytes) (body ++ rest) (5 + length body)
        (omega (arith, length-to_le_bytes 4 (length body)))
      ∙ ap (λ n. drop (5 + length body - suc n) (body ++ rest)) (length-to_le_bytes 4 (length body))
      ∙ ap (λ n. drop n (body ++ rest)) (omega arith)
      ∙ drop_part body rest (length body) refl

follows_test :
    (rest : Bytes) → FollowsBody rest → (length rest == 0 || is_trace_extension rest) ≡ true
follows_test rest (inl e) = rw e
follows_test rest (inr e) = rw e (or_true (length rest == 0))
  where
    or_true : (b : Bool) → (b || true) ≡ true
    or_true b = ground arith

-- A V2 head of 174 bytes, followed by a body of at most 48 KiB in its extension and by nothing or
-- one trace commitment, where body and trace are not both empty, yields that body.
pub inline_body-encode_extension :
    (head body rest : Bytes)
    → length head ≡ 174
    → 0 < length body + length rest
    → length body ≤ 48 * 1024
    → FollowsBody rest
    → inline_body (head ++ encode_extension body rest) ≡ some body
unfolding inline_body get_from has_body_kind extension_body
inline_body-encode_extension head body rest h pos fits follows =
    let whole = head ++ encode_extension body rest in
    let long : leb 174 (length whole) ≡ true =
      ground (arith, length-append {0} head (encode_extension body rest), length-ext body rest) in
    let kind : ltb 5 (length (encode_extension body rest)) ≡ true =
      ground (arith, length-ext body rest) in
    let small : leb (length body) 49152 ≡ true = ground arith in
    rw (
      long,
      drop_part head (encode_extension body rest) 174 h,
      kind,
      len_part body rest (omega arith),
      body_part body rest,
      rest_part body rest,
      small,
      follows_test rest follows,
    )

-- What the extension behind the head was, where a body is found in it.
pub record Carries (ext body : Bytes) : Type 0 where
  pub len_bytes : Bytes
  pub rest : Bytes
  pub len_width : length len_bytes ≡ 4
  pub len_value : from_le_bytes len_bytes ≡ length body
  pub layout : ext ≡ 0x80 ∷ len_bytes ++ (body ++ rest)
  pub fits : length body ≤ 48 * 1024
  pub follows : FollowsBody rest

follows_of_test :
    (rest : Bytes) → (length rest == 0 || is_trace_extension rest) ≡ true → FollowsBody rest
follows_of_test [] h = inl refl
follows_of_test (x ∷ xs) h = inr (ground arith)

get_range_sound :
    (a b : ℕ) (s body : Bytes)
    → get_range a b s ≡ some body
    → (a ≤ b) × (b ≤ length s) × (body ≡ slice a b s)
unfolding get_range
get_range_sound a b s body h = ground arith

kind_byte : (x : ℕ) (xs : Bytes) → has_body_kind (x ∷ xs) ≡ true → x ≡ 0x80
unfolding has_body_kind
kind_byte x xs h = ground arith

extension_body-Carries :
    (ext body : Bytes)
    → has_body_kind ext ≡ true
    → extension_body ext ≡ some body
    → Carries ext body
unfolding has_body_kind extension_body
extension_body-Carries [] body kind h = absurd (ground arith)
extension_body-Carries (x ∷ xs) body kind h =
    let len = from_le_bytes (take 4 xs) in
    elim (Option-cases (get_range 5 (5 + len) (x ∷ xs))) [
      | inl e ↦ absurd (ground arith)
      | inr (found, e) ↦
          let range = get_range_sound 5 (5 + len) (x ∷ xs) found e in
          let same : found ≡ body = ground arith in
          let size : length (slice 5 (5 + len) (x ∷ xs)) ≡ len =
            length-slice 5 (5 + len) (x ∷ xs) range.0 range.1 ∙ omega arith in
          record {
            len_bytes = take 4 xs;
            rest = drop (5 + len) (x ∷ xs);
            len_width = omega (arith, length-slice {0} 1 5 (x ∷ xs) (omega arith) (omega arith));
            len_value = sym (ap length (sym same ∙ range.2) ∙ size);
            layout = cc (
              take-append-drop 4 xs,
              slice-append-drop 5 (5 + len) (x ∷ xs) range.0,
              kind_byte x xs kind,
              range.2,
              same,
            );
            fits = ground arith;
            follows = follows_of_test (drop (5 + len) (x ∷ xs)) (ground arith);
          }
    ]

-- A body is found only in a V2 response whose trailing bytes are exactly one body extension with
-- what may follow it.
pub inline_body-Carries :
    (payload body : Bytes)
    → inline_body payload ≡ some body
    → (174 ≤ length payload) × Carries (drop 174 payload) body
unfolding inline_body get_from
inline_body-Carries payload body h =
    (ground arith, extension_body-Carries (drop 174 payload) body (ground arith) (ground arith))

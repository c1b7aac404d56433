-- ===== src/Inference/Private/Recipients.antt =====
-- What the count of recipients guarantees of the envelope.
use keryx_api_shim.Base.{
  ℕ, zero, suc, ◌+◌, ◌-◌, ◌*◌, ◌/◌, ◌≤◌, ◌<◌, ◌≡◌, refl, ◌≢◌, true, some, List, [], ◌∷◌, map, Bytes,
  length, take, drop, get_elem?, arith, length-take, length-drop, ap,
}
use keryx_api_shim.Base.Ascii.{slice}
use keryx_api_shim.Redb.Order.{lt_bytes, lt_bytes_irrefl, lt_bytes_trans}
use keryx_api_shim.Inference.Private.{
  is_private, chunks, as_chunks, ascending_keys, recipient_keys, private_recipient_count,
  private_request_header_len, private_recipient_entry_len, private_tag_len,
}

length-chunks : (n size : ℕ) (s : Bytes) → length (chunks n size s) ≡ n
unfolding chunks
length-chunks zero size s = refl
length-chunks (suc n) size s = ap suc (length-chunks n size (drop size s))

length-map-take : (ks : List Bytes) → length (map (take 32) ks) ≡ length ks
length-map-take [] = refl
length-map-take (k ∷ ks) = ap suc (length-map-take ks)

-- An envelope with room for `n` recipients has `n` keys.
pub length-recipient_keys :
    (n : ℕ) (prompt : Bytes)
    → private_request_header_len + n * private_recipient_entry_len ≤ length prompt
    → length (recipient_keys n prompt) ≡ n
unfolding recipient_keys as_chunks
length-recipient_keys n prompt h =
    let room = slice 51 (51 + n * 80) prompt in
    let size : length room ≡ n * 80 =
      omega
        (arith, length-take {0} (51 + n * 80 - 51) (drop 51 prompt), length-drop {0} 51 prompt) in
    omega (
      arith,
      length-map-take (chunks (length room / 80) 80 room),
      length-chunks (length room / 80) 80 room,
      size,
    )

-- Neighbours in order puts every later key above an earlier one.
ascending_keys_first :
    (j k : Bytes) (ks : List Bytes) (i : ℕ)
    → ascending_keys (j ∷ ks) ≡ true
    → get_elem? ks i ≡ some k
    → lt_bytes j k ≡ true
unfolding ascending_keys
ascending_keys_first j k [] i h e = absurd (ground arith)
ascending_keys_first j k (x ∷ ks) zero h e = ground arith
ascending_keys_first j k (x ∷ ks) (suc i) h e =
    ground (arith, ascending_keys_first x k ks i, lt_bytes_trans j x k)

ascending_keys_tail :
    (j : Bytes) (ks : List Bytes) → ascending_keys (j ∷ ks) ≡ true → ascending_keys ks ≡ true
unfolding ascending_keys
ascending_keys_tail j [] h = refl
ascending_keys_tail j (k ∷ ks) h = ground arith

pub ascending_keys_sound :
    (ks : List Bytes) (a b : ℕ) (j k : Bytes)
    → ascending_keys ks ≡ true
    → a < b
    → get_elem? ks a ≡ some j
    → get_elem? ks b ≡ some k
    → lt_bytes j k ≡ true
ascending_keys_sound [] a b j k h lt p q = absurd (ground arith)
ascending_keys_sound (x ∷ ks) zero zero j k h lt p q = absurd (omega arith)
ascending_keys_sound (x ∷ ks) (suc a) zero j k h lt p q = absurd (omega arith)
ascending_keys_sound (x ∷ ks) zero (suc b) j k h lt p q =
    ground (arith, ascending_keys_first x k ks b)
ascending_keys_sound (x ∷ ks) (suc a) (suc b) j k h lt p q =
    ascending_keys_sound ks a b j k (ascending_keys_tail x ks h) (omega arith) p q

-- What `private_recipient_count` has checked of an envelope that names `n` responders.
pub record Names (prompt : Bytes) (n : ℕ) : Type 0 where
  pub sealed : is_private prompt ≡ true
  pub positive : 0 < n
  pub bounded : n ≤ 128
  pub room :
      private_request_header_len + n * private_recipient_entry_len + private_tag_len ≤ length prompt
  pub order : ascending_keys (recipient_keys n prompt) ≡ true

pub private_recipient_count-Names :
    (prompt : Bytes) (n : ℕ) → private_recipient_count prompt ≡ some n → Names prompt n
unfolding private_recipient_count
private_recipient_count-Names prompt n h = record {
  sealed = ground arith;
  positive = ground arith;
  bounded = ground arith;
  room = ground arith;
  order = ground arith;
}

-- A counted envelope is sealed, names between 1 and 128 responders, has exactly that many
-- recipient keys, and no two of the keys are equal.
pub private_recipient_count_distinct :
    (prompt : Bytes) (n : ℕ)
    → private_recipient_count prompt ≡ some n
    → (is_private prompt ≡ true)
      × (0 < n)
      × (n ≤ 128)
      × (length (recipient_keys n prompt) ≡ n)
      × ((a b : ℕ) (j k : Bytes)
          → a < b
          → get_elem? (recipient_keys n prompt) a ≡ some j
          → get_elem? (recipient_keys n prompt) b ≡ some k
          → j ≢ k)
private_recipient_count_distinct prompt n h =
    let names = private_recipient_count-Names prompt n h in
    (
      names.sealed,
      names.positive,
      names.bounded,
      length-recipient_keys n prompt (omega (arith, names.room)),
      λ a b j k lt p q e. cc (
        ascending_keys_sound (recipient_keys n prompt) a b j k names.order lt p q,
        e,
        lt_bytes_irrefl k,
      ),
    )

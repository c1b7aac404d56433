-- ===== src/Api/Utxos/Largest.antt =====
-- The order of the coins, and the page that is cut from it.
use mathlib.Core.List.{Perm}
use mathlib.Core.List.Perm
use keryx_api_shim.Base.{
  ℕ, zero, suc, ◌≤◌, ◌≡◌, refl, ap, Option, List, [], ◌∷◌, ◌++◌, Bytes, length, take, drop, min,
  max, All, arith, inl, inr, Bool-cases, take-append-drop, length-take, All-drop,
}
use keryx_api_shim.Base.Results.{Result, ok}
use keryx_api_shim.Node.{NodeError}
use keryx_api_shim.Api.Addresses.{validate_address}
use keryx_api_shim.Api.Utxos.{
  UtxoDto, RpcUtxosByAddressesEntry, utxo_dto, filter_map, goes_before, insert_utxo, sort_utxos,
  utxo_limit, fetch_utxos, utxos,
}

-- No coin of a list is larger than `n`.
abbrev pub AtMost : ℕ → List UtxoDto → Type 0
AtMost n l = All (λ u. u.amount_sompi ≤ n) l

abbrev Descending : List UtxoDto → Type 0
Descending [] = Unit
Descending (u ∷ l) = AtMost u.amount_sompi l × Descending l

AtMost-weaken : (n m : ℕ) (l : List UtxoDto) → n ≤ m → AtMost n l → AtMost m l
AtMost-weaken n m [] h k = tt
AtMost-weaken n m (u ∷ l) h k = (omega (arith, k.0), AtMost-weaken n m l h k.1)

AtMost-insert_utxo :
    (n : ℕ) (a : UtxoDto) (l : List UtxoDto)
    → a.amount_sompi ≤ n
    → AtMost n l
    → AtMost n (insert_utxo a l)
unfolding insert_utxo
AtMost-insert_utxo n a [] h k = (h, tt)
AtMost-insert_utxo n a (b ∷ l) h k = elim (Bool-cases (goes_before a b)) [
  | inl e ↦ rw e (h, k)
  | inr e ↦ rw e (k.0, AtMost-insert_utxo n a l h k.1)
]

insert_utxo-Descending :
    (a : UtxoDto) (l : List UtxoDto) → Descending l → Descending (insert_utxo a l)
unfolding insert_utxo goes_before
insert_utxo-Descending a [] h = (tt, tt)
insert_utxo-Descending a (b ∷ l) h = elim (Bool-cases (goes_before a b)) [
  | inl e ↦
      let less : b.amount_sompi ≤ a.amount_sompi = ground arith in
      rw e ((less, AtMost-weaken _ _ l less h.0), h)
  | inr e ↦
      rw e
        (AtMost-insert_utxo b.amount_sompi a l (ground arith) h.0, insert_utxo-Descending a l h.1)
]

insert_utxo-Perm : (a : UtxoDto) (l : List UtxoDto) → Perm (insert_utxo a l) (a ∷ l)
unfolding insert_utxo
insert_utxo-Perm a [] = Perm.refl (a ∷ [])
insert_utxo-Perm a (b ∷ l) = elim (Bool-cases (goes_before a b)) [
  | inl e ↦ rw e (Perm.refl (a ∷ b ∷ l))
  | inr e ↦ rw e (Perm.trans (Perm.cons b (insert_utxo-Perm a l)) (Perm.swap a b l))
]

sort_utxos-Descending : (l : List UtxoDto) → Descending (sort_utxos l)
unfolding sort_utxos
sort_utxos-Descending [] = tt
sort_utxos-Descending (a ∷ l) = insert_utxo-Descending a (sort_utxos l) (sort_utxos-Descending l)

sort_utxos-Perm : (l : List UtxoDto) → Perm (sort_utxos l) l
unfolding sort_utxos
sort_utxos-Perm [] = Perm.refl []
sort_utxos-Perm (a ∷ l) =
    Perm.trans (insert_utxo-Perm a (sort_utxos l)) (Perm.cons a (sort_utxos-Perm l))

take_largest :
    (n : ℕ) (l : List UtxoDto)
    → Descending l
    → All (λ u. AtMost u.amount_sompi (drop n l)) (take n l)
take_largest zero l h = tt
take_largest (suc n) [] h = tt
take_largest (suc n) (u ∷ l) h =
    (All-drop (λ v. v.amount_sompi ≤ u.amount_sompi) n l h.0, take_largest n l h.1)

-- A page, with the coins that it leaves out.
pub record IsPage (limit : ℕ) (all page : List UtxoDto) : Type 0 where
  pub rest : List UtxoDto
  pub same : Perm (page ++ rest) all
  pub largest : All (λ u. AtMost u.amount_sompi rest) page
  pub size : length page ≡ min limit (length all)

length-insert_utxo : (a : UtxoDto) (l : List UtxoDto) → length (insert_utxo a l) ≡ suc (length l)
unfolding insert_utxo
length-insert_utxo a [] = refl
length-insert_utxo a (b ∷ l) = elim (Bool-cases (goes_before a b)) [
  | inl e ↦ rw e refl
  | inr e ↦ rw e (ap suc (length-insert_utxo a l))
]

length-sort_utxos : (l : List UtxoDto) → length (sort_utxos l) ≡ length l
unfolding sort_utxos
length-sort_utxos [] = refl
length-sort_utxos (a ∷ l) = omega (arith, length-insert_utxo a (sort_utxos l), length-sort_utxos l)

module _ (debug : Bytes → Bytes)
    (get_utxos : Bytes → Result NodeError (List RpcUtxosByAddressesEntry)) where
  -- For an address that passes the check, whose coins the node returns, the page has as many coins
  -- as there are, up to the limit, none of those left out is larger than any on the page, page and
  -- rest are the node's coins in another order, and the limit is between one and the configured
  -- maximum, or one if that is zero.
  pub utxos_largest :
      (max_utxo_limit : ℕ) (address : Bytes) (limit : Option ℕ)
      (entries : List RpcUtxosByAddressesEntry)
      → validate_address debug address ≡ ok tt
      → get_utxos address ≡ ok entries
      → (page : List UtxoDto) × (utxos debug get_utxos max_utxo_limit address limit ≡ ok page)
        × IsPage (utxo_limit max_utxo_limit limit) (filter_map utxo_dto entries) page
        × (1 ≤ utxo_limit max_utxo_limit limit)
        × (utxo_limit max_utxo_limit limit ≤ max max_utxo_limit 1)
  unfolding utxos fetch_utxos utxo_limit
  utxos_largest max_utxo_limit address limit entries valid found =
      let all = filter_map utxo_dto entries in
      let n = utxo_limit max_utxo_limit limit in
      let sorted = sort_utxos all in
      (
        take n sorted,
        rw (valid, utxos) (rw (found, fetch_utxos) refl),
        record {
          rest = drop n sorted;
          same = rw (take-append-drop n sorted) (sort_utxos-Perm all);
          largest = take_largest n sorted (sort_utxos-Descending all);
          size = omega (arith, length-take n sorted, length-sort_utxos all);
        },
        ground arith,
        ground arith,
      )

-- ===== src/Api/Info/Median.antt =====
-- The amount that is taken for the block reward, and the errors of `/info`.
use keryx_api_shim.Base.{
  ℕ, zero, suc, ◌+◌, ◌*◌, ◌/◌, ◌≤◌, ◌<◌, ◌≡◌, refl, sym, ◌⊎◌, inl, inr, Bool, true, false, Option,
  some, List, [], ◌∷◌, ltb, leb, if◌then◌else◌, get_elem?, length, All, arith, Bool-cases,
  Option-cases,
}
use keryx_api_shim.Base.Results.{Result, ok, err, Result-cases}
use keryx_api_shim.Cache.{fresh, get_or_try_init}
use keryx_api_shim.Store.Faults.{ReadFaults}
use keryx_api_shim.Store.Tables.{Deps, Tables}
use keryx_api_shim.Node.{NodeError}
use keryx_api_shim.Api.{ApiError, node}
use keryx_api_shim.Api.Providers.{try_join}
use keryx_api_shim.Api.Info.{
  insert_amount, sort_amounts, median, Floats, InfoCalls, InfoCaches, Instants, build_info, info,
}

-- How many amounts are smaller than `m`, and how many are larger.
unfoldable pub smaller : ℕ → List ℕ → ℕ
smaller m [] = 0
smaller m (a ∷ l) = (if ltb a m then 1 else 0) + smaller m l

unfoldable pub larger : ℕ → List ℕ → ℕ
larger m [] = 0
larger m (a ∷ l) = (if ltb m a then 1 else 0) + larger m l

abbrev Ascending : List ℕ → Type 0
Ascending [] = Unit
Ascending (a ∷ l) = All (λ b. a ≤ b) l × Ascending l

All-weaken : (n m : ℕ) (l : List ℕ) → n ≤ m → All (λ b. m ≤ b) l → All (λ b. n ≤ b) l
All-weaken n m [] h k = tt
All-weaken n m (b ∷ l) h k = (omega (arith, k.0), All-weaken n m l h k.1)

All-insert_amount :
    (n a : ℕ) (l : List ℕ) → n ≤ a → All (λ b. n ≤ b) l → All (λ b. n ≤ b) (insert_amount a l)
unfolding insert_amount
All-insert_amount n a [] h k = (h, tt)
All-insert_amount n a (b ∷ l) h k = elim (Bool-cases (leb a b)) [
  | inl e ↦ rw e (h, k)
  | inr e ↦ rw e (k.0, All-insert_amount n a l h k.1)
]

insert_amount-Ascending : (a : ℕ) (l : List ℕ) → Ascending l → Ascending (insert_amount a l)
unfolding insert_amount
insert_amount-Ascending a [] h = (tt, tt)
insert_amount-Ascending a (b ∷ l) h = elim (Bool-cases (leb a b)) [
  | inl e ↦ let less : a ≤ b = ground arith in rw e ((less, All-weaken a b l less h.0), h)
  | inr e ↦ rw e (All-insert_amount b a l (ground arith) h.0, insert_amount-Ascending a l h.1)
]

sort_amounts-Ascending : (l : List ℕ) → Ascending (sort_amounts l)
unfolding sort_amounts
sort_amounts-Ascending [] = tt
sort_amounts-Ascending (a ∷ l) =
    insert_amount-Ascending a (sort_amounts l) (sort_amounts-Ascending l)

smaller-insert_amount : (m a : ℕ) (l : List ℕ) → smaller m (insert_amount a l) ≡ smaller m (a ∷ l)
unfolding insert_amount smaller
smaller-insert_amount m a [] = refl
smaller-insert_amount m a (b ∷ l) = ground (arith, smaller-insert_amount m a l)

larger-insert_amount : (m a : ℕ) (l : List ℕ) → larger m (insert_amount a l) ≡ larger m (a ∷ l)
unfolding insert_amount larger
larger-insert_amount m a [] = refl
larger-insert_amount m a (b ∷ l) = ground (arith, larger-insert_amount m a l)

smaller-sort_amounts : (m : ℕ) (l : List ℕ) → smaller m (sort_amounts l) ≡ smaller m l
unfolding sort_amounts smaller
smaller-sort_amounts m [] = refl
smaller-sort_amounts m (a ∷ l) =
    omega (arith, smaller-insert_amount m a (sort_amounts l), smaller-sort_amounts m l)

larger-sort_amounts : (m : ℕ) (l : List ℕ) → larger m (sort_amounts l) ≡ larger m l
unfolding sort_amounts larger
larger-sort_amounts m [] = refl
larger-sort_amounts m (a ∷ l) =
    omega (arith, larger-insert_amount m a (sort_amounts l), larger-sort_amounts m l)

length-insert_amount : (a : ℕ) (l : List ℕ) → length (insert_amount a l) ≡ suc (length l)
unfolding insert_amount
length-insert_amount a [] = refl
length-insert_amount a (b ∷ l) = ground (arith, length-insert_amount a l)

length-sort_amounts : (l : List ℕ) → length (sort_amounts l) ≡ length l
unfolding sort_amounts
length-sort_amounts [] = refl
length-sort_amounts (a ∷ l) =
    omega (arith, length-insert_amount a (sort_amounts l), length-sort_amounts l)

-- In an ascending list no element is smaller than the bound of all of them.
smaller_none : (m : ℕ) (l : List ℕ) → All (λ b. m ≤ b) l → smaller m l ≡ 0
unfolding smaller
smaller_none m [] h = refl
smaller_none m (b ∷ l) h = let below = h.0 in ground (arith, smaller_none m l h.1)

larger_all : (m : ℕ) (l : List ℕ) → larger m l ≤ length l
unfolding larger
larger_all m [] = omega arith
larger_all m (b ∷ l) = ground (arith, larger_all m l)

All-get_elem : (n : ℕ) (l : List ℕ) (i m : ℕ) → All (λ b. n ≤ b) l → get_elem? l i ≡ some m → n ≤ m
All-get_elem n [] i m h e = absurd (ground arith)
All-get_elem n (b ∷ l) zero m h e = let first = h.0 in ground arith
All-get_elem n (b ∷ l) (suc i) m h e = All-get_elem n l i m h.1 e

-- The element at an index has at most so many smaller ones, and the larger ones are behind it.
at_index :
    (l : List ℕ) (i m : ℕ)
    → Ascending l
    → get_elem? l i ≡ some m
    → (smaller m l ≤ i) × (larger m l + i < length l)
unfolding smaller larger
at_index [] i m h e = absurd (ground arith)
at_index (a ∷ l) zero m h e =
    let same : a ≡ m = ground arith in
    let none_below : smaller m l ≡ 0 = rw (sym same) (smaller_none a l h.0) in
    let few = larger_all m l in (ground arith, ground arith)
at_index (a ∷ l) (suc i) m h e =
    let less = All-get_elem a l i m h.0 e in
    let rest = at_index l i m h.1 e in
    let rest_smaller = rest.0 in let rest_larger = rest.1 in (ground arith, ground arith)

get_elem_found : (l : List ℕ) (i : ℕ) → i < length l → (m : ℕ) × (get_elem? l i ≡ some m)
get_elem_found [] i h = absurd (omega arith)
get_elem_found (b ∷ l) zero h = (b, refl)
get_elem_found (b ∷ l) (suc i) h = get_elem_found l i (omega arith)

-- Of one or more amounts the median exists, and neither the smaller nor the larger amounts are
-- more than half of them.
pub median_halves :
    (amounts : List ℕ)
    → 0 < length amounts
    → (m : ℕ) × (median amounts ≡ some m)
      × (2 * smaller m amounts ≤ length amounts)
      × (2 * larger m amounts ≤ length amounts)
unfolding median
median_halves amounts h =
    let sorted = sort_amounts amounts in
    let size = length-sort_amounts amounts in
    let (m, e) = get_elem_found sorted (length amounts / 2) (omega arith) in
    let bounds = at_index sorted (length amounts / 2) m (sort_amounts-Ascending amounts) e in
    (
      m,
      e,
      omega (arith, bounds.0, smaller-sort_amounts m amounts),
      omega (arith, bounds.1, larger-sort_amounts m amounts, size),
    )

joined :
    {A B : Type 0} (b : Bool) (x : Result NodeError A) (y : Result NodeError B) (e : NodeError)
    → try_join b x y ≡ err e
    → (x ≡ err e) ⊎ (y ≡ err e)
unfolding try_join
joined b (ok a) (ok c) e h = absurd cc
joined b (ok a) (err f) e h = inr cc
joined b (err f) (ok a) e h = inl cc
joined true (err f) (err g) e h = inr cc
joined false (err f) (err g) e h = inl cc

module _ (fl : Floats) (d : Deps) (faults : ReadFaults) where
  -- `/info` fails only with an error that the node gave for the DAG info or for the coin supply;
  -- the calls for the hash rate and for the block reward cannot make it fail.
  pub info_err :
      (second_first : Bool) (calls : InfoCalls) (store : Option (Tables d)) (t : Instants)
      (c : InfoCaches fl.F) (e : ApiError)
      → (info fl d faults second_first calls store t c).0 ≡ err e
      → (f : NodeError) × (e ≡ node f)
        × ((calls.get_block_dag_info ≡ err f) ⊎ (calls.get_coin_supply ≡ err f))
  unfolding info build_info get_or_try_init
  info_err second_first calls store t c e h =
      let go : (info fl d faults second_first calls store t c).0 ≡ err e
          → (f : NodeError) × (e ≡ node f)
            × ((calls.get_block_dag_info ≡ err f) ⊎ (calls.get_coin_supply ≡ err f)) =
        elim (Option-cases (fresh t.asked c.info)) [
          | inr (v, f) ↦ rw (f, info, get_or_try_init) (λ h. absurd (ground arith))
          | inl f ↦
              elim (Result-cases
                (try_join second_first calls.get_block_dag_info calls.get_coin_supply)) [
                  | inl (p, j) ↦
                      rw (f, info, get_or_try_init)
                        (rw (j, build_info) (λ h. absurd (ground arith)))
                  | inr (n, j) ↦
                      rw (f, info, get_or_try_init)
                        (rw (j, build_info) (λ h. (n, cc, joined second_first _ _ n j)))
                ]
        ] in
      go h

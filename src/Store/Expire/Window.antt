-- ===== src/Store/Expire/Window.antt =====
-- What the retention sweep keeps and what it takes away.
use keryx_api_shim.Base.{
  ℕ, ◌≡◌, refl, sym, ap, ◌∙◌, Bool, true, false, ◌&&◌, ◌||◌, Option, none, some, List, [], ◌∷◌,
  Bytes, ltb, leb, ◌==◌, if◌then◌else◌, is_some, bytes_eq, bytes_eq_iff, arith, Bool-cases, inl,
  inr,
}
use keryx_api_shim.Redb.Defs.{lookup, num_key, text_key}
use keryx_api_shim.Store.Types.{IndexedTx}
use keryx_api_shim.Store.Keys.{resp_list_tx_num}
use keryx_api_shim.Store.Tables.{Deps, NumTable, TextTable, LedgerTables, Tables}
use keryx_api_shim.Store.Expire.{
  expired_txs, expire_tx, expire_txs, remove_texts, expire_requests, stale_list_keys,
  stale_response_hashes, expired_requests, expire_ai, expire_below,
}

-- The DAA scores along a walk start at `low` and never go down.
unfoldable pub daa_from : ℕ → List (ℕ × IndexedTx) → Bool
daa_from low [] = true
daa_from low ((tx_num, itx) ∷ l) = leb low itx.accepting_daa && daa_from itx.accepting_daa l

-- What a sweep with the cutoff is to leave of a row.
unfoldable pub kept : ℕ → Option IndexedTx → Option IndexedTx
kept cutoff none = none
kept cutoff (some itx) = if ltb itx.accepting_daa cutoff then none else some itx

unfoldable pub has_num : ℕ → List (ℕ × IndexedTx) → Bool
has_num n [] = false
has_num n ((tx_num, itx) ∷ l) = tx_num == n || has_num n l

unfoldable pub has_key : Bytes → List Bytes → Bool
has_key k [] = false
has_key k (j ∷ l) = bytes_eq j k || has_key k l

-- From a row at or above the cutoff on, a walk with rising scores loses nothing.
kept_above :
    (cutoff low n : ℕ) (l : List (ℕ × IndexedTx))
    → leb cutoff low ≡ true
    → daa_from low l ≡ true
    → kept cutoff (lookup num_key n l) ≡ lookup num_key n l
unfolding kept lookup daa_from
kept_above cutoff low n [] h m = refl
kept_above cutoff low n ((k, itx) ∷ l) h m = elim (Bool-cases (k == n)) [
  | inl e ↦ ground arith
  | inr e ↦ rw e (kept_above cutoff itx.accepting_daa n l (ground arith) (ground arith))
]

-- The first scan finds the rows below the cutoff, all of them and no others.
scan_exact :
    (cutoff low n : ℕ) (l : List (ℕ × IndexedTx))
    → daa_from low l ≡ true
    → (if has_num n (expired_txs cutoff l) then none else lookup num_key n l)
      ≡ kept cutoff (lookup num_key n l)
unfolding kept lookup daa_from has_num expired_txs
scan_exact cutoff low n [] m = refl
scan_exact cutoff low n ((k, itx) ∷ l) m = elim (Bool-cases (leb cutoff itx.accepting_daa)) [
  | inl e ↦ rw e (elim (Bool-cases (k == n)) [
    | inl f ↦ ground arith
    | inr f ↦ rw f (sym (kept_above cutoff itx.accepting_daa n l e (ground arith)))
  ])
  | inr e ↦ rw e (elim (Bool-cases (k == n)) [
    | inl f ↦ ground arith
    | inr f ↦ rw f (scan_exact cutoff itx.accepting_daa n l (ground arith))
  ])
]

module _ (d : Deps) where
  open d.db use {nums, texts}

  get-expire_txs :
      (l : List (ℕ × IndexedTx)) (t : LedgerTables d) (n : ℕ)
      → nums.get (expire_txs d l t).tx n ≡ (if has_num n l then none else nums.get t.tx n)
  unfolding expire_txs expire_tx has_num
  get-expire_txs [] t n = refl
  get-expire_txs ((k, itx) ∷ l) t n =
      ground (arith, get-expire_txs l (expire_tx d k itx t) n, nums.get-remove t.tx k n)

  -- When the stored transactions stand in the order of their accepting scores, the sweep removes
  -- exactly those below the cutoff: a row of the transaction table stays as it is if its score is
  -- at or above the cutoff, and is gone otherwise.
  pub expire_below_exact :
      (cutoff : ℕ) (s : Tables d) (n : ℕ)
      → daa_from 0 (nums.iter s.ledger.tx) ≡ true
      → nums.get (expire_below d cutoff s).0.ledger.tx n ≡ kept cutoff (nums.get s.ledger.tx n)
  unfolding expire_below
  expire_below_exact cutoff s n m =
      let l = nums.iter s.ledger.tx in
      get-expire_txs (expired_txs cutoff l) s.ledger n
      ∙ ap (λ o. if has_num n (expired_txs cutoff l) then none else o)
          (sym (nums.lookup-iter s.ledger.tx n))
      ∙ scan_exact cutoff 0 n l m
      ∙ ap (kept cutoff) (nums.lookup-iter s.ledger.tx n)

  totals-expire_txs :
      (l : List (ℕ × IndexedTx)) (t : LedgerTables d)
      → (expire_txs d l t).addr_totals ≡ t.addr_totals
  unfolding expire_txs expire_tx
  totals-expire_txs [] t = refl
  totals-expire_txs ((k, itx) ∷ l) t = totals-expire_txs l (expire_tx d k itx t)

  -- The sweep leaves the totals of every address, the counters and the checkpoint alone.
  pub expire_below_totals :
      (cutoff : ℕ) (s : Tables d)
      → ((expire_below d cutoff s).0.ledger.addr_totals ≡ s.ledger.addr_totals)
        × ((expire_below d cutoff s).0.meta ≡ s.meta)
        × ((expire_below d cutoff s).0.meta_str ≡ s.meta_str)
  unfolding expire_below
  expire_below_totals cutoff s =
      (totals-expire_txs (expired_txs cutoff (nums.iter s.ledger.tx)) s.ledger, refl, refl)

  get-remove_texts :
      {V : Type 0} (ks : List Bytes) (t : TextTable d V) (k : Bytes)
      → texts.get (remove_texts d ks t) k ≡ (if has_key k ks then none else texts.get t k)
  unfolding remove_texts has_key
  get-remove_texts [] t k = refl
  get-remove_texts (j ∷ ks) t k =
      ground (arith, get-remove_texts ks (texts.remove t j) k, texts.get-remove t j k)

  has_key-stale_list :
      (tx : NumTable d IndexedTx) (l : List (Bytes × (Unit {0}))) (k : Bytes)
      → is_some (lookup text_key k l) ≡ true
      → is_some (nums.get tx (resp_list_tx_num k)) ≡ false
      → has_key k (stale_list_keys d tx l) ≡ true
  unfolding has_key lookup stale_list_keys
  has_key-stale_list tx [] k h n = ground arith
  has_key-stale_list tx ((j, u) ∷ l) k h n =
      ground (arith, has_key-stale_list tx l k, bytes_eq_iff j k)

  has_key-stale_hashes :
      (by_hash : TextTable d ℕ) (l : List (Bytes × Bytes)) (k v : Bytes)
      → lookup text_key k l ≡ some v
      → is_some (texts.get by_hash v) ≡ false
      → has_key k (stale_response_hashes d by_hash l) ≡ true
  unfolding has_key lookup stale_response_hashes
  has_key-stale_hashes by_hash [] k v h n = ground arith
  has_key-stale_hashes by_hash ((j, u) ∷ l) k v h n =
      ground (arith, has_key-stale_hashes by_hash l k v, bytes_eq_iff j k)

  -- After the sweep no response listing and no response identity dangles: a listing that is left
  -- names a stored transaction, and an identity that is left names a stored request.
  pub expire_below_no_dangling :
      (cutoff : ℕ) (s : Tables d)
      → (let t = (expire_below d cutoff s).0 in
          ((k : Bytes)
            → is_some (texts.get t.ai.ai_resp_list k) ≡ true
            → is_some (nums.get t.ledger.tx (resp_list_tx_num k)) ≡ true)
          × ((k v : Bytes)
              → texts.get t.ai.ai_resp_hash k ≡ some v
              → is_some (texts.get t.ai.ai_req_by_hash v) ≡ true))
  unfolding expire_below expire_ai
  expire_below_no_dangling cutoff s =
      let t1 = expire_requests d (expired_requests cutoff (nums.iter s.ai.ai_req)) s.ai in
      let tx = (expire_txs d (expired_txs cutoff (nums.iter s.ledger.tx)) s.ledger).tx in
      (
        λ k h. ground (
          arith,
          get-remove_texts (stale_list_keys d tx (texts.iter t1.ai_resp_list)) t1.ai_resp_list k,
          has_key-stale_list tx (texts.iter t1.ai_resp_list) k,
          texts.lookup-iter t1.ai_resp_list k,
        ),
        λ k v h. ground (
          arith,
          get-remove_texts (stale_response_hashes d t1.ai_req_by_hash (texts.iter t1.ai_resp_hash))
              t1.ai_resp_hash k,
          has_key-stale_hashes t1.ai_req_by_hash (texts.iter t1.ai_resp_hash) k v,
          texts.lookup-iter t1.ai_resp_hash k,
        ),
      )

-- ===== src/Store/Order.antt =====
-- The order of the transaction table: which numbers are taken, and how the accepting DAA scores
-- stand along them.
pub mod Applied
pub mod Reached
use keryx_api_shim.Base.{
  ℕ, suc, ◌<◌, ◌≤◌, ◌≡◌, refl, sym, ◌∙◌, Bool, true, ◌&&◌, none, some, List, [], ◌∷◌, ltb, ◌==◌,
  leb, if◌then◌else◌, arith, ==_iff, inl, inr, Bool-cases,
}
use keryx_api_shim.Redb.Defs.{num_key, lookup, below, ascending}
use keryx_api_shim.Store.Types.{IndexedTx}
use keryx_api_shim.Store.Tables.{Deps, NumTable}
use keryx_api_shim.Store.Expire.Window.{daa_from}

module _ (d : Deps) where
  open d.db use {nums}

  -- Every row stands below the next number and at or below the score `top`, and the scores never
  -- go down along the numbers.
  pub record IsOrdered (top next_tx_num : ℕ) (tx : NumTable d IndexedTx) : Type 0 where
    pub numbered : (n : ℕ) (r : IndexedTx) → nums.get tx n ≡ some r → n < next_tx_num
    pub bounded : (n : ℕ) (r : IndexedTx) → nums.get tx n ≡ some r → r.accepting_daa ≤ top
    pub rising :
        (m n : ℕ) (q r : IndexedTx)
        → nums.get tx m ≡ some q
        → nums.get tx n ≡ some r
        → m < n
        → q.accepting_daa ≤ r.accepting_daa

  pub IsOrdered-raise :
      (top next low : ℕ) (tx : NumTable d IndexedTx)
      → IsOrdered top next tx
      → top ≤ low
      → IsOrdered low next tx
  IsOrdered-raise top next low tx o h = record {
    numbered = o.numbered;
    bounded = λ n r e. omega (arith, o.bounded n r e);
    rising = o.rising;
  }

  -- A row with the next number and a score that is not lower goes to the end of the order.
  pub insert-IsOrdered :
      (top next : ℕ) (tx : NumTable d IndexedTx) (v : IndexedTx)
      → IsOrdered top next tx
      → top ≤ v.accepting_daa
      → IsOrdered v.accepting_daa (suc next) (nums.insert tx next v)
  insert-IsOrdered top next tx v o h = record {
    numbered = λ n r e. ground (arith, nums.get-insert tx next v n, o.numbered n r);
    bounded = λ n r e. ground (arith, nums.get-insert tx next v n, o.bounded n r);
    rising = λ m n q r e f l. ground (
      arith,
      nums.get-insert tx next v m,
      nums.get-insert tx next v n,
      o.numbered m q,
      o.numbered n r,
      o.bounded m q,
      o.rising m n q r,
    );
  }

  pub remove-IsOrdered :
      (top next k : ℕ) (tx : NumTable d IndexedTx)
      → IsOrdered top next tx
      → IsOrdered top next (nums.remove tx k)
  remove-IsOrdered top next k tx o = record {
    numbered = λ n r e. ground (arith, nums.get-remove tx k n, o.numbered n r);
    bounded = λ n r e. ground (arith, nums.get-remove tx k n, o.bounded n r);
    rising = λ m n q r e f l.
        ground (arith, nums.get-remove tx k m, nums.get-remove tx k n, o.rising m n q r);
  }

-- In an ascending walk, a key that is found behind another one is larger.
pub lt_of_lookup :
    (k n : ℕ) (l : List (ℕ × IndexedTx)) (r : IndexedTx)
    → below num_key k l ≡ true
    → lookup num_key n l ≡ some r
    → k < n
unfolding below lookup
lt_of_lookup k n [] r b e = absurd (ground arith)
lt_of_lookup k n ((j, v) ∷ l) r b e = ground (arith, ==_iff j n, lt_of_lookup k n l r)

-- A walk in the order of the keys meets the scores in the order in which they rise.
pub walk_rises :
    (low : ℕ) (l : List (ℕ × IndexedTx))
    → ascending num_key l ≡ true
    → ((n : ℕ) (r : IndexedTx) → lookup num_key n l ≡ some r → low ≤ r.accepting_daa)
    → ((m n : ℕ) (q r : IndexedTx)
        → lookup num_key m l ≡ some q
        → lookup num_key n l ≡ some r
        → m < n
        → q.accepting_daa ≤ r.accepting_daa)
    → daa_from low l ≡ true
unfolding ascending lookup daa_from
walk_rises low [] a h rise = refl
walk_rises low ((k, v) ∷ l) a h rise =
    let tail = λ (n : ℕ) (r : IndexedTx) (e : lookup num_key n l ≡ some r).
      lt_of_lookup k n l r (ground arith) e in
    let rest : daa_from v.accepting_daa l ≡ true =
      walk_rises v.accepting_daa l (ground arith)
        (λ n r e. ground (arith, tail n r e, rise k n v r, ==_iff k k))
        (λ m n q r e f g. ground (arith, tail m q e, tail n r f, rise m n q r)) in
    ground (arith, rest, h k v)

module _ (d : Deps) where
  open d.db use {nums}

  pub IsOrdered-daa_from :
      (top next : ℕ) (tx : NumTable d IndexedTx)
      → IsOrdered d top next tx
      → daa_from 0 (nums.iter tx) ≡ true
  IsOrdered-daa_from top next tx o =
      walk_rises 0 (nums.iter tx) (nums.iter_ascending tx) (λ n r e. omega arith)
        (λ m n q r e f l.
          o.rising m n q r (sym (nums.lookup-iter tx m) ∙ e) (sym (nums.lookup-iter tx n) ∙ f) l)

-- ===== src/Startup/Unambiguous.antt =====
-- Which routes a path fits. How a pattern is matched is axum's: `fits` is a parameter, with what axum
-- documents of it, that a path fits only a pattern with as many segments, where each segment of the
-- path is that of the pattern, or any where the pattern has a capture in braces.
use keryx_api_shim.Base.{
  ℕ, zero, suc, Bool, true, false, not, ◌&&◌, ◌||◌, ◌≡◌, refl, ap, some, List, [], ◌∷◌, Bytes, ◌==◌,
  bytes_eq, bytes_eq_iff, get_elem?, some_inj, arith,
}
use keryx_api_shim.Base.Ascii.{split}
use keryx_api_shim.Startup.Routes.{Route, routes}

-- A segment that begins with a brace.
unfoldable pub is_capture : Bytes → Bool
is_capture [] = false
is_capture (b ∷ s) = b == b'{'

unfoldable pub segments_agree : List Bytes → List Bytes → Bool
segments_agree [] [] = true
segments_agree [] (s ∷ ss) = false
segments_agree (p ∷ ps) [] = false
segments_agree (p ∷ ps) (s ∷ ss) = (is_capture p || bytes_eq p s) && segments_agree ps ss

-- Two patterns that some path may fit both.
unfoldable overlap : List Bytes → List Bytes → Bool
overlap [] [] = true
overlap [] (q ∷ qs) = false
overlap (p ∷ ps) [] = false
overlap (p ∷ ps) (q ∷ qs) = (is_capture p || is_capture q || bytes_eq p q) && overlap ps qs

overlap-segments_agree :
    (ps qs path : List Bytes)
    → segments_agree ps path ≡ true
    → segments_agree qs path ≡ true
    → overlap ps qs ≡ true
unfolding overlap segments_agree
overlap-segments_agree [] [] path h k = refl
overlap-segments_agree [] (q ∷ qs) [] h k = absurd (ground arith)
overlap-segments_agree [] (q ∷ qs) (s ∷ ss) h k = absurd (ground arith)
overlap-segments_agree (p ∷ ps) [] [] h k = absurd (ground arith)
overlap-segments_agree (p ∷ ps) [] (s ∷ ss) h k = absurd (ground arith)
overlap-segments_agree (p ∷ ps) (q ∷ qs) [] h k = absurd (ground arith)
overlap-segments_agree (p ∷ ps) (q ∷ qs) (s ∷ ss) h k =
    ground
      (arith, bytes_eq_iff p s, bytes_eq_iff q s, bytes_eq_iff p q, overlap-segments_agree ps qs ss)

-- A route that overlaps with none of the list.
unfoldable apart_from : Route → List Route → Bool
apart_from r [] = true
apart_from r (q ∷ qs) =
    not (overlap (split b'/' r.pattern) (split b'/' q.pattern)) && apart_from r qs

unfoldable all_apart : List Route → Bool
all_apart [] = true
all_apart (r ∷ rs) = apart_from r rs && all_apart rs

routes_apart : all_apart routes ≡ true
unfolding all_apart apart_from overlap is_capture split routes bytes_eq
routes_apart = refl

module _ (fits : Bytes → Bytes → Bool)
    (documented : (pattern path : Bytes)
      → fits pattern path ≡ true
      → segments_agree (split b'/' pattern) (split b'/' path) ≡ true) where
  overlap-fits :
      (p q path : Bytes)
      → fits p path ≡ true
      → fits q path ≡ true
      → overlap (split b'/' p) (split b'/' q) ≡ true
  overlap-fits p q path h k =
      overlap-segments_agree (split b'/' p) (split b'/' q) (split b'/' path) (documented p path h)
        (documented q path k)

  not_found_apart :
      (r q : Route) (rs : List Route) (path : Bytes) (j : ℕ)
      → apart_from r rs ≡ true
      → get_elem? rs j ≡ some q
      → fits r.pattern path ≡ true
      → fits q.pattern path ≡ true
      → ⊥
  unfolding apart_from
  not_found_apart r q [] path j a e h k = ground arith
  not_found_apart r q (x ∷ rs) path zero a e h k =
      let same : x ≡ q = some_inj e in
      ground (arith, overlap-fits r.pattern x.pattern path h (rw same k))
  not_found_apart r q (x ∷ rs) path (suc j) a e h k =
      not_found_apart r q rs path j (ground arith) e h k

  same_place :
      (rs : List Route) (i j : ℕ) (r q : Route) (path : Bytes)
      → all_apart rs ≡ true
      → get_elem? rs i ≡ some r
      → get_elem? rs j ≡ some q
      → fits r.pattern path ≡ true
      → fits q.pattern path ≡ true
      → i ≡ j
  unfolding all_apart
  same_place [] i j r q path a e f h k = absurd (ground arith)
  same_place (x ∷ rs) zero zero r q path a e f h k = refl
  same_place (x ∷ rs) zero (suc j) r q path a e f h k =
      let same : x ≡ r = some_inj e in
      absurd (not_found_apart x q rs path j (ground arith) f (rw same h) k)
  same_place (x ∷ rs) (suc i) zero r q path a e f h k =
      let same : x ≡ q = some_inj f in
      absurd (not_found_apart x r rs path i (ground arith) e (rw same k) h)
  same_place (x ∷ rs) (suc i) (suc j) r q path a e f h k =
      ap suc (same_place rs i j r q path (ground arith) e f h k)

  -- Whatever the path of a request, it fits at most one route of the table.
  pub routes_unambiguous :
      (path : Bytes) (i j : ℕ) (r q : Route)
      → get_elem? routes i ≡ some r
      → get_elem? routes j ≡ some q
      → fits r.pattern path ≡ true
      → fits q.pattern path ≡ true
      → i ≡ j
  routes_unambiguous path i j r q e f h k = same_place routes i j r q path routes_apart e f h k

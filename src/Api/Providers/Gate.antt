-- ===== src/Api/Providers/Gate.antt =====
-- The calls that the version gate lets through.
use keryx_api_shim.Base.{
  ℕ, ◌≡◌, ◌<◌, ◌≤◌, ◌⊎◌, ltb, Option-cases, refl, Bool, true, false, Option, none, some, List, [],
  ◌∷◌, Bytes, arith, Bool-cases, inl, inr,
}
use keryx_api_shim.Base.Results.{Result, ok, Result-cases}
use keryx_api_shim.Cache.{fresh, get_or_try_init}
use keryx_api_shim.Node.{NodeError}
use keryx_api_shim.Api.Providers.{
  NodeCall, get_server_info, get_service_providers, ProviderCaches, ServiceProviders, is_too_old,
  ltb_version, service_providers_min_node, node_version, calls_of, ai_providers,
}

unfoldable pub asks_providers : List NodeCall → Bool
asks_providers [] = false
asks_providers (get_server_info ∷ l) = asks_providers l
asks_providers (get_service_providers w ∷ l) = true

version_call : (o : Option Bytes) → asks_providers (calls_of o (get_server_info ∷ [])) ≡ false
unfolding asks_providers calls_of
version_call none = refl
version_call (some v) = refl

-- A version is at least 1.6.4, by its numbers from the left.
abbrev pub IsNewEnough : ℕ × ℕ × ℕ → Type 0
IsNewEnough v = (1 < v.0) ⊎ ((v.0 ≡ 1) × ((6 < v.1) ⊎ ((v.1 ≡ 6) × (4 ≤ v.2))))

ltb_version-IsNewEnough :
    (v : ℕ × ℕ × ℕ) → ltb_version v service_providers_min_node ≡ false → IsNewEnough v
unfolding ltb_version
ltb_version-IsNewEnough (a, b, c) h = elim (Bool-cases (ltb 1 a)) [
  | inl e ↦ inl (ground (arith, e))
  | inr e ↦
      let one : a ≡ 1 = ground (arith, e, h) in
      elim (Bool-cases (ltb 6 b)) [
        | inl f ↦ inr (one, inl (ground (arith, f)))
        | inr f ↦ inr (one, inr (ground (arith, f, h), ground (arith, f, h)))
      ]
]

is_too_old-IsNewEnough :
    (version : Bytes)
    → is_too_old version ≡ false
    → (v : ℕ × ℕ × ℕ) × (node_version version ≡ some v) × IsNewEnough v
unfolding is_too_old
is_too_old-IsNewEnough version h = elim (Option-cases (node_version version)) [
  | inl e ↦ absurd (ground (arith, e, h))
  | inr (v, e) ↦ (v, e, ltb_version-IsNewEnough v (ground (arith, e, h)))
]

module _ (server_version : Result NodeError Bytes) (second_first : Bool)
    (get_providers : Option ℕ → Result NodeError ServiceProviders) where
  -- If the node is asked for its providers, then a version text was at hand, from the cell, which
  -- may have it from an earlier call, or from the node, and the numbers that are read from that
  -- text are at least 1, 6, 4, compared from the left.
  pub ai_providers_gate :
      (now known done : ℕ) (c : ProviderCaches)
      → asks_providers (ai_providers server_version second_first get_providers now known done c).2
        ≡ true
      → (version : Bytes) × ((get_or_try_init now known server_version c.version).0 ≡ ok version)
        × ((v : ℕ × ℕ × ℕ) × (node_version version ≡ some v) × IsNewEnough v)
  unfolding ai_providers asks_providers
  ai_providers_gate now known done c h =
      elim (Result-cases (get_or_try_init now known server_version c.version).0) [
        | inr (e, f) ↦
            let quiet : asks_providers
                  (ai_providers server_version second_first get_providers now known done c).2
                ≡ false =
              rw (f, ai_providers) (version_call (fresh now c.version)) in
            absurd (ground (arith, h, quiet))
        | inl (v, f) ↦ elim (Bool-cases (is_too_old v)) [
          | inr g ↦ (v, f, is_too_old-IsNewEnough v g)
          | inl g ↦
              let quiet : asks_providers
                    (ai_providers server_version second_first get_providers now known done c).2
                  ≡ false =
                rw (f, g, ai_providers) (version_call (fresh now c.version)) in
              absurd (ground (arith, h, quiet))
        ]
      ]

-- ===== src/Api/Providers/Versions.antt =====
-- What `node_version` reads of a version text.
use keryx_api_shim.Base.{ℕ, ◌≡◌, true, ◌∷◌, ◌++◌, Bytes}
use keryx_api_shim.Base.Ascii.{is_ascii_digit}
use keryx_api_shim.Base.Decimal.{decimal}

abbrev IsDigit : ℕ → Type 0
IsDigit c = is_ascii_digit c ≡ true

-- The text of a version.
abbrev pub version_text : ℕ → ℕ → ℕ → Bytes
version_text major minor patch =
    decimal 20 major ++ b'.' ∷ (decimal 20 minor ++ b'.' ∷ decimal 20 patch)

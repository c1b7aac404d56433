-- ===== src/Api/Proxies.antt =====
-- The proxies of `src/api/handlers.rs`: `/market` and `/ipfs/{cid}`. `get` is the HTTP client, and
-- `show_status` the text of a status.
pub mod Capped
use keryx_api_shim.Base.{
  ℕ, ◌+◌, ◌*◌, Bool, true, false, ◌&&◌, ◌||◌, not, Option, none, some, List, [], ◌∷◌, ◌++◌, Bytes,
  ltb, leb, ◌==◌, if◌then◌else◌, length, all, reverse, ascii,
}
use keryx_api_shim.Base.Ascii.{starts_with}
use keryx_api_shim.Base.Results.{Result, ok, err}
use keryx_api_shim.Cache.{TtlCell, get_or_try_init}
use keryx_api_shim.Api.{ApiError, bad_request, not_found, upstream}
use keryx_api_shim.Api.Providers.{trim_start}

abbrev pub ipfs_max_bytes : ℕ
ipfs_max_bytes = 1024 * 1024

-- A response whose headers have arrived: its status and what reading its body gives.
pub record HttpResponse (B : Type 0) : Type 0 where
  pub status : ℕ
  pub body : B

unfoldable pub is_success : ℕ → Bool
is_success status = leb 200 status && ltb status 300

-- `matches!(b, b'1'..=b'9' | ...)`: base58, the digits and letters but 0, O, I and l.
unfoldable pub is_base58 : ℕ → Bool
is_base58 b =
    (leb b'1' b && leb b b'9')
    || (leb b'A' b && leb b b'H')
    || (leb b'J' b && leb b b'N')
    || (leb b'P' b && leb b b'Z')
    || (leb b'a' b && leb b b'k')
    || (leb b'm' b && leb b b'z')

unfoldable pub is_cid_v0 : Bytes → Bool
is_cid_v0 s = length s == 46 && starts_with (ascii "Qm") s && all is_base58 s

-- The loop over the chunks of a body; a chunk may fail to arrive.
unfoldable pub read_body : Bytes → List (Result Bytes Bytes) → Result ApiError Bytes
read_body body [] = ok body
read_body body (err e ∷ chunks) = err (upstream (ascii "ipfs gateway: " ++ e))
read_body body (ok chunk ∷ chunks) =
    let rest = read_body (body ++ chunk) chunks in
    if ltb ipfs_max_bytes (length body + length chunk)
    then err (upstream (ascii "ipfs object exceeds the 1 MiB proxy limit"))
    else rest

unfoldable pub ipfs_url : Bytes → Bytes → Bytes
unfolding trim_start
ipfs_url gateway cid = reverse (trim_start b'/' (reverse gateway)) ++ ascii "/ipfs/" ++ cid

module _ (show_status : ℕ → Bytes) where
  unfoldable pub ipfs :
      (Bytes → Result Bytes (HttpResponse (List (Result Bytes Bytes))))
      → Option Bytes
      → Bytes
      → Result ApiError Bytes
  ipfs get gateway cid =
      if not (is_cid_v0 cid) then err (bad_request (ascii "invalid IPFS CID")) else elim gateway [
        | none ↦ err (not_found (ascii "no IPFS gateway is configured on this shim"))
        | some g ↦ elim (get (ipfs_url g cid)) [
          | err e ↦ err (upstream (ascii "ipfs gateway: " ++ e))
          | ok resp ↦
              if is_success resp.status
              then read_body [] resp.body
              else err (upstream (ascii "ipfs gateway returned " ++ show_status resp.status))
        ]
      ]

  -- The `init` of the market cell.
  unfoldable pub fetch_market :
      {V : Type 0}
      → (Bytes → Result Bytes (HttpResponse (Result Bytes V)))
      → Bytes
      → Result ApiError V
  fetch_market get url = elim (get url) [
    | err e ↦ err (upstream (ascii "market upstream: " ++ e))
    | ok resp ↦
        if is_success resp.status
        then elim resp.body [
          | err e ↦ err (upstream (ascii "market upstream: " ++ e))
          | ok value ↦ ok value
        ]
        else err (upstream (ascii "market upstream returned " ++ show_status resp.status))
  ]

  -- A request at the time `now`, whose fetch ends at `done`.
  unfoldable pub market :
      {V : Type 0}
      → (Bytes → Result Bytes (HttpResponse (Result Bytes V)))
      → Option Bytes
      → ℕ
      → ℕ
      → TtlCell V
      → Result ApiError V × TtlCell V
  market get market_upstream now done cell = elim market_upstream [
    | none ↦ (err (not_found (ascii "market data is not configured on this shim")), cell)
    | some url ↦ get_or_try_init now done (fetch_market get url) cell
  ]

-- ===== src/Api/Proxies/Capped.antt =====
-- What the IPFS proxy passes on.
use keryx_api_shim.Base.{
  ◌+◌, ◌≤◌, ◌≡◌, refl, ap, ◌∙◌, true, List, [], ◌∷◌, ◌++◌, Bytes, ltb, if◌then◌else◌, length,
  length-append, arith, Bool-cases, inl, inr, ascii, append_assoc, append-nil,
}
use keryx_api_shim.Base.Results.{Result, ok, err}
use keryx_api_shim.Api.{ApiError, upstream}
use keryx_api_shim.Api.Proxies.{ipfs_max_bytes, read_body}

abbrev pub arrived : List Bytes → List (Result Bytes Bytes)
arrived [] = []
arrived (c ∷ l) = ok c ∷ arrived l

abbrev pub concat : List Bytes → Bytes
concat [] = []
concat (c ∷ l) = c ++ concat l

abbrev pub too_large : Result ApiError Bytes
too_large = err (upstream (ascii "ipfs object exceeds the 1 MiB proxy limit"))

capped :
    (body : Bytes) (chunks : List Bytes)
    → length body ≤ ipfs_max_bytes
    → read_body body (arrived chunks) ≡ (
        if ltb ipfs_max_bytes (length (body ++ concat chunks))
        then too_large
        else ok (body ++ concat chunks))
unfolding read_body
capped body [] h = rw (append-nil body) (ground arith)
capped body (c ∷ l) h = elim (Bool-cases (ltb ipfs_max_bytes (length body + length c))) [
  | inl e ↦
      let more : ltb ipfs_max_bytes (length (body ++ concat (c ∷ l))) ≡ true =
        ground (arith, length-append body (c ++ concat l), length-append c (concat l)) in
      rw (e, more) refl
  | inr e ↦
      let within : length (body ++ c) ≤ ipfs_max_bytes = ground (arith, length-append body c) in
      rw e (
        capped (body ++ c) l within
        ∙ ap (λ s. if ltb ipfs_max_bytes (length s) then too_large else ok s)
            (append_assoc body c (concat l)))
]

-- A body whose chunks all arrive is passed on whole, in order, if it has at most 1 MiB, and is
-- refused as too large otherwise.
pub read_body_capped :
    (chunks : List Bytes)
    → read_body [] (arrived chunks)
      ≡ (if ltb ipfs_max_bytes (length (concat chunks)) then too_large else ok (concat chunks))
read_body_capped chunks = capped [] chunks (omega arith)

-- ===== src/Store/Reads/Pages.antt =====
-- What the paging loops of the store's reads return.
use mathlib.Core.List.{append-nil, append_assoc}
use keryx_api_shim.Base.{
  ℕ, zero, suc, ◌+◌, ◌-◌, ◌≡◌, refl, sym, ap, ◌∙◌, true, false, Option, List, [], ◌∷◌, ◌++◌,
  reverse, Bytes, ltb, leb, if◌then◌else◌, length, length-append, take, drop, arith, Bool-cases,
  inl, inr,
}
use keryx_api_shim.Store.Types.{
  HistRow, AiRequestRec, AiRequestRecV1, AiResponseRec, AiResponseRecV1, AiChallengeRec, Compat,
  dec_request,
}
use keryx_api_shim.Store.Tables.{Deps, TextTable, Tables}
use keryx_api_shim.Store.Reads.{
  history_loop, challenges_loop, history_rows, address_history, first_response, feed_loop,
  inference_feed, challenges,
}

abbrev pub values {ℓ} : {K : Type ℓ} {V : Type ℓ} → List (K × V) → List V
values [] = []
values ((k, v) ∷ l) = v ∷ values l

-- Entries `offset` to `offset + limit` of a list.
abbrev pub page {ℓ} : {A : Type ℓ} → ℕ → ℕ → List A → List A
page limit offset l = take limit (drop offset l)

module _ {A : Type 0} where
  page_nil : (out : List A) (m n : ℕ) → out ≡ out ++ page m n []
  page_nil out zero n = sym (append-nil out)
  page_nil out (suc m) zero = sym (append-nil out)
  page_nil out (suc m) (suc n) = sym (append-nil out)

  page_start :
      (limit offset : ℕ) (l : List A) → page (limit - 0) (offset - 0) l ≡ page limit offset l
  page_start limit offset l =
      let same : (n : ℕ) → n - 0 ≡ n = λ n. omega arith in
      λ i. page (same limit i) (same offset i) l

  -- An entry before the offset is not on the page.
  page_skip :
      (n skipped offset : ℕ) (a : A) (l : List A)
      → ltb skipped offset ≡ true
      → page n (offset - skipped) (a ∷ l) ≡ page n (offset - (skipped + 1)) l
  page_skip n skipped offset a l h =
      let more : offset - skipped ≡ suc (offset - (skipped + 1)) = ground arith in
      ap (λ m. take n (drop m (a ∷ l))) more

  -- A full page takes no more entries.
  page_full :
      (limit offset : ℕ) (out l : List A)
      → leb limit (length out) ≡ true
      → out ++ page (limit - length out) offset l ≡ out
  page_full limit offset out l h =
      let full : limit - length out ≡ 0 = ground arith in
      ap (λ m. out ++ take m (drop offset l)) full ∙ append-nil out

  -- Past the offset, an entry is the next of the page.
  page_push :
      (limit skipped offset : ℕ) (out l : List A) (a : A)
      → ltb skipped offset ≡ false
      → leb limit (length out) ≡ false
      → (out ++ a ∷ []) ++ page (limit - length (out ++ a ∷ [])) (offset - skipped) l
        ≡ out ++ page (limit - length out) (offset - skipped) (a ∷ l)
  page_push limit skipped offset out l a h k =
      append_assoc out (a ∷ []) _
      ∙ ap (λ m. out ++ a ∷ take m (drop (offset - skipped) l)) fewer
      ∙ ap (λ m. out ++ a ∷ take (limit - (length out + 1)) (drop m l)) none_left
      ∙ sym (λ i. out ++ take (more i) (drop (none_left i) (a ∷ l)))
    where
      fewer : limit - length (out ++ a ∷ []) ≡ limit - (length out + 1)
      fewer = omega (arith, length-append {0} out (a ∷ []))

      none_left : offset - skipped ≡ 0
      none_left = ground arith

      more : limit - length out ≡ suc (limit - (length out + 1))
      more = ground arith

history_loop-page :
    (limit offset skipped : ℕ) (out : List HistRow) (rows : List (Bytes × HistRow))
    → history_loop limit offset skipped out rows
      ≡ out ++ page (limit - length out) (offset - skipped) (values rows)
unfolding history_loop
history_loop-page limit offset skipped out [] = page_nil out (limit - length out) (offset - skipped)
history_loop-page limit offset skipped out ((k, row) ∷ rows) =
    elim (Bool-cases (ltb skipped offset)) [
      | inl e ↦ rw e (
          history_loop-page limit offset (skipped + 1) out rows
          ∙ ap (λ l. out ++ l) (sym (page_skip _ skipped offset row (values rows) e)))
      | inr e ↦ elim (Bool-cases (leb limit (length out))) [
        | inl f ↦ rw (e, f) (sym (page_full limit (offset - skipped) out (row ∷ values rows) f))
        | inr f ↦
            rw (e, f)
              (history_loop-page limit offset skipped (out ++ row ∷ []) rows
                ∙ page_push limit skipped offset out (values rows) row e f)
      ]
    ]

challenges_loop-page :
    (limit : ℕ) (out : List AiChallengeRec) (rows : List (ℕ × AiChallengeRec))
    → challenges_loop limit out rows ≡ out ++ page (limit - length out) 0 (values rows)
unfolding challenges_loop
challenges_loop-page limit out [] = page_nil out (limit - length out) 0
challenges_loop-page limit out ((k, rec) ∷ rows) = elim (Bool-cases (leb limit (length out))) [
  | inl f ↦ rw f (sym (page_full limit 0 out (rec ∷ values rows) f))
  | inr f ↦ rw f (
      challenges_loop-page limit (out ++ rec ∷ []) rows
      ∙ page_push limit 0 0 out (values rows) rec refl f)
]

module _ (d : Deps) where
  open d.db use {nums, texts}

  -- The public requests of the walk, each with its first response.
  unfoldable pub public_rows :
      TextTable d (Compat AiResponseRec AiResponseRecV1)
      → List (ℕ × Compat AiRequestRec AiRequestRecV1)
      → List (AiRequestRec × Option AiResponseRec)
  public_rows resp [] = []
  public_rows resp ((k, row) ∷ rows) =
      let req = dec_request row in
      let rest = public_rows resp rows in
      if req.private then rest else (req, first_response d resp req) ∷ rest

  feed_loop-page :
      (resp : TextTable d (Compat AiResponseRec AiResponseRecV1)) (limit offset skipped : ℕ)
      (out : List (AiRequestRec × Option AiResponseRec))
      (rows : List (ℕ × Compat AiRequestRec AiRequestRecV1))
      → feed_loop d resp limit offset skipped out rows
        ≡ out ++ page (limit - length out) (offset - skipped) (public_rows resp rows)
  unfolding feed_loop public_rows
  feed_loop-page resp limit offset skipped out [] =
      page_nil out (limit - length out) (offset - skipped)
  feed_loop-page resp limit offset skipped out ((k, row) ∷ rows) =
      let req = dec_request row in
      let entry : AiRequestRec × Option AiResponseRec = (req, first_response d resp req) in
      let rest = public_rows resp rows in
      elim (Bool-cases (leb limit (length out))) [
        | inl f ↦ rw f (
            sym (
              page_full limit (offset - skipped) out (if req.private then rest else entry ∷ rest)
                f))
        | inr f ↦ elim (Bool-cases req.private) [
          | inl e ↦ simp (f, e) (feed_loop-page resp limit offset skipped out rows)
          | inr e ↦ elim (Bool-cases (ltb skipped offset)) [
            | inl g ↦
                simp (f, e, g)
                  (feed_loop-page resp limit offset (skipped + 1) out rows
                    ∙ ap (λ l. out ++ l) (sym (page_skip _ skipped offset entry rest g)))
            | inr g ↦
                simp (f, e, g)
                  (feed_loop-page resp limit offset skipped (out ++ entry ∷ []) rows
                    ∙ page_push limit skipped offset out rest entry g f)
          ]
        ]
      ]

  -- An address's history page holds the rows from `offset` on, at most `limit` of them, of the
  -- address's rows in the order newest first.
  pub address_history_page :
      (s : Tables d) (addr : Bytes) (limit offset : ℕ)
      → address_history d s addr limit offset
        ≡ take limit (drop offset (values (history_rows d s addr)))
  unfolding address_history
  address_history_page s addr limit offset =
      history_loop-page limit offset 0 [] (history_rows d s addr)
      ∙ page_start limit offset (values (history_rows d s addr))

  -- The inference feed is the page from `offset` on, of at most `limit` entries, of the public
  -- requests, newest first, each with its first response; a private request takes no place.
  pub inference_feed_page :
      (s : Tables d) (limit offset : ℕ)
      → inference_feed d s limit offset
        ≡ take limit (drop offset (public_rows s.ai.ai_resp (reverse (nums.iter s.ai.ai_req))))
  unfolding inference_feed
  inference_feed_page s limit offset =
      feed_loop-page s.ai.ai_resp limit offset 0 [] (reverse (nums.iter s.ai.ai_req))
      ∙ page_start limit offset (public_rows s.ai.ai_resp (reverse (nums.iter s.ai.ai_req)))

  -- The challenges are the newest `limit` ones, newest first.
  pub challenges_page :
      (s : Tables d) (limit : ℕ)
      → challenges d s limit ≡ take limit (values (reverse (nums.iter s.ai.ai_chal)))
  unfolding challenges
  challenges_page s limit =
      challenges_loop-page limit [] (reverse (nums.iter s.ai.ai_chal))
      ∙ page_start limit 0 (values (reverse (nums.iter s.ai.ai_chal)))

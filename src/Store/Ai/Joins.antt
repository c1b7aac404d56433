-- ===== src/Store/Ai/Joins.antt =====
-- How requests and responses are joined in the inference tables.
use keryx_api_shim.Base.{
  ℕ, ◌≡◌, ◌<◌, refl, true, Option, none, some, List, [], ◌∷◌, All, Bytes, bytes_eq_iff, is_some,
  Option-cases, inl, inr, arith,
}
use keryx_api_shim.Base.Words.{u64_mod}
use keryx_api_shim.Store.Keys.Bounds.{resp_list_tx_num-resp_list_key}
use keryx_api_shim.Inference.Request.{AiRequest}
use keryx_api_shim.Inference.Response.{AiResponse}
use keryx_api_shim.Redb.Laws
use keryx_api_shim.Store.Types.{
  RawTx, AcceptedGroup, AiResponseRec, AiResponseRecV1, Compat, current,
}
use keryx_api_shim.Store.Keys.{resp_list_key, resp_list_tx_num}
use keryx_api_shim.Store.Tables.{Deps}
use keryx_api_shim.Store.Ai.{AiState, request_rec, response_rec, insert_request, insert_response}

-- A decoded response, with the transaction and the block that it comes from.
pub record Answer : Type 0 where
  pub raw : RawTx
  pub group : AcceptedGroup
  pub tx_num : ℕ
  pub identity : Bytes
  pub resp : AiResponse

abbrev pub HasTxNum : Answer → Type 0
HasTxNum a = a.tx_num < u64_mod

abbrev pub answer_key : Answer → Bytes
answer_key a = resp_list_key a.resp.request_hash a.tx_num

module _ (d : Deps) where
  open d.db use {nums, texts}

  insert_request_again :
      (raw : RawTx) (group : AcceptedGroup) (req : AiRequest) (rhash : Bytes) (key : Option Bytes)
      (s : AiState d) (seq : ℕ)
      → texts.get s.tables.ai_req_by_hash rhash ≡ some seq
      → insert_request d raw group req rhash key s ≡ s
  unfolding insert_request
  insert_request_again raw group req rhash key s seq h = rw (h, insert_request) refl

  -- A request whose identity is new is filed under the next number, found by its identity and by
  -- its transaction id; any later request with the same identity then changes nothing.
  pub insert_request_once :
      (raw other : RawTx) (group later : AcceptedGroup) (req again : AiRequest) (rhash : Bytes)
      (key other_key : Option Bytes) (s : AiState d)
      → texts.get s.tables.ai_req_by_hash rhash ≡ none
      → (let s' = insert_request d raw group req rhash key s in
          (texts.get s'.tables.ai_req_by_hash rhash ≡ some s.ai_req_seq)
          × (texts.get s'.tables.ai_req_by_hash raw.tx_id ≡ some s.ai_req_seq)
          × (nums.get s'.tables.ai_req s.ai_req_seq
              ≡ some (current (request_rec raw group req rhash key)))
          × (insert_request d other later again rhash other_key s' ≡ s'))
  unfolding insert_request
  insert_request_once raw other group later req again rhash key other_key s h =
      let t = s.tables.ai_req_by_hash in
      let t1 = texts.insert t rhash s.ai_req_seq in
      let by_hash : texts.get (texts.insert t1 raw.tx_id s.ai_req_seq) rhash ≡ some s.ai_req_seq =
        ground (
          arith,
          texts.get-insert t1 raw.tx_id s.ai_req_seq rhash,
          Laws.get-insert_self texts t rhash s.ai_req_seq,
        ) in
      let by_tx = Laws.get-insert_self texts t1 raw.tx_id s.ai_req_seq in
      let row =
        Laws.get-insert_self nums s.tables.ai_req s.ai_req_seq
          (current (request_rec raw group req rhash key)) in
      let found : texts.get (insert_request d raw group req rhash key s).tables.ai_req_by_hash rhash
          ≡ some s.ai_req_seq =
        rw (h, insert_request) by_hash in
      (
        found,
        rw (h, insert_request) by_tx,
        rw (h, insert_request) row,
        insert_request_again other later again rhash other_key _ s.ai_req_seq found,
      )

  -- The responses of a run of transactions, in order.
  unfoldable pub insert_responses : List Answer → AiState d → AiState d
  insert_responses [] s = s
  insert_responses (a ∷ l) s =
      insert_responses l (insert_response d a.raw a.group a.tx_num a.identity a.resp s)

  module _ (a : Answer) (s : AiState d) where
    abbrev after : AiState d
    after = insert_response d a.raw a.group a.tx_num a.identity a.resp s

    summary_stays :
        (h : Bytes) (rec : Compat AiResponseRec AiResponseRecV1)
        → texts.get s.tables.ai_resp h ≡ some rec
        → texts.get after.tables.ai_resp h ≡ some rec
    unfolding insert_response
    summary_stays h rec e = elim (Option-cases (texts.get s.tables.ai_resp a.resp.request_hash)) [
      | inr (v, f) ↦ rw (f, insert_response) e
      | inl f ↦
          rw (f, insert_response)
            (ground (
              arith,
              texts.get-insert s.tables.ai_resp a.resp.request_hash
                  (current (response_rec a.raw a.group a.resp)) h,
              bytes_eq_iff a.resp.request_hash h,
              e,
              f,
            ))
    ]

    listing_stays :
        (k : Bytes)
        → is_some (texts.get s.tables.ai_resp_list k) ≡ true
        → is_some (texts.get after.tables.ai_resp_list k) ≡ true
    unfolding insert_response
    listing_stays k e = ground (
      arith,
      texts.get-insert s.tables.ai_resp_list (resp_list_key a.resp.request_hash a.tx_num) tt k,
    )

    listed : is_some (texts.get after.tables.ai_resp_list (answer_key a)) ≡ true
    unfolding insert_response
    listed = ground (
      arith,
      Laws.get-insert_self texts s.tables.ai_resp_list (resp_list_key a.resp.request_hash a.tx_num)
          tt,
    )

  later_summary_stays :
      (l : List Answer) (s : AiState d) (h : Bytes) (rec : Compat AiResponseRec AiResponseRecV1)
      → texts.get s.tables.ai_resp h ≡ some rec
      → texts.get (insert_responses l s).tables.ai_resp h ≡ some rec
  unfolding insert_responses
  later_summary_stays [] s h rec e = e
  later_summary_stays (a ∷ l) s h rec e =
      later_summary_stays l (after a s) h rec (summary_stays a s h rec e)

  later_listing_stays :
      (l : List Answer) (s : AiState d) (k : Bytes)
      → is_some (texts.get s.tables.ai_resp_list k) ≡ true
      → is_some (texts.get (insert_responses l s).tables.ai_resp_list k) ≡ true
  unfolding insert_responses
  later_listing_stays [] s k e = e
  later_listing_stays (a ∷ l) s k e = later_listing_stays l (after a s) k (listing_stays a s k e)

  -- The listing of a response is there, under a key that gives its transaction number back.
  abbrev pub IsListed : AiState d → Answer → Type 0
  IsListed s a =
      (is_some (texts.get s.tables.ai_resp_list (answer_key a)) ≡ true)
      × (resp_list_tx_num (answer_key a) ≡ a.tx_num)

  insert_responses-IsListed :
      (l : List Answer) (s : AiState d) → All HasTxNum l → All (IsListed (insert_responses l s)) l
  unfolding insert_responses
  insert_responses-IsListed [] s h = tt
  insert_responses-IsListed (a ∷ l) s h = (
    (
      later_listing_stays l (after a s) (answer_key a) (listed a s),
      resp_list_tx_num-resp_list_key a.resp.request_hash a.tx_num h.0,
    ),
    insert_responses-IsListed l (after a s) h.1,
  )

  -- After any run of responses with 64-bit transaction numbers, to whatever requests, each is
  -- listed under a key that gives its transaction number back, and if the first of the run answers
  -- a request that had no response, it is the one that is shown as the request's response.
  pub insert_response_first :
      (a : Answer) (l : List Answer) (s : AiState d)
      → All HasTxNum (a ∷ l)
      → texts.get s.tables.ai_resp a.resp.request_hash ≡ none
      → (let s' = insert_responses (a ∷ l) s in
          (texts.get s'.tables.ai_resp a.resp.request_hash
            ≡ some (current (response_rec a.raw a.group a.resp)))
          × All (IsListed s') (a ∷ l))
  unfolding insert_responses insert_response
  insert_response_first a l s small h = (
    later_summary_stays l (after a s) a.resp.request_hash
        (current (response_rec a.raw a.group a.resp))
        (rw (h, insert_response)
          (Laws.get-insert_self texts s.tables.ai_resp a.resp.request_hash
            (current (response_rec a.raw a.group a.resp)))),
    insert_responses-IsListed (a ∷ l) s small,
  )

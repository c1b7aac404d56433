-- ===== src/Tests/Rows.antt =====
-- Runs of the reads, the sweep and the joins on concrete rows.
use keryx_api_shim.Base.{
  ◌∷◌, All, ℕ, ◌≡◌, refl, true, false, [], none, some, Bytes, ascii, arith, take, drop, reverse,
  bytes_eq, is_some,
}
use keryx_api_shim.Inference.Request.{AiRequest}
use keryx_api_shim.Inference.Response.{AiResponse}
use keryx_api_shim.Redb.Defs.{lookup}
use keryx_api_shim.Redb.Sorted.{sorted_engine, sorted_redb}
use keryx_api_shim.Store.Types.{IndexedTx, HistRow, AiRequestRec, AiChallengeRec, current}
use keryx_api_shim.Store.Keys.{hist_key, hist_bounds, resp_list_tx_num}
use keryx_api_shim.Store.Keys.Bounds.{in_bounds, in_bounds-hist_key}
use keryx_api_shim.Store.Tables.{Tables, no_tables}
use keryx_api_shim.Store.Ledger.{build_indexed}
use keryx_api_shim.Store.Ai.{AiState, response_rec, insert_request}
use keryx_api_shim.Store.Ai.Joins.{Answer, insert_responses, IsListed, insert_response_first}
use keryx_api_shim.Store.Expire.{expire_below}
use keryx_api_shim.Store.Expire.Window.{kept, expire_below_no_dangling}
use keryx_api_shim.Store.Reads.{inference_feed}
use keryx_api_shim.Store.Reads.Pages.{public_rows, inference_feed_page}
use keryx_api_shim.Tests.Data.{deps, coinbase, spend, block, next_block, empty}

abbrev old_row : IndexedTx
unfolding build_indexed
old_row = build_indexed coinbase 0 block []

abbrev new_row : IndexedTx
unfolding build_indexed
new_row = build_indexed spend 1 next_block []

abbrev shown : HistRow
shown = record {
  tx_id = ascii "aa";
  amount_sompi = 5;
  is_spend = false;
  daa_score = 10;
  block_hash = ascii "b1";
}

abbrev challenge : AiChallengeRec
challenge = record { tx_id = ascii "cc"; request_hash = ascii "r"; daa_score = 10 }

abbrev asked : AiRequestRec
asked = record {
  tx_id = ascii "aa";
  model_id = ascii "m";
  max_tokens = 16;
  inference_reward = 1;
  priority_fee = 0;
  prompt = ascii "hi";
  daa_score = 10;
  block_hash = ascii "b1";
  request_hash = ascii "r";
  miner_pubkey = none;
  private = false;
  recipient_count = none;
}

-- A transaction below the cutoff 15 and one above it, and rows of the other tables.
abbrev two_rows : Tables deps
two_rows = record empty {
  ledger = record (empty.ledger) {
    tx = deps.db.nums.insert (deps.db.nums.insert empty.ledger.tx 0 old_row) 1 new_row;
    addr_history =
        deps.db.texts.insert
          (deps.db.texts.insert empty.ledger.addr_history (hist_key (ascii "x") 0) shown)
          (hist_key (ascii "x") 1) shown;
  };
  ai = record (empty.ai) {
    ai_req =
        deps.db.nums.insert (deps.db.nums.insert empty.ai.ai_req 0 (current asked)) 1
          (current asked);
    ai_chal = deps.db.nums.insert empty.ai.ai_chal 0 challenge;
  };
}

kept_rows :
    (kept 15 (deps.db.nums.get two_rows.ledger.tx 0) ≡ none)
    × (kept 15 (deps.db.nums.get two_rows.ledger.tx 1) ≡ some new_row)
unfolding kept sorted_redb sorted_engine no_tables build_indexed lookup
kept_rows = (refl, refl)

abbrev swept : Tables deps
swept = (expire_below deps 15 two_rows).0

expire_below_no_dangling_example :
    ((k : Bytes)
      → is_some (deps.db.texts.get swept.ai.ai_resp_list k) ≡ true
      → is_some (deps.db.nums.get swept.ledger.tx (resp_list_tx_num k)) ≡ true)
    × ((k v : Bytes)
        → deps.db.texts.get swept.ai.ai_resp_hash k ≡ some v
        → is_some (deps.db.texts.get swept.ai.ai_req_by_hash v) ≡ true)
expire_below_no_dangling_example = expire_below_no_dangling deps 15 two_rows

inference_feed_page_example :
    inference_feed deps two_rows 2 1
    ≡ take 2 (
        drop 1
          (public_rows deps two_rows.ai.ai_resp (reverse (deps.db.nums.iter two_rows.ai.ai_req))))
inference_feed_page_example = inference_feed_page deps two_rows 2 1

in_bounds-hist_key_example :
    in_bounds (hist_bounds (ascii "x")) (hist_key (ascii "xy") 3)
    ≡ bytes_eq (ascii "xy") (ascii "x")
in_bounds-hist_key_example =
    in_bounds-hist_key (ascii "x") (ascii "xy") 3 (omega arith, tt) (omega arith, (omega arith, tt))

abbrev one : ℕ
one = 1

abbrev request : AiRequest
request = record {
  model_id = ascii "m";
  max_tokens = 16;
  inference_reward = 1;
  priority_fee = 0;
  prompt = ascii "hi";
  private = false;
  recipient_count = none;
}

abbrev response : AiResponse
response = record {
  request_hash = ascii "r";
  challenge_window_end = 0;
  cid = ascii "c";
  response_length = 2;
  responder_pubkey = none;
  private_body = none;
}

abbrev no_ai : AiState deps
no_ai = record { tables = empty.ai; ai_req_seq = 0; ai_chal_seq = 0 }

no_request : deps.db.texts.get no_ai.tables.ai_req_by_hash (ascii "r") ≡ none
unfolding sorted_redb sorted_engine no_tables lookup
no_request = refl

no_response : deps.db.texts.get no_ai.tables.ai_resp (ascii "r") ≡ none
unfolding sorted_redb sorted_engine no_tables lookup
no_response = refl

abbrev filed : AiState deps
filed = insert_request deps coinbase block request (ascii "r") none no_ai

abbrev first_answer : Answer
first_answer = record {
  raw = coinbase;
  group = block;
  tx_num = 1;
  identity = ascii "h1";
  resp = response;
}

abbrev second_answer : Answer
second_answer = record {
  raw = spend;
  group = next_block;
  tx_num = 2;
  identity = ascii "h2";
  resp = response;
}

abbrev answered : AiState deps
answered = insert_responses deps (first_answer ∷ second_answer ∷ []) no_ai

insert_response_first_example :
    (deps.db.texts.get answered.tables.ai_resp (ascii "r")
      ≡ some (current (response_rec coinbase block response)))
    × All (IsListed deps answered) (first_answer ∷ second_answer ∷ [])
insert_response_first_example =
    insert_response_first deps first_answer (second_answer ∷ []) no_ai
      (omega arith, (omega arith, tt)) no_response

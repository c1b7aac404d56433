-- ===== src/Inference/Request/Layout.antt =====
-- The wire layout of an AiRequest, as the node writes it, and its decoding.
use keryx_api_shim.Base.{
  ℕ, ◌+◌, ◌-◌, ◌^◌, ◌<◌, ◌≡◌, ap, ◌∙◌, false, none, some, [], ◌++◌, Bytes, ltb, if◌then◌else◌,
  length, length-append, drop, arith,
}
use keryx_api_shim.Base.Ascii.{slice}
use keryx_api_shim.Base.Slices.{slice_skip, slice_first, drop_skip, drop_part}
use keryx_api_shim.Base.Words.{
  to_le_bytes, from_le_bytes, length-to_le_bytes, from_le_bytes-to_le_bytes,
}
use keryx_api_shim.Hex.{to_hex}
use keryx_api_shim.Utf8.{from_utf8_lossy}
use keryx_api_shim.Inference.Private.{is_private, private_recipient_count}
use keryx_api_shim.Inference.Request.{decode_request}

-- `[model_id: 32] [max_tokens: 4 LE] [reward: 8 LE] [fee: 8 LE] [prompt]`
abbrev pub encode_request : Bytes → ℕ → ℕ → ℕ → Bytes → Bytes
encode_request model max_tokens reward fee prompt =
    model ++ (to_le_bytes 4 max_tokens ++ (to_le_bytes 8 reward ++ (to_le_bytes 8 fee ++ prompt)))

module _ (model : Bytes) (max_tokens reward fee : ℕ) (prompt : Bytes)
    (model_len : length model ≡ 32) (max_tokens_fits : max_tokens < 2 ^ 32)
    (reward_fits : reward < 2 ^ 64) (fee_fits : fee < 2 ^ 64) where
  abbrev payload : Bytes
  payload = encode_request model max_tokens reward fee prompt

  abbrev after_model : Bytes
  after_model = to_le_bytes 4 max_tokens ++ (to_le_bytes 8 reward ++ (to_le_bytes 8 fee ++ prompt))

  abbrev after_tokens : Bytes
  after_tokens = to_le_bytes 8 reward ++ (to_le_bytes 8 fee ++ prompt)

  abbrev after_reward : Bytes
  after_reward = to_le_bytes 8 fee ++ prompt

  tokens_part : from_le_bytes (slice 32 36 payload) ≡ max_tokens
  tokens_part =
      ap from_le_bytes (
        slice_skip 32 model after_model 32 36 model_len (omega arith) (omega arith)
        ∙ slice_first 4 (to_le_bytes 4 max_tokens) after_tokens (length-to_le_bytes 4 max_tokens))
      ∙ from_le_bytes-to_le_bytes 4 max_tokens max_tokens_fits

  reward_part : from_le_bytes (slice 36 44 payload) ≡ reward
  reward_part =
      ap from_le_bytes (
        slice_skip 32 model after_model 36 44 model_len (omega arith) (omega arith)
        ∙ slice_skip 4 (to_le_bytes 4 max_tokens) after_tokens 4 12
            (length-to_le_bytes 4 max_tokens) (omega arith) (omega arith)
        ∙ slice_first 8 (to_le_bytes 8 reward) after_reward (length-to_le_bytes 8 reward))
      ∙ from_le_bytes-to_le_bytes 8 reward reward_fits

  fee_part : from_le_bytes (slice 44 52 payload) ≡ fee
  fee_part =
      ap from_le_bytes (
        slice_skip 32 model after_model 44 52 model_len (omega arith) (omega arith)
        ∙ slice_skip 4 (to_le_bytes 4 max_tokens) after_tokens 12 20
            (length-to_le_bytes 4 max_tokens) (omega arith) (omega arith)
        ∙ slice_skip 8 (to_le_bytes 8 reward) after_reward 8 16 (length-to_le_bytes 8 reward)
            (omega arith) (omega arith)
        ∙ slice_first 8 (to_le_bytes 8 fee) prompt (length-to_le_bytes 8 fee))
      ∙ from_le_bytes-to_le_bytes 8 fee fee_fits

  length_payload : length payload ≡ 52 + length prompt
  length_payload = omega (
    arith,
    length-append {0} model after_model,
    length-append {0} (to_le_bytes 4 max_tokens) after_tokens,
    length-append {0} (to_le_bytes 8 reward) after_reward,
    length-append {0} (to_le_bytes 8 fee) prompt,
    length-to_le_bytes 4 max_tokens,
    length-to_le_bytes 8 reward,
    length-to_le_bytes 8 fee,
    model_len,
  )

  prompt_part : drop 52 payload ≡ prompt
  prompt_part =
      drop_skip model after_model 52 (omega arith)
      ∙ ap (λ n. drop (52 - n) after_model) model_len
      ∙ drop_skip (to_le_bytes 4 max_tokens) after_tokens 20
          (omega (arith, length-to_le_bytes 4 max_tokens))
      ∙ ap (λ n. drop (20 - n) after_tokens) (length-to_le_bytes 4 max_tokens)
      ∙ drop_skip (to_le_bytes 8 reward) after_reward 16
          (omega (arith, length-to_le_bytes 8 reward))
      ∙ ap (λ n. drop (16 - n) after_reward) (length-to_le_bytes 8 reward)
      ∙ drop_part (to_le_bytes 8 fee) prompt 8 (length-to_le_bytes 8 fee)

  -- A request with a model id of 32 bytes and numbers that fit their fields, once encoded, decodes
  -- to its fields; a sealed prompt is not rendered and its recipients are counted, any other
  -- prompt is rendered as text.
  pub decode_request-encode_request :
      decode_request payload
      ≡ some (record {
        model_id = to_hex model;
        max_tokens = max_tokens;
        inference_reward = reward;
        priority_fee = fee;
        prompt = if is_private prompt then [] else from_utf8_lossy prompt;
        private = is_private prompt;
        recipient_count = if is_private prompt then private_recipient_count prompt else none;
      })
  unfolding decode_request
  decode_request-encode_request =
      let long : ltb (length payload) 52 ≡ false = ground (arith, length_payload) in
      rw (
        long,
        tokens_part,
        reward_part,
        fee_part,
        prompt_part,
        slice_first 32 model after_model model_len,
      )

-- ===== src/Startup/Routes.antt =====
-- `router` of `src/api/mod.rs`: the table of the routes.
use keryx_api_shim.Base.{List, [], ◌∷◌, Bytes, ascii}

-- `get` and `post`
pub data Verb : Type 0 where
  get post : Verb

-- The handlers of `handlers.rs`.
pub data Handler : Type 0 where
  info address_history balance utxos utxo_count broadcast : Handler
  transaction outpoint_spend market capabilities infer inference : Handler
  ai_providers challenges ipfs health : Handler

pub record Route : Type 0 where
  pub pattern : Bytes
  pub verb : Verb
  pub handler : Handler

unfoldable pub routes : List Route
routes =
    record { pattern = ascii "/api/v1/info"; verb = get; handler = info }
    ∷ record {
      pattern = ascii "/api/v1/addresses/{address}";
      verb = get;
      handler = address_history;
    }
    ∷ record {
      pattern = ascii "/api/v1/addresses/{address}/balance";
      verb = get;
      handler = balance;
    }
    ∷ record { pattern = ascii "/api/v1/addresses/{address}/utxos"; verb = get; handler = utxos }
    ∷ record {
      pattern = ascii "/api/v1/addresses/{address}/utxos/count";
      verb = get;
      handler = utxo_count;
    }
    ∷ record { pattern = ascii "/api/v1/broadcast"; verb = post; handler = broadcast }
    ∷ record { pattern = ascii "/api/v1/transactions/{id}"; verb = get; handler = transaction }
    ∷ record {
      pattern = ascii "/api/v1/outpoints/{txid}/{index}/spend";
      verb = get;
      handler = outpoint_spend;
    }
    ∷ record { pattern = ascii "/api/v1/market"; verb = get; handler = market }
    ∷ record { pattern = ascii "/api/v1/capabilities"; verb = get; handler = capabilities }
    ∷ record { pattern = ascii "/api/v1/infer"; verb = get; handler = infer }
    ∷ record { pattern = ascii "/api/v1/inference/{tx_id}"; verb = get; handler = inference }
    ∷ record { pattern = ascii "/api/v1/ai/providers"; verb = get; handler = ai_providers }
    ∷ record { pattern = ascii "/api/v1/challenges"; verb = get; handler = challenges }
    ∷ record { pattern = ascii "/ipfs/{cid}"; verb = get; handler = ipfs }
    ∷ record { pattern = ascii "/health"; verb = get; handler = health }
    ∷ []

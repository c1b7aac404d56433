-- ===== src/Api.antt =====
-- `src/error.rs`: the errors of the HTTP API, what becomes one by `?`, and the response that each
-- becomes.
pub mod Transactions
pub mod Addresses
pub mod Utxos
pub mod Chain
pub mod Inference
pub mod Providers
pub mod Proxies
pub mod Info
pub mod Health
pub mod Refused
use keryx_api_shim.Base.{ℕ, Option, Bytes, ascii}
use keryx_api_shim.Base.Results.{Result, map_err}
use keryx_api_shim.Store.Faults.{StoreError, store_error_text, attempt}
use keryx_api_shim.Node.{NodeError, unreachable, timeout, rpc, protocol}

pub data ApiError : Type 0 where
  bad_request : Bytes → ApiError
  not_found : Bytes → ApiError
  unavailable : Bytes → ApiError
  upstream : Bytes → ApiError
  internal : Bytes → ApiError
  node : NodeError → ApiError

-- `From<NodeError>`
unfoldable pub from_node_error : NodeError → ApiError
from_node_error e = node e

-- `From<StoreError>`
unfoldable pub from_store_error : StoreError → ApiError
from_store_error e = internal (store_error_text e)

-- `store.read()?` for a read that gives `a`
unfoldable pub query {ℓ} : {A : Type ℓ} → Option StoreError → A → Result ApiError A
query fault a = map_err from_store_error (attempt fault a)

-- `into_response`: the HTTP status and the `error` of the JSON body.
unfoldable pub into_response : ApiError → ℕ × Bytes
into_response (bad_request m) = (400, m)
into_response (not_found m) = (404, m)
into_response (unavailable m) = (503, m)
into_response (upstream m) = (502, m)
into_response (internal m) = (500, m)
into_response (node (rpc m)) = (400, m)
into_response (node timeout) = (504, ascii "keryx node request timed out")
into_response (node (unreachable m)) = (503, m)
into_response (node (protocol m)) = (502, m)

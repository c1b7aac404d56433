-- ===== src/Node/Client.antt =====
-- `NodeClient` of `src/node.rs`: how a client is spawned, and the methods that `rpc_method!` makes.
-- `P` is the body of a message, which the generated code reads.
pub mod Variants
use keryx_api_shim.Base.{
  ℕ, Bool, true, false, Option, none, some, List, [], ◌∷◌, ◌++◌, Bytes, ascii, if◌then◌else◌,
  bytes_eq,
}
use keryx_api_shim.Base.Results.{Result, ok, err}
use keryx_api_shim.Node.{NodeError, Wait, rpc_method}
use keryx_api_shim.Node.Serve.{notif_queue}

-- A client, with the capacity of the actor's queue of notifications, if it has one.
pub record NodeClient : Type 0 where
  pub timeout : ℕ
  pub notif_capacity : Option ℕ

unfoldable pub spawn_inner : ℕ → Option ℕ → NodeClient
spawn_inner timeout notif_capacity = record { timeout = timeout; notif_capacity = notif_capacity }

unfoldable pub spawn_client : ℕ → NodeClient
spawn_client timeout = spawn_inner timeout none

unfoldable pub spawn_indexed : ℕ → NodeClient
spawn_indexed timeout = spawn_inner timeout (some notif_queue)

pub data Method : Type 0 where
  get_balance_by_address get_utxos_by_addresses submit_transaction : Method
  get_block_dag_info get_coin_supply get_server_info : Method
  estimate_network_hashes_per_second get_block get_virtual_chain_from_block : Method
  get_blocks get_mempool_entries get_service_providers : Method
  notify_block_added notify_virtual_chain_changed : Method

-- `stringify!($name)`
unfoldable pub method_name : Method → Bytes
method_name get_balance_by_address = ascii "get_balance_by_address"
method_name get_utxos_by_addresses = ascii "get_utxos_by_addresses"
method_name submit_transaction = ascii "submit_transaction"
method_name get_block_dag_info = ascii "get_block_dag_info"
method_name get_coin_supply = ascii "get_coin_supply"
method_name get_server_info = ascii "get_server_info"
method_name estimate_network_hashes_per_second = ascii "estimate_network_hashes_per_second"
method_name get_block = ascii "get_block"
method_name get_virtual_chain_from_block = ascii "get_virtual_chain_from_block"
method_name get_blocks = ascii "get_blocks"
method_name get_mempool_entries = ascii "get_mempool_entries"
method_name get_service_providers = ascii "get_service_providers"
method_name notify_block_added = ascii "notify_block_added"
method_name notify_virtual_chain_changed = ascii "notify_virtual_chain_changed"

unfoldable pub request_variant : Method → Bytes
request_variant get_balance_by_address = ascii "GetBalanceByAddressRequest"
request_variant get_utxos_by_addresses = ascii "GetUtxosByAddressesRequest"
request_variant submit_transaction = ascii "SubmitTransactionRequest"
request_variant get_block_dag_info = ascii "GetBlockDagInfoRequest"
request_variant get_coin_supply = ascii "GetCoinSupplyRequest"
request_variant get_server_info = ascii "GetServerInfoRequest"
request_variant estimate_network_hashes_per_second = ascii "EstimateNetworkHashesPerSecondRequest"
request_variant get_block = ascii "GetBlockRequest"
request_variant get_virtual_chain_from_block = ascii "GetVirtualChainFromBlockRequest"
request_variant get_blocks = ascii "GetBlocksRequest"
request_variant get_mempool_entries = ascii "GetMempoolEntriesRequest"
request_variant get_service_providers = ascii "GetServiceProvidersRequest"
request_variant notify_block_added = ascii "NotifyBlockAddedRequest"
request_variant notify_virtual_chain_changed = ascii "NotifyVirtualChainChangedRequest"

unfoldable pub response_variant : Method → Bytes
response_variant get_balance_by_address = ascii "GetBalanceByAddressResponse"
response_variant get_utxos_by_addresses = ascii "GetUtxosByAddressesResponse"
response_variant submit_transaction = ascii "SubmitTransactionResponse"
response_variant get_block_dag_info = ascii "GetBlockDagInfoResponse"
response_variant get_coin_supply = ascii "GetCoinSupplyResponse"
response_variant get_server_info = ascii "GetServerInfoResponse"
response_variant estimate_network_hashes_per_second = ascii "EstimateNetworkHashesPerSecondResponse"
response_variant get_block = ascii "GetBlockResponse"
response_variant get_virtual_chain_from_block = ascii "GetVirtualChainFromBlockResponse"
response_variant get_blocks = ascii "GetBlocksResponse"
response_variant get_mempool_entries = ascii "GetMempoolEntriesResponse"
response_variant get_service_providers = ascii "GetServiceProvidersResponse"
response_variant notify_block_added = ascii "NotifyBlockAddedResponse"
response_variant notify_virtual_chain_changed = ascii "NotifyVirtualChainChangedResponse"

-- A payload: the name of its variant, and its body.
abbrev pub Tagged : Type 0 → Type 0
Tagged P = Bytes × P

-- The match on the method's own variant of the response.
unfoldable pub own_response : {P : Type 0} → Method → Tagged P → Option P
own_response m payload = if bytes_eq payload.0 (response_variant m) then some payload.1 else none

-- What a method sends, and what it makes of the end of its call. `error_of` reads the message of
-- the body's `error`.
unfoldable pub request_of : {P : Type 0} → Method → P → Tagged P
request_of m body = (request_variant m, body)

unfoldable pub invoke :
    {P : Type 0} → (P → Option Bytes) → Method → Option (Wait (Tagged P)) → Result NodeError P
invoke error_of m wait = rpc_method (method_name m) (own_response m) error_of wait

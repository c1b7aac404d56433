-- ===== src/Node/Client/Variants.antt =====
-- The variants of the methods, and the reply that a method takes for its own.
use keryx_api_shim.Base.{
  some_inj, ◌≡◌, ◌≢◌, ◌⊎◌, refl, ap, sym, ◌∙◌, Option, none, some, List, [], ◌∷◌, Bytes, ascii,
  bytes_eq, bytes_eq_iff, arith, Bool-cases, inl, inr, if◌then◌else◌, ◌++◌, ◌-◌, ◌==◌, Bool, true,
}
use keryx_api_shim.Base.Results.{ok, err}
use keryx_api_shim.Node.{protocol, replied, call, rpc_method}
use keryx_api_shim.Node.Client.{
  Tagged, Method, get_balance_by_address, get_utxos_by_addresses, submit_transaction,
  get_block_dag_info, get_coin_supply, get_server_info, estimate_network_hashes_per_second,
  get_block, get_virtual_chain_from_block, get_blocks, get_mempool_entries, get_service_providers,
  notify_block_added, notify_virtual_chain_changed, request_variant, response_variant, method_name,
  request_of, own_response, invoke,
}

abbrev methods : List Method
methods =
    get_balance_by_address ∷ get_utxos_by_addresses ∷ submit_transaction ∷ get_block_dag_info
    ∷ get_coin_supply ∷ get_server_info ∷ estimate_network_hashes_per_second ∷ get_block
    ∷ get_virtual_chain_from_block ∷ get_blocks ∷ get_mempool_entries ∷ get_service_providers
    ∷ notify_block_added ∷ notify_virtual_chain_changed ∷ []

-- The first method with the variant.
unfoldable find_variant : (Method → Bytes) → Bytes → List Method → Option Method
find_variant name v [] = none
find_variant name v (m ∷ l) =
    let rest = find_variant name v l in if bytes_eq v (name m) then some m else rest

response_found : (m : Method) → find_variant response_variant (response_variant m) methods ≡ some m
unfolding find_variant response_variant bytes_eq
response_found get_balance_by_address = refl
response_found get_utxos_by_addresses = refl
response_found submit_transaction = refl
response_found get_block_dag_info = refl
response_found get_coin_supply = refl
response_found get_server_info = refl
response_found estimate_network_hashes_per_second = refl
response_found get_block = refl
response_found get_virtual_chain_from_block = refl
response_found get_blocks = refl
response_found get_mempool_entries = refl
response_found get_service_providers = refl
response_found notify_block_added = refl
response_found notify_virtual_chain_changed = refl

pub response_variant_inj : (m n : Method) → response_variant m ≡ response_variant n → m ≡ n
response_variant_inj m n e = some_inj (
    sym (response_found m) ∙ ap (λ v. find_variant response_variant v methods) e ∙ response_found n)

-- The words of a name joined, each with a capital.
unfoldable camel_from : Bool → Bytes → Bytes
camel_from start [] = []
camel_from start (c ∷ s) =
    let rest = camel_from (c == b'_') s in
    if c == b'_' then rest else (if start then c - 32 else c) ∷ rest

unfoldable pub upper_camel : Bytes → Bytes
unfolding camel_from
upper_camel s = camel_from true s

request_named : (m : Method) → request_variant m ≡ upper_camel (method_name m) ++ ascii "Request"
unfolding request_variant upper_camel method_name
request_named get_balance_by_address = refl
request_named get_utxos_by_addresses = refl
request_named submit_transaction = refl
request_named get_block_dag_info = refl
request_named get_coin_supply = refl
request_named get_server_info = refl
request_named estimate_network_hashes_per_second = refl
request_named get_block = refl
request_named get_virtual_chain_from_block = refl
request_named get_blocks = refl
request_named get_mempool_entries = refl
request_named get_service_providers = refl
request_named notify_block_added = refl
request_named notify_virtual_chain_changed = refl

response_named : (m : Method) → response_variant m ≡ upper_camel (method_name m) ++ ascii "Response"
unfolding response_variant upper_camel method_name
response_named get_balance_by_address = refl
response_named get_utxos_by_addresses = refl
response_named submit_transaction = refl
response_named get_block_dag_info = refl
response_named get_coin_supply = refl
response_named get_server_info = refl
response_named estimate_network_hashes_per_second = refl
response_named get_block = refl
response_named get_virtual_chain_from_block = refl
response_named get_blocks = refl
response_named get_mempool_entries = refl
response_named get_service_providers = refl
response_named notify_block_added = refl
response_named notify_virtual_chain_changed = refl

module _ {P : Type 0} (error_of : P → Option Bytes) where
  invoke_variant :
      (m n : Method) (body : P)
      → error_of body ≡ none
      → (let answer = invoke error_of m (some (replied (ok (response_variant n, body)))) in
          ((m ≡ n) × (answer ≡ ok body))
          ⊎ ((m ≢ n)
              × (answer ≡ err (protocol (ascii "unexpected node response for " ++ method_name m)))))
  unfolding invoke rpc_method call own_response
  invoke_variant m n body clean =
      let v = response_variant n in
      elim (Bool-cases (bytes_eq v (response_variant m))) [
        | inl b ↦ inl (
          sym (response_variant_inj n m ((bytes_eq_iff v (response_variant m)).0 b)),
          rw (b, invoke, rpc_method, own_response) (rw (clean, rpc_method) refl),
        )
        | inr b ↦ inr (
          λ e. ground (arith, ap response_variant e, bytes_eq_iff v (response_variant m)),
          rw (b, invoke, rpc_method, own_response) refl,
        )
      ]

  -- Every method sends its body under the name of the method in camel case followed by "Request".
  -- A reply with a body without an error, under such a name of some method followed by "Response",
  -- is the value of a call of that method, and for a call of any other method it is a protocol
  -- error that names the method called.
  pub invoke_own :
      (m n : Method) (body : P)
      → error_of body ≡ none
      → (let reply : Tagged P = (upper_camel (method_name n) ++ ascii "Response", body) in
          let answer = invoke error_of m (some (replied (ok reply))) in
          (request_of m body ≡ (upper_camel (method_name m) ++ ascii "Request", body))
          × (((m ≡ n) × (answer ≡ ok body))
              ⊎ ((m ≢ n)
                  × (answer
                      ≡ err (protocol (ascii "unexpected node response for " ++ method_name m))))))
  unfolding request_of
  invoke_own m n body clean =
      rw (sym (response_named n), sym (request_named m)) (refl, invoke_variant m n body clean)

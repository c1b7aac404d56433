-- ===== src/Tests/Starting.antt =====
-- Runs of the start-up, the router and the client's methods.
use keryx_api_shim.Base.{
  Bool, ℕ, ◌≡◌, ◌≢◌, ◌⊎◌, refl, true, false, Option, none, some, ◌++◌, Bytes, ascii, leb, get_elem?,
  if◌then◌else◌, bytes_eq,
}
use keryx_api_shim.Base.Ascii.{split}
use keryx_api_shim.Base.Results.{Result, ok, err}
use keryx_api_shim.Node.{NodeError, timeout, protocol, replied}
use keryx_api_shim.Node.Client.{
  request_of, Tagged, spawn_client, spawn_inner, get_block, get_blocks, method_name, invoke,
}
use keryx_api_shim.Node.Client.Variants.{upper_camel, invoke_own}
use keryx_api_shim.Api.Health.{ServerInfo}
use keryx_api_shim.Tests.Data.{deps}
use keryx_api_shim.Startup.{default_config, start_node}
use keryx_api_shim.Startup.Routes.{Route, get, transaction, routes}
use keryx_api_shim.Startup.Unambiguous.{is_capture, segments_agree, routes_unambiguous}
use keryx_api_shim.Startup.Probe.{Ends, startup_probe, startup_probe-Ends}

abbrev server : ServerInfo
server = record {
  server_version = ascii "1.6.4";
  network_id = ascii "mainnet";
  is_synced = false;
  has_utxo_index = true;
  virtual_daa_score = 7;
}

-- The node is up from the third call on.
abbrev ask : ℕ → Result NodeError ServerInfo
ask n = if leb n 1 then err timeout else ok server

startup_probe-Ends_example : Ends ask 0 12 0 (startup_probe ask)
startup_probe-Ends_example = startup_probe-Ends ask

abbrev tx_route : Route
tx_route = record { pattern = ascii "/api/v1/transactions/{id}"; verb = get; handler = transaction }

abbrev tx_path : Bytes
tx_path = ascii "/api/v1/transactions/ab12"

tx_listed : get_elem? routes 6 ≡ some tx_route
unfolding routes
tx_listed = refl

-- A matcher that is exactly as documented.
abbrev matcher : Bytes → Bytes → Bool
matcher pattern path = segments_agree (split b'/' pattern) (split b'/' path)

tx_fits : matcher tx_route.pattern tx_path ≡ true
unfolding segments_agree is_capture split bytes_eq
tx_fits = refl

routes_unambiguous_example : ◌≡◌ {A = ℕ} 6 6
routes_unambiguous_example =
    routes_unambiguous matcher (λ pattern path h. h) tx_path 6 6 tx_route tx_route tx_listed
      tx_listed tx_fits tx_fits

starts_plain :
    start_node deps Bytes Bytes (λ url. ok tt) default_config
    ≡ (record { timeout = 10; notif_capacity = none }, none)
unfolding start_node default_config spawn_client spawn_inner
starts_plain = refl

abbrev no_error : Bytes → Option Bytes
no_error body = none

invoke_own_example :
    (let reply : Tagged Bytes =
        (upper_camel (method_name get_blocks) ++ ascii "Response", ascii "x") in
      let answer = invoke no_error get_block (some (replied (ok reply))) in
      (request_of get_block (ascii "x")
        ≡ (upper_camel (method_name get_block) ++ ascii "Request", ascii "x"))
      × (((get_block ≡ get_blocks) × (answer ≡ ok (ascii "x")))
          ⊎ ((get_block ≢ get_blocks)
              × (answer
                  ≡ err (
                      protocol (ascii "unexpected node response for " ++ method_name get_block))))))
invoke_own_example = invoke_own no_error get_block get_blocks (ascii "x") refl

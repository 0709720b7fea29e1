-- ===== src/Startup/Served.antt =====
-- src/main.rs and src/lib.rs: the state and the server that a configuration gives.
use hhm_api_server_rs.Common.{◌≡◌, refl, true, not, some, Text, arith, Option-Eq, Text-Eq}
use hhm_api_server_rs.Common.Result.{
  ok, and_then-eq-ok, map_err, map_err-eq-ok, ok_or, ok_or-eq-ok, else-eq-ok,
}
use hhm_api_server_rs.Settings.{Lookup}
use hhm_api_server_rs.Policy.{production}
use hhm_api_server_rs.Policy.Stack.{stack_from_policy}
use hhm_api_server_rs.Policy.Stack.Hardened.{IsHardened, stack_from_policy-IsHardened}
use hhm_api_server_rs.Config.{Config, config_from_lookup}
use hhm_api_server_rs.Config.Laws.{config_from_lookup-IsUsable, not-false}
use hhm_api_server_rs.Auth.Build.{Authenticator, authenticator_from_config}
use hhm_api_server_rs.Auth.Build.Laws.{
  KeepsOrigin, IsSendable, authenticator_from_config-IsSendable,
}
use hhm_api_server_rs.Api.Cors.{cors_origins}
use hhm_api_server_rs.Api.Cors.Exact.{AreOrigins}
use hhm_api_server_rs.Api.Cors.Laws.{cors_origins-AreOrigins}
use hhm_api_server_rs.Api.Routes.{Router, api_routes, cors_layer, router}
use hhm_api_server_rs.Api.State.{AppState}
use hhm_api_server_rs.Startup.{
  turnstile_from_config, storage_from_config, Platform, transport, connection, bind, auth,
  lifecycle, cors, Server, app_state_from_config, serve,
}

module _ {S : Type 0} (platform : Platform S) where
  -- The state of the router for a configuration: each database by its own URL, and the services
  -- through clients that hold the configuration's secrets, an adapter that may send its among them.
  pub record IsConnected (loaded : Config) (state : AppState) : Type 0 where
    pub primary : platform.connect loaded.primary_database_url ≡ some state.primary
    pub supabase : platform.connect loaded.supabase_database_url ≡ some state.supabase
    pub authenticator : Authenticator
    pub sendable : IsSendable loaded authenticator
    pub outside :
        state.outside
        ≡ platform.outside authenticator (turnstile_from_config loaded) (storage_from_config loaded)
    pub audience : state.audience ≡ loaded.shared_auth_audience
    pub action : state.expected_action ≡ loaded.turnstile_action
    pub project : state.project_url ≡ loaded.supabase_url

  module _ (keeps : KeepsOrigin platform.parsers) where
    app_state_from_config-IsConnected :
        (lookup : Lookup) {loaded : Config} {state : AppState}
        → config_from_lookup platform.parsers lookup ≡ ok loaded
        → app_state_from_config platform loaded ≡ ok state
        → IsConnected loaded state
    unfolding app_state_from_config
    app_state_from_config-IsConnected lookup {loaded} {state} read h =
        let (_, h1) = else-eq-ok (not platform.builds_client) transport _ h in
        let (primary, first, h2) =
          and_then-eq-ok (ok_or connection (platform.connect loaded.primary_database_url)) _ h1 in
        let (supabase, second, h3) =
          and_then-eq-ok (ok_or connection (platform.connect loaded.supabase_database_url)) _ h2 in
        let building =
          authenticator_from_config platform.parsers platform.builds_auth_client loaded in
        let (authenticator, built, h4) = and_then-eq-ok (map_err auth building) _ h3 in
        let same : state ≡ record {
          primary = primary;
          supabase = supabase;
          audience = authenticator.audience;
          expected_action = loaded.turnstile_action;
          project_url = loaded.supabase_url;
          contract = platform.contract;
          outside =
              platform.outside authenticator (turnstile_from_config loaded)
                (storage_from_config loaded);
        } =
          ground (arith, h4) in
        let sendable =
          authenticator_from_config-IsSendable platform.parsers keeps lookup
            platform.builds_auth_client read (map_err-eq-ok auth building built) in
        rw same (record {
          primary = ok_or-eq-ok connection (platform.connect loaded.primary_database_url) first;
          supabase = ok_or-eq-ok connection (platform.connect loaded.supabase_database_url) second;
          authenticator = authenticator;
          sendable = sendable;
          outside = refl;
          audience = sendable.held.1;
          action = refl;
          project = refl;
        })

    -- A server for a configuration: its state, its lifecycle, which is hardened in production, its
    -- origins and its address come from there.
    pub record IsServed (loaded : Config) (server : Server S) : Type 0 where
      pub connected : IsConnected loaded server.router.state
      pub stacked : stack_from_policy platform.middleware loaded.request_policy ≡ ok server.stack
      pub hardened :
          loaded.request_policy.environment ≡ production
          → IsHardened platform.middleware loaded.request_policy server.stack
      pub origins :
          AreOrigins platform.parse_uri platform.parse_header loaded.cors_origins
            server.router.layer.allow_origin
      pub bound :
          (server.address ≡ loaded.bind_address) × (platform.binds loaded.bind_address ≡ true)

    router_parts :
        (state : AppState) (raw : Text) {routed : Router}
        → router platform.parse_uri platform.parse_header state raw ≡ ok routed
        → (routed.state ≡ state)
          × AreOrigins platform.parse_uri platform.parse_header raw routed.layer.allow_origin
    unfolding router cors_layer
    router_parts state raw {routed} h =
        let listing = cors_origins platform.parse_uri platform.parse_header raw in
        let (layer, made, h1) =
          and_then-eq-ok (cors_layer platform.parse_uri platform.parse_header raw) _ h in
        let (origins, listed, h2) = and_then-eq-ok listing _ made in
        let here : routed ≡ record { routes = api_routes; layer = layer; state = state } =
          ground (arith, h1) in
        let there : layer.allow_origin ≡ origins = ground (arith, h2) in
        rw (here, there)
          (refl, cors_origins-AreOrigins platform.parse_uri platform.parse_header raw listed)

    -- What is served for a loaded configuration.
    pub serve-IsServed :
        (lookup : Lookup) {loaded : Config} {server : Server S}
        → config_from_lookup platform.parsers lookup ≡ ok loaded
        → serve platform loaded ≡ ok server
        → IsServed loaded server
    unfolding serve
    serve-IsServed lookup {loaded} {server} read h =
        let (state, connected, h1) = and_then-eq-ok (app_state_from_config platform loaded) _ h in
        let stacking = stack_from_policy platform.middleware loaded.request_policy in
        let (stack, stacked, h2) = and_then-eq-ok (map_err lifecycle stacking) _ h1 in
        let routing = router platform.parse_uri platform.parse_header state loaded.cors_origins in
        let (routed, wired, h3) = and_then-eq-ok (map_err cors routing) _ h2 in
        let (stated, exact) =
          router_parts state loaded.cors_origins (map_err-eq-ok cors routing wired) in
        let built : Server S = record {
          router = routed;
          stack = stack;
          address = loaded.bind_address;
        } in
        let (bound, h4) =
          else-eq-ok (not (platform.binds loaded.bind_address)) bind (ok built) h3 in
        let same : built ≡ server = ground (arith, h4) in
        let stacked' = map_err-eq-ok lifecycle stacking stacked in
        rw (← same) (record {
          connected = rw stated (app_state_from_config-IsConnected lookup read connected);
          stacked = stacked';
          hardened = λ live.
              stack_from_policy-IsHardened platform.middleware
                (config_from_lookup-IsUsable platform.parsers lookup read).policy live stacked';
          origins = exact;
          bound = (refl, not-false (platform.binds loaded.bind_address) bound);
        })

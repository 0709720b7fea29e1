-- ===== src/Startup/Laws.antt =====
-- src/main.rs and src/lib.rs: what holds of a process that serves.
use hhm_api_server_rs.Common.{
  ◌≡◌, ◌≢◌, refl, ap, ◌∙◌, inl, inr, false, not, Option, none, some, Text, codes, arith, option_eq,
  option_eq_iff, Option-Eq, Text-Eq, Bool-cases,
}
use hhm_api_server_rs.Common.Result.{
  Result, ok, err, panic, and_then-eq-ok, map_err, map_err-eq-ok, else-eq-ok,
}
use hhm_api_server_rs.Common.Maps.{BTreeMap, get}
use hhm_api_server_rs.Config.{Config, config_from_lookup}
use hhm_api_server_rs.Config.Laws.{IsUsable, config_from_lookup-IsUsable}
use hhm_api_server_rs.Auth.Build.Laws.{KeepsOrigin}
use hhm_api_server_rs.Flags.{FlagsError}
use hhm_api_server_rs.Flags.Process.{var, help_table, process_control}
use hhm_api_server_rs.Startup.Served.{IsServed, serve-IsServed}
use hhm_api_server_rs.Startup.{
  Platform, log_filter, flags, configuration, Server, served, to_lookup, serve, filter_or_default,
  start, after_control, main,
}

module _ {S : Type 0} (platform : Platform S) (keeps : KeepsOrigin platform.parsers) where
  -- A process that serves. No help or version was asked for; its configuration is read from the
  -- resolved values and is usable; and the server is one for that configuration.
  pub record IsStarted (resolved : Result FlagsError (BTreeMap Text)) (server : Server S)
      : Type 0 where
    pub values : BTreeMap Text
    pub known : resolved ≡ ok values
    pub no_help : get values (codes "CLI_HELP_REQUESTED") ≢ some (codes "true")
    pub no_version : get values (codes "CLI_VERSION_REQUESTED") ≢ some (codes "true")
    pub loaded : Config
    pub read : config_from_lookup platform.parsers (to_lookup (var (ok values))) ≡ ok loaded
    pub usable : IsUsable platform.parsers (to_lookup (var (ok values))) loaded
    pub serving : IsServed platform keeps loaded server

  abbrev control : Result FlagsError (BTreeMap Text) → Result FlagsError (Option Text)
  control resolved =
      process_control platform.display platform.parse_table platform.cli_flags resolved

  not_requested :
      (o : Option Text) (value : Text) → option_eq o (some value) ≡ false → o ≢ some value
  not_requested o value h = λ e. ground (arith, (option_eq_iff o (some value)).1 e, h)

  -- `process_control` has nothing to print where the values resolved, and ask for nothing.
  no_control :
      (resolved : Result FlagsError (BTreeMap Text))
      → control resolved ≡ ok none
      → (values : BTreeMap Text) × (resolved ≡ ok values)
        × (get values (codes "CLI_HELP_REQUESTED") ≢ some (codes "true"))
        × (get values (codes "CLI_VERSION_REQUESTED") ≢ some (codes "true"))
  unfolding process_control
  no_control (ok values) h =
      let help = get values (codes "CLI_HELP_REQUESTED") in
      let version = get values (codes "CLI_VERSION_REQUESTED") in
      elim (Bool-cases (option_eq help (some (codes "true")))) [
        | inl asked ↦
            let (_, _, shown) =
              and_then-eq-ok (help_table platform.display platform.parse_table platform.cli_flags) _
                (rw asked at h) in
            ground (arith, shown)
        | inr quiet ↦ elim (Bool-cases (option_eq version (some (codes "true")))) [
          | inl asked ↦ ground (arith, quiet, asked, h)
          | inr silent ↦ (
            values,
            refl,
            not_requested help (codes "true") quiet,
            not_requested version (codes "true") silent,
          )
        ]
      ]
  no_control (err e) h = cc
  no_control panic h = cc

  after_control_served :
      (resolved : Result FlagsError (BTreeMap Text)) (output : Option Text) {server : Server S}
      → after_control platform resolved output ≡ ok (served server)
      → (output ≡ none) × (start platform resolved ≡ ok (served server))
  after_control_served resolved none h = (refl, h)
  after_control_served resolved (some output) h = ground (arith, h)

  main_served :
      (resolved : Result FlagsError (BTreeMap Text)) {server : Server S}
      → main platform resolved ≡ ok (served server)
      → (control resolved ≡ ok none) × (start platform resolved ≡ ok (served server))
  unfolding main
  main_served resolved h =
      let (output, asked, h1) =
        and_then-eq-ok (map_err flags (control resolved)) (after_control platform resolved) h in
      let (quiet, started) = after_control_served resolved output h1 in
      (map_err-eq-ok flags (control resolved) asked ∙ ap ok quiet, started)

  start_served :
      (resolved : Result FlagsError (BTreeMap Text)) {server : Server S}
      → start platform resolved ≡ ok (served server)
      → (loaded : Config) × (config_from_lookup platform.parsers (to_lookup (var resolved))
          ≡ ok loaded)
        × (serve platform loaded ≡ ok server)
  unfolding start
  start_served resolved {server} h =
      let lookup = to_lookup (var resolved) in
      let (filter, _, h1) =
        and_then-eq-ok (filter_or_default platform (var resolved (codes "RUST_LOG"))) _ h in
      let (_, h2) = else-eq-ok (not (platform.parses_filter filter)) log_filter _ h1 in
      let loading = config_from_lookup platform.parsers lookup in
      let (loaded, read, h3) = and_then-eq-ok (map_err configuration loading) _ h2 in
      let (built, serving, h4) = and_then-eq-ok (serve platform loaded) _ h3 in
      let same : built ≡ server = ground (arith, h4) in
      (loaded, map_err-eq-ok configuration loading read, serving ∙ ap ok same)

  -- Whatever the services answer, a process that serves was started so, provided that appending
  -- path segments to a URL keeps its scheme and host.
  pub main-IsStarted :
      (resolved : Result FlagsError (BTreeMap Text)) {server : Server S}
      → main platform resolved ≡ ok (served server)
      → IsStarted resolved server
  main-IsStarted resolved h =
      let (quiet, started) = main_served resolved h in
      let (values, known, no_help, no_version) = no_control resolved quiet in
      let (loaded, read, serving) = start_served (ok values) (rw known at started) in
      let lookup = to_lookup (var (ok values)) in
      record {
        values = values;
        known = known;
        no_help = no_help;
        no_version = no_version;
        loaded = loaded;
        read = read;
        usable = config_from_lookup-IsUsable platform.parsers lookup read;
        serving = serve-IsServed platform keeps lookup read serving;
      }

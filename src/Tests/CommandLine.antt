-- ===== src/Tests/CommandLine.antt =====
-- A command line that is resolved, one that is refused, and the process that it starts.
use hhm_api_server_rs.Common.{
  ◌≡◌, refl, some, List, [], ◌∷◌, ◌++◌, Text, Text-Eq, codes, ◌==◌, if◌then◌else◌,
}
use hhm_api_server_rs.Common.Result.{ok}
use hhm_api_server_rs.Common.Maps.{insert, extend, remove}
use hhm_api_server_rs.Flags.{
  null, number, Parsed, Flags2Env, NamedTempFile, scalar_string, refuse, raw_map, insert_value,
  insert_typed, resolve_from,
}
use hhm_api_server_rs.Flags.Resolve.{IsResolved, resolve_from-IsResolved}
use hhm_api_server_rs.Flags.Redaction.{done, next, long, short, resolve_from_redacts}

abbrev quiet : Parsed
quiet = record {
  unknown_options = [];
  errors = [];
  extras = [];
  dotenv = (codes "HOST", codes "127.0.0.1") ∷ [];
  dotenv_overrides = [];
  provided_flags = (codes "PORT", codes "9000") ∷ [];
}

abbrev guess : Text → Parsed
guess value = record quiet {
  unknown_options = (codes "--guess=" ++ value) ∷ (codes "-x" ++ value) ∷ [];
}

-- A parser that knows one port option, and types it.
abbrev parse : List Text → Parsed
parse [] = quiet
parse (option ∷ []) = quiet
parse (program ∷ option ∷ _) = if option == codes "--port=9000" then quiet else guess option

abbrev parser : Flags2Env
parser = record {
  audit_config = λ _. ok tt;
  parse_structured = λ argv _. ok (parse argv);
  coerce = λ raw _. ok ((codes "PORT", number (codes "9000")) ∷ (codes "RUST_LOG", null) ∷ []);
}

abbrev file : NamedTempFile
file = record { new = ok tt; write_all = λ _. ok tt; path = some (codes "/tmp/contract") }

abbrev command_line : List Text
command_line = codes "server" ∷ codes "--port=9000" ∷ []

abbrev variables : List (Text × Text)
variables = (codes "PORT", codes "8080") ∷ (codes "APP_ENV", codes "test") ∷ []

resolve_from-IsResolved_example :
    IsResolved parser file
      (codes "contract")
      command_line
      variables
      ((codes "APP_ENV", codes "test") ∷ (codes "PORT", codes "9000") ∷ [])
unfolding resolve_from refuse raw_map insert_typed insert_value scalar_string insert extend remove
resolve_from-IsResolved_example =
    resolve_from-IsResolved parser file (codes "contract") command_line variables refl

resolve_from_redacts_example :
    resolve_from parser file (codes "contract") (codes "server" ∷ codes "hunter2" ∷ []) variables
    ≡ resolve_from parser file (codes "contract") (codes "server" ∷ codes "s3cret" ∷ []) []
resolve_from_redacts_example =
    resolve_from_redacts parser file (codes "contract") (codes "server" ∷ codes "hunter2" ∷ [])
      (codes "server" ∷ codes "s3cret" ∷ []) variables [] refl refl refl
      (next (long (codes "guess") (codes "hunter2") (codes "s3cret") refl)
        (next (short b'-' b'x' (codes "hunter2") (codes "s3cret") refl) done))
      (λ e. cc)

-- ===== src/Flags.antt =====
-- src/flags.rs: the configuration of the process, resolved by the crate flags-2-env.
pub mod Resolve
pub mod Redaction
pub mod Process
use hhm_api_server_rs.Common.{
  ℕ, Bool, true, false, not, Option, none, some, String, List, [], ◌∷◌, ◌++◌, Text, Text-Eq, codes,
  length, map, strip_prefix, split_from, nat_eq, ◌==◌, if◌then◌else◌,
}
use hhm_api_server_rs.Common.Result.{Result, ok, err, panic, and_then, map_err, ok_or}
use hhm_api_server_rs.Common.Maps.{BTreeMap, get, insert, remove, extend}

-- `serde_json::Value`: a number by its text, the nested values without what they hold.
pub data Value : Type 0 where
  null array object : Value
  bool : Bool → Value
  number string : Text → Value

-- What `parse_structured` returns.
pub record Parsed : Type 0 where
  pub unknown_options : List Text
  pub errors : List Text
  pub extras : List Text
  pub dotenv : BTreeMap Text
  pub dotenv_overrides : BTreeMap Text
  pub provided_flags : BTreeMap Text

-- The crate flags-2-env: the audit of a contract's file, the parser of the arguments, and the
-- typed values of a map. An error is its text.
pub record Flags2Env : Type 0 where
  pub audit_config : Text → Result Text (Unit {0})
  pub parse_structured : List Text → Text → Result Text Parsed
  pub coerce : BTreeMap Text → Text → Result Text (List (Text × Value))

-- The temporary file of the contract: its creation, a write, and its path if that is UTF-8.
pub record NamedTempFile : Type 0 where
  pub new : Result Text (Unit {0})
  pub write_all : Text → Result Text (Unit {0})
  pub path : Option Text

-- The errors, each with what its message shows.
pub data FlagsError : Type 0 where
  cannot_create cannot_materialize audit_failed parsing_failed typed_failed : Text → FlagsError
  path_not_utf8 no_flags_table : FlagsError
  unknown_options : List Text → FlagsError
  invalid_values unexpected_positionals : ℕ → FlagsError
  non_scalar cannot_read_help : Text → FlagsError

unfoldable pub scalar_string : Text → Value → Result FlagsError Text
scalar_string name (string value) = ok value
scalar_string name (bool true) = ok (codes "true")
scalar_string name (bool false) = ok (codes "false")
scalar_string name (number value) = ok value
scalar_string name _ = err (non_scalar name)

-- `chars().take(2)`.
abbrev pub first_two : Text → Text
first_two (a ∷ b ∷ _) = a ∷ b ∷ []
first_two option = option

abbrev pub long_name : Text → Option Text → Text
long_name option none = first_two option
long_name option (some long) = codes "--" ++ (split_from (λ c. nat_eq c b'=') long).0

-- An option as a message shows it.
unfoldable pub option_name : Text → Text
option_name option = long_name option (strip_prefix (codes "--") option)

-- The names of the options, sorted and each once.
abbrev pub keys : BTreeMap (Unit {0}) → List Text
keys [] = []
keys ((name, _) ∷ names) = name ∷ keys names

abbrev pub option_names : List Text → List Text
option_names options = keys (extend [] (map (λ option. (option_name option, tt)) options))

abbrev pub is_nil : {A : Type 0} → List A → Bool
is_nil [] = true
is_nil (_ ∷ _) = false

-- The three refusals of a command line.
unfoldable pub refuse : Parsed → Result FlagsError (Unit {0})
refuse parsed =
    if not (is_nil parsed.unknown_options)
    then err (unknown_options (option_names parsed.unknown_options))
    else if not (is_nil parsed.errors)
    then err (invalid_values (length parsed.errors))
    else if not (is_nil parsed.extras)
    then err (unexpected_positionals (length parsed.extras))
    else ok tt

-- The map that the crate is asked to type.
unfoldable pub raw_map : Parsed → BTreeMap Text → BTreeMap Text
raw_map parsed environment =
    let overridden = extend (extend parsed.dotenv environment) parsed.dotenv_overrides in
    extend (remove overridden (codes "FLAGS2ENV_COMMAND")) parsed.provided_flags

-- One round of the loop over the typed values.
unfoldable pub insert_value : BTreeMap Text → Text → Value → Result FlagsError (BTreeMap Text)
unfolding scalar_string
insert_value resolved name null = ok resolved
insert_value resolved name value =
    and_then (scalar_string name value) λ scalar. ok (insert resolved name scalar)

unfoldable pub insert_typed :
    BTreeMap Text → List (Text × Value) → Result FlagsError (BTreeMap Text)
unfolding insert_value
insert_typed resolved [] = ok resolved
insert_typed resolved ((name, value) ∷ typed) =
    and_then (insert_value resolved name value) λ next. insert_typed next typed

-- `resolve_from`.
module _ (parser : Flags2Env) (file : NamedTempFile) (contract : Text) where
  unfoldable pub resolve_from : List Text → List (Text × Text) → Result FlagsError (BTreeMap Text)
  unfolding refuse raw_map insert_typed
  resolve_from argv variables =
      let environment = extend [] variables in
      and_then (map_err cannot_create file.new) λ _.
        and_then (map_err cannot_materialize (file.write_all contract)) λ _.
          and_then (ok_or path_not_utf8 file.path) λ path.
            and_then (map_err audit_failed (parser.audit_config path)) λ _.
              and_then (map_err parsing_failed (parser.parse_structured argv path)) λ parsed.
                and_then (refuse parsed) λ _.
                  and_then (map_err typed_failed (parser.coerce (raw_map parsed environment) path))
                    λ typed. insert_typed environment typed

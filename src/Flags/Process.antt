-- ===== src/Flags/Process.antt =====
-- src/flags.rs: the variables, the control flags and the help of the process.
use hhm_api_server_rs.Common.{
  ℕ, ◌-◌, ◌||◌, Option, none, some, String, [], ◌∷◌, ◌++◌, Text, Text-Eq, Option-Eq, codes, length,
  ◌==◌, option_eq, if◌then◌else◌, suc, zero,
}
use mathlib.Core.Option
use hhm_api_server_rs.Common.Result.{Result, ok, err, panic, and_then, map_err, ok_or}
use hhm_api_server_rs.Common.Maps.{BTreeMap, get}
use hhm_api_server_rs.Flags.{FlagsError, no_flags_table, cannot_read_help}

-- The package's name and version, from Cargo.toml.
abbrev pub package_name : Text
package_name = codes "hhm-api"

abbrev pub package_version : Text
package_version = codes "0.1.0"

-- `toml::Value`, as far as the help reads it: another scalar is its text.
mutual
  pub data Toml : Type 0 where
    string scalar : Text → Toml
    array : Tomls → Toml
    table : TomlTable → Toml

  pub data Tomls : Type 0 where
    empty : Tomls
    item : Toml → Tomls → Tomls

  -- `toml::Table`, in the order of its keys.
  pub data TomlTable : Type 0 where
    end : TomlTable
    entry : Text → Toml → TomlTable → TomlTable

unfoldable pub get_key : TomlTable → String → Option Toml
get_key end name = none
get_key (entry key value entries) name =
    let rest = get_key entries name in if key == codes name then some value else rest

abbrev pub toml_str : Option Toml → Option Text
toml_str (some (string value)) = some value
toml_str _ = none

abbrev pub as_table : Option Toml → Option TomlTable
as_table (some (table value)) = some value
as_table _ = none

-- `as_array`, then its first element as a string.
abbrev pub first_str : Option Toml → Option Text
first_str (some (array (item value _))) = toml_str (some value)
first_str _ = none

abbrev pub or_first : Option Text → Option Text → Option Text
or_first none other = other
or_first (some value) other = some value

abbrev pub spaces : ℕ → Text
spaces zero = []
spaces (suc n) = b' ' ∷ spaces n

abbrev pub option_text : Option Text → Text → Text → Text
option_text short long value_type =
    let names : Text = elim short [
      | none ↦ codes "--" ++ long
      | some letter ↦ codes "-" ++ letter ++ codes ", --" ++ long
    ] in
    if value_type == codes "bool" || value_type == codes "boolean"
    then names
    else names ++ codes " <VALUE>"

module _ (display : Toml → Text) where
  abbrev pub default_text : Option Toml → Text
  default_text none = []
  default_text (some value) = codes " [default: " ++ display value ++ codes "]"

  -- The line of a flag; none for a flag without a long name.
  abbrev pub help_line : TomlTable → Option Text → Text
  help_line flag none = []
  help_line flag (some long) =
      let value_type = Option.get_or (toml_str (get_key flag "type")) (codes "string") in
      let option = option_text (toml_str (get_key flag "short")) long value_type in
      codes "  "
      ++ option
      ++ spaces (28 - length option)
      ++ codes " "
      ++ Option.get_or (toml_str (get_key flag "help")) []
      ++ default_text (get_key flag "default")
      ++ codes "\n"

  abbrev pub help_entry : Option TomlTable → Text
  help_entry none = []
  help_entry (some flag) =
      help_line flag
        (or_first (toml_str (get_key flag "long")) (first_str (get_key flag "aliases")))

  unfoldable pub help_lines : TomlTable → Text
  unfolding get_key
  help_lines end = []
  help_lines (entry _ value entries) = help_entry (as_table (some value)) ++ help_lines entries

  -- The parser of the crate `toml`, and the text of the contract.
  module _ (parse_table : Text → Result Text TomlTable) (contract : Text) where
    unfoldable pub help_table : Result FlagsError Text
    unfolding help_lines get_key
    help_table = and_then (map_err cannot_read_help (parse_table contract)) λ document.
        and_then (ok_or no_flags_table (as_table (get_key document "flags"))) λ flags.
          ok (
            codes "Usage: " ++ package_name ++ codes " [OPTIONS]\n\nOptions:\n" ++ help_lines flags)

    -- `process_control` and `var`, by the configuration that was resolved once.
    unfoldable pub process_control :
        Result FlagsError (BTreeMap Text) → Result FlagsError (Option Text)
    unfolding help_table
    process_control resolved = and_then resolved λ values.
        if option_eq (get values (codes "CLI_HELP_REQUESTED")) (some (codes "true"))
        then and_then help_table (λ help. ok (some help))
        else if option_eq (get values (codes "CLI_VERSION_REQUESTED")) (some (codes "true"))
        then ok (some (package_name ++ codes " " ++ package_version ++ codes "\n"))
        else ok none

-- `std::env::VarError`.
pub data VarError : Type 0 where
  not_present : VarError

unfoldable pub var : Result FlagsError (BTreeMap Text) → Text → Result VarError Text
var (ok values) name = ok_or not_present (get values name)
var (err e) name = panic
var panic name = panic

-- ===== src/Flags/Resolve.antt =====
-- src/flags.rs: where each value of the resolved configuration comes from.
use hhm_api_server_rs.Common.{
  ◌≡◌, refl, ap, ◌∙◌, inl, inr, true, false, not, Option, none, some, List, [], ◌∷◌, Text, Text-Eq,
  codes, ◌==◌, arith, Bool-cases, if◌then◌else◌,
}
use hhm_api_server_rs.Common.Result.{
  ok, and_then, and_then-eq-ok, map_err, map_err-eq-ok, ok_or, else-eq-ok,
}
use hhm_api_server_rs.Common.Maps.{BTreeMap, get, insert, remove, extend}
use hhm_api_server_rs.Common.Maps.Laws.{
  latest, or_else, or_else-none, get-insert, get-remove, get-extend,
}
use hhm_api_server_rs.Common.Maps.Order.{latest_as_get, extend-IsSorted}
use hhm_api_server_rs.Flags.{
  Value, null, array, object, bool, number, string, Parsed, Flags2Env, NamedTempFile, cannot_create,
  cannot_materialize, audit_failed, parsing_failed, typed_failed, path_not_utf8, scalar_string,
  is_nil, refuse, raw_map, insert_value, insert_typed, resolve_from,
}

-- The text of a typed value; `null` sets nothing.
abbrev pub value_text : Value → Option Text
value_text (string value) = some value
value_text (number value) = some value
value_text (bool true) = some (codes "true")
value_text (bool false) = some (codes "false")
value_text _ = none

-- The last text that the typed values give a name.
abbrev pub typed_text : List (Text × Value) → Text → Option Text
typed_text [] name = none
typed_text ((key, value) ∷ typed) name =
    or_else (typed_text typed name) (if key == name then value_text value else none)

-- What a name has before it is typed, in the order of precedence: a flag of the command line, an
-- override of the dotenv file, the environment, the dotenv file. Only a flag sets
-- `FLAGS2ENV_COMMAND`.
abbrev pub untyped_text : Parsed → List (Text × Text) → Text → Option Text
untyped_text parsed variables name = or_else (latest parsed.provided_flags name) (
    if codes "FLAGS2ENV_COMMAND" == name
    then none
    else or_else (latest parsed.dotenv_overrides name)
        (or_else (latest variables name) (get parsed.dotenv name)))

-- The map that is typed holds for each name what the order of precedence says.
pub get-raw_map :
    (parsed : Parsed) (variables : List (Text × Text)) (name : Text)
    → get (raw_map parsed (extend [] variables)) name ≡ untyped_text parsed variables name
unfolding raw_map get
get-raw_map parsed variables name =
    let environment = extend [] variables in
    let command = codes "FLAGS2ENV_COMMAND" in
    let first = extend parsed.dotenv environment in
    let second = extend first parsed.dotenv_overrides in
    let sorted = extend-IsSorted variables [] tt in
    let in_environment : latest environment name ≡ or_else (latest variables name) none =
      latest_as_get environment name sorted ∙ get-extend variables [] name in
    get-extend parsed.provided_flags (remove second command) name
    ∙ ap (or_else (latest parsed.provided_flags name)) (
        get-remove second command name
        ∙ ap (λ (o : Option Text). if command == name then none else o)
            (get-extend parsed.dotenv_overrides first name
              ∙ ap (or_else (latest parsed.dotenv_overrides name)) (
                  get-extend environment parsed.dotenv name
                  ∙ ap (λ (o : Option Text). or_else o (get parsed.dotenv name))
                      (in_environment ∙ or_else-none (latest variables name)))))

scalar_string-value_text :
    (name : Text) (value : Value) {scalar : Text}
    → scalar_string name value ≡ ok scalar
    → value_text value ≡ some scalar
unfolding scalar_string
scalar_string-value_text name (string text) h = ground (arith, h)
scalar_string-value_text name (number text) h = ground (arith, h)
scalar_string-value_text name (bool true) h = ground (arith, h)
scalar_string-value_text name (bool false) h = ground (arith, h)
scalar_string-value_text name null h = cc
scalar_string-value_text name array h = cc
scalar_string-value_text name object h = cc

get_scalar :
    (resolved : BTreeMap Text) (key name : Text) (value : Value) {next : BTreeMap Text}
    → (and_then (scalar_string key value) λ scalar. ok (insert resolved key scalar)) ≡ ok next
    → get next name ≡ or_else (if key == name then value_text value else none) (get resolved name)
get_scalar resolved key name value {next} h =
    let (scalar, found, h1) = and_then-eq-ok (scalar_string key value) _ h in
    let same : insert resolved key scalar ≡ next = ground (arith, h1) in
    rw (← same, scalar_string-value_text key value found, get-insert resolved key scalar name)
      (elim (Bool-cases (key == name)) [ inl e ↦ rw e refl | inr e ↦ rw e refl ])

get-insert_value :
    (resolved : BTreeMap Text) (key name : Text) (value : Value) {next : BTreeMap Text}
    → insert_value resolved key value ≡ ok next
    → get next name ≡ or_else (if key == name then value_text value else none) (get resolved name)
unfolding insert_value
get-insert_value resolved key name null {next} h =
    let same : resolved ≡ next = ground (arith, h) in
    rw (← same) (elim (Bool-cases (key == name)) [ inl e ↦ rw e refl | inr e ↦ rw e refl ])
get-insert_value resolved key name array h = get_scalar resolved key name array h
get-insert_value resolved key name object h = get_scalar resolved key name object h
get-insert_value resolved key name (bool b) h = get_scalar resolved key name (bool b) h
get-insert_value resolved key name (number text) h = get_scalar resolved key name (number text) h
get-insert_value resolved key name (string text) h = get_scalar resolved key name (string text) h

or_else_assoc : (a b c : Option Text) → or_else a (or_else b c) ≡ or_else (or_else a b) c
or_else_assoc none b c = refl
or_else_assoc (some a) b c = refl

get-insert_typed :
    (typed : List (Text × Value)) (resolved : BTreeMap Text) (name : Text) {out : BTreeMap Text}
    → insert_typed resolved typed ≡ ok out
    → get out name ≡ or_else (typed_text typed name) (get resolved name)
unfolding insert_typed
get-insert_typed [] resolved name {out} h =
    let same : resolved ≡ out = ground (arith, h) in rw (← same) refl
get-insert_typed ((key, value) ∷ typed) resolved name h =
    let (next, inserted, rest) = and_then-eq-ok (insert_value resolved key value) _ h in
    get-insert_typed typed next name rest
    ∙ ap (or_else (typed_text typed name)) (get-insert_value resolved key name value inserted)
    ∙ or_else_assoc (typed_text typed name) (if key == name then value_text value else none)
        (get resolved name)

is_nil-eq : {A : Type 0} (l : List A) → not (is_nil l) ≡ false → l ≡ []
is_nil-eq [] h = refl
is_nil-eq (x ∷ l) h = cc

refuse-eq-ok :
    (parsed : Parsed) {u : Unit}
    → refuse parsed ≡ ok u
    → (parsed.unknown_options ≡ []) × (parsed.errors ≡ []) × (parsed.extras ≡ [])
unfolding refuse
refuse-eq-ok parsed h =
    let (known, h1) = else-eq-ok (not (is_nil parsed.unknown_options)) _ _ h in
    let (valid, h2) = else-eq-ok (not (is_nil parsed.errors)) _ _ h1 in
    let (all_flags, _) = else-eq-ok (not (is_nil parsed.extras)) _ (ok tt) h2 in
    (
      is_nil-eq parsed.unknown_options known,
      is_nil-eq parsed.errors valid,
      is_nil-eq parsed.extras all_flags,
    )

module _ (parser : Flags2Env) (file : NamedTempFile) (contract : Text) where
  -- Where a resolved configuration comes from: a command line that the audited contract accepts in
  -- full, whose values were typed after they were put in the order of precedence. A typed value
  -- wins over the environment, which keeps the names that are not typed.
  pub record IsResolved (argv : List Text) (variables : List (Text × Text))
      (resolved : BTreeMap Text) : Type 0 where
    pub path : Text
    pub parsed : Parsed
    pub raw : BTreeMap Text
    pub typed : List (Text × Value)
    pub audited : parser.audit_config path ≡ ok tt
    pub accepted : parser.parse_structured argv path ≡ ok parsed
    pub complete : (parsed.unknown_options ≡ []) × (parsed.errors ≡ []) × (parsed.extras ≡ [])
    pub precedence : (name : Text) → get raw name ≡ untyped_text parsed variables name
    pub coerced : parser.coerce raw path ≡ ok typed
    pub values :
        (name : Text) → get resolved name ≡ or_else (typed_text typed name) (latest variables name)

  -- Every configuration that is resolved comes from such a command line.
  pub resolve_from-IsResolved :
      (argv : List Text) (variables : List (Text × Text)) {resolved : BTreeMap Text}
      → resolve_from parser file contract argv variables ≡ ok resolved
      → IsResolved argv variables resolved
  unfolding resolve_from get
  resolve_from-IsResolved argv variables {resolved} h =
      let environment = extend [] variables in
      let (_, _, h1) = and_then-eq-ok (map_err cannot_create file.new) _ h in
      let (_, _, h2) = and_then-eq-ok (map_err cannot_materialize (file.write_all contract)) _ h1 in
      let (path, _, h3) = and_then-eq-ok (ok_or path_not_utf8 file.path) _ h2 in
      let (_, audited, h4) =
        and_then-eq-ok (map_err audit_failed (parser.audit_config path)) _ h3 in
      let (parsed, accepted, h5) =
        and_then-eq-ok (map_err parsing_failed (parser.parse_structured argv path)) _ h4 in
      let (_, passed, h6) = and_then-eq-ok (refuse parsed) _ h5 in
      let raw = raw_map parsed environment in
      let (typed, coerced, h7) =
        and_then-eq-ok (map_err typed_failed (parser.coerce raw path)) _ h6 in
      record {
        path = path;
        parsed = parsed;
        raw = raw;
        typed = typed;
        audited = map_err-eq-ok audit_failed (parser.audit_config path) audited;
        accepted = map_err-eq-ok parsing_failed (parser.parse_structured argv path) accepted;
        complete = refuse-eq-ok parsed passed;
        precedence = get-raw_map parsed variables;
        coerced = map_err-eq-ok typed_failed (parser.coerce raw path) coerced;
        values = λ name.
            get-insert_typed typed environment name h7
            ∙ ap (or_else (typed_text typed name))
                (get-extend variables [] name ∙ or_else-none (latest variables name));
      }

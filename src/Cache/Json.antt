-- ===== src/Cache/Json.antt =====
-- cache/cache_easyjson.go: an app as JSON. The lexer and the writer of package easyjson are
-- parameters, and so is json.Marshal of a value.
pub mod Laws
pub mod Total
pub mod RoundTrip
use splunk_firehose_nozzle.Base.{
  ℕ, zero, suc, String, Bool, true, false, not, Option, none, some, List, [], ◌∷◌, if◌then◌else◌,
  ◌==◌,
}
use splunk_firehose_nozzle.Base.Dict.{Dict, insert}
use splunk_firehose_nozzle.Base.Result.{Result, ok, err}
use splunk_firehose_nozzle.Value.{Value}
use splunk_firehose_nozzle.Cache.App.{App}

-- jlexer.Lexer. A method that reads gives what it read and the lexer behind it; `remaining` counts
-- the bytes that can still be read, and is 0 after an error.
pub record Jlexer (Data : Type 0) : Type 1 where
  pub Lexer : Type 0
  pub of_data : Data → Lexer
  pub remaining : Lexer → ℕ
  pub error : Lexer → Option String
  pub is_null : Lexer → Bool × Lexer
  pub is_delim : ℕ → Lexer → Bool × Lexer
  pub delim : ℕ → Lexer → Lexer
  pub skip : Lexer → Lexer
  pub skip_recursive : Lexer → Lexer
  pub want_colon : Lexer → Lexer
  pub want_comma : Lexer → Lexer
  pub unsafe_string : Lexer → String × Lexer
  pub string : Lexer → String × Lexer
  pub bool : Lexer → Bool × Lexer
  pub interface : Lexer → Value × Lexer

-- jwriter.Writer. `build` is w.Buffer.BuildBytes() with w.Error.
pub record Jwriter (Data : Type 0) : Type 1 where
  pub Writer : Type 0
  pub new : Writer
  pub raw_byte : ℕ → Writer → Writer
  pub raw_string : String → Writer → Writer
  pub string : String → Writer → Writer
  pub bool : Bool → Writer → Writer
  pub raw : Result String Data → Writer → Writer
  pub build : Writer → Result String Data

-- the cases of the switch on a key
pub data Member : Type 0 where
  name_case guid_case space_name_case space_guid_case org_name_case org_guid_case cf_app_env_case
        ignored_app_case :
      Member

unfoldable pub member_of : String → Option Member
member_of key =
    if key == "Name"
    then some name_case
    else if key == "Guid"
    then some guid_case
    else if key == "SpaceName"
    then some space_name_case
    else if key == "SpaceGuid"
    then some space_guid_case
    else if key == "OrgName"
    then some org_name_case
    else if key == "OrgGuid"
    then some org_guid_case
    else if key == "CfAppEnv"
    then some cf_app_env_case
    else if key == "IgnoredApp"
    then some ignored_app_case
    else none

-- new(App), or var app App
abbrev pub zero_app : App
zero_app = record {
  name = "";
  guid = "";
  space_name = "";
  space_guid = "";
  org_name = "";
  org_guid = "";
  cf_app_env = [];
  ignored_app = false;
}

module _ {Data : Type 0} (in_ : Jlexer Data) where
  open in_ use {
    Lexer, of_data, remaining, error, is_null, is_delim, delim, skip, skip_recursive, want_colon,
    want_comma, unsafe_string, string, bool, interface,
  }

  -- The loop over the entries of CfAppEnv; `none` is out of fuel.
  unfoldable pub decode_env : ℕ → Lexer → Dict Value → Option (Dict Value × Lexer)
  decode_env zero l env = none
  decode_env (suc n) l env =
      let (closed, l1) = is_delim b'}' l in
      let (key, l2) = string l1 in
      let (v, l3) = interface (want_colon l2) in
      elim closed [
        | true ↦ some (env, delim b'}' l1)
        | false ↦ decode_env n (want_comma l3) (insert key v env)
      ]

  set_env : App → Option (Dict Value × Lexer) → Option (App × Lexer)
  set_env out none = none
  set_env out (some (env, l)) = some (record out { cf_app_env = env }, l)

  -- The switch. The map of CfAppEnv is nil or new before its entries are read.
  unfoldable pub decode_member : ℕ → Option Member → Lexer → App → Option (App × Lexer)
  unfolding set_env
  decode_member n none l out = some (out, skip_recursive l)
  decode_member n (some name_case) l out =
      let (s, l') = string l in some (record out { name = s }, l')
  decode_member n (some guid_case) l out =
      let (s, l') = string l in some (record out { guid = s }, l')
  decode_member n (some space_name_case) l out =
      let (s, l') = string l in some (record out { space_name = s }, l')
  decode_member n (some space_guid_case) l out =
      let (s, l') = string l in some (record out { space_guid = s }, l')
  decode_member n (some org_name_case) l out =
      let (s, l') = string l in some (record out { org_name = s }, l')
  decode_member n (some org_guid_case) l out =
      let (s, l') = string l in some (record out { org_guid = s }, l')
  decode_member n (some cf_app_env_case) l out =
      let (null_there, l') = is_null l in
      elim null_there [
        | true ↦ some (out, skip l')
        | false ↦ set_env out (decode_env n (is_delim b'}' (delim b'{' l')).1 [])
      ]
  decode_member n (some ignored_app_case) l out =
      let (b, l') = bool l in some (record out { ignored_app = b }, l')

  -- the body of the outer loop, up to its last WantComma
  unfoldable pub decode_next : ℕ → Lexer → App → Option (App × Lexer)
  decode_next n l out =
      let (key, l1) = unsafe_string l in
      let (null_there, l2) = is_null (want_colon l1) in
      elim null_there [
        | true ↦ some (out, skip l2)
        | false ↦ decode_member n (member_of key) l2 out
      ]

  unfoldable pub decode_members : ℕ → Lexer → App → Option (App × Lexer)
  decode_members zero l out = none
  decode_members (suc n) l out =
      let (closed, l1) = is_delim b'}' l in
      elim closed [
        | true ↦ some (out, delim b'}' l1)
        | false ↦ elim (decode_next n l1 out) [
          | none ↦ none
          | some (out', l') ↦ decode_members n (want_comma l') out'
        ]
      ]

  -- easyjson...Decode...Cache
  unfoldable pub decode : ℕ → Lexer → App → Option (App × Lexer)
  decode n l out =
      let (null_there, l1) = is_null l in
      elim null_there [ true ↦ some (out, skip l1) | false ↦ decode_members n (delim b'{' l1) out ]

  -- UnmarshalJSON into an app, with as much fuel as there are bytes: the app as it is then, and the
  -- error of the lexer.
  unfoldable pub unmarshal_json : Data → App → Option (App × Option String)
  unmarshal_json text out = elim (decode (suc (remaining (of_data text))) (of_data text) out) [
    | none ↦ none
    | some (out', l) ↦ some (out', error l)
  ]

module _ {Data : Type 0} (out : Jwriter Data) (marshal_value : Value → Result String Data) where
  open out use {Writer, new, raw_byte, raw_string, string, bool, raw, build}

  -- if !first { out.RawByte(',') }
  abbrev pub separate : Bool → Writer → Writer
  separate true w = w
  separate false w = raw_byte b',' w

  -- a key and a string, behind a comma if they are not the first
  unfoldable pub encode_string : Bool → String → String → Writer → Writer
  encode_string first key s w = string s (raw_string key (separate first w))

  -- the loop over the map, from its first entry or a later one
  unfoldable pub encode_entries : Bool → Dict Value → Writer → Writer
  encode_entries first [] w = w
  encode_entries first ((k, v) ∷ env) w =
      encode_entries false env (raw (marshal_value v) (raw_byte b':' (string k (separate first w))))

  -- A Go map can be nil, which a Dict does not tell from an empty one: `made` says that it is not.
  unfoldable pub encode_env : Bool → Dict Value → Writer → Writer
  encode_env false env w = raw_string "null" w
  encode_env true env w = raw_byte b'}' (encode_entries true env (raw_byte b'{' w))

  -- easyjson...Encode...Cache
  unfoldable pub encode : Bool → App → Writer → Writer
  encode made app w0 =
      let w1 = encode_string true "\"Name\":" app.name (raw_byte b'{' w0) in
      let w2 = encode_string false "\"Guid\":" app.guid w1 in
      let w3 = encode_string false "\"SpaceName\":" app.space_name w2 in
      let w4 = encode_string false "\"SpaceGuid\":" app.space_guid w3 in
      let w5 = encode_string false "\"OrgName\":" app.org_name w4 in
      let w6 = encode_string false "\"OrgGuid\":" app.org_guid w5 in
      let w7 = encode_env made app.cf_app_env (raw_string "\"CfAppEnv\":" (separate false w6)) in
      raw_byte b'}' (bool app.ignored_app (raw_string "\"IgnoredApp\":" (separate false w7)))

  -- MarshalJSON
  unfoldable pub marshal_json : Bool → App → Result String Data
  marshal_json made app = build (encode made app new)

-- ===== src/Cache/Json/RoundTrip.antt =====
-- An app that is encoded is decoded to the same app.
pub mod Entries
pub mod Members
use splunk_firehose_nozzle.Base.{
  ℕ, suc, ◌+◌, ◌-◌, ◌≤◌, ◌<◌, String, Bool, true, false, Option, none, some, List, [], ◌∷◌, length,
  ◌≡◌, refl, sym, ◌∙◌, ap, arith, subst,
}
use splunk_firehose_nozzle.Base.Dict.{Dict, IsMap}
use splunk_firehose_nozzle.Base.Result.{Result, ok}
use splunk_firehose_nozzle.Value.{Value}
use splunk_firehose_nozzle.Cache.App.{App}
use splunk_firehose_nozzle.Cache.Json.{
  Jlexer, Jwriter, Member, name_case, guid_case, space_name_case, space_guid_case, org_name_case,
  org_guid_case, cf_app_env_case, ignored_app_case, zero_app, decode_members, decode,
  unmarshal_json, encode_string, encode_env, encode, marshal_json,
}
use splunk_firehose_nozzle.Cache.Json.Laws.{
  Piece, brace, colon, comma, null, text, truth, key_of, quoted_key, turned, ReadsPieces,
  WritesPieces,
}
use splunk_firehose_nozzle.Cache.Json.RoundTrip.Entries.{
  AllKept, Then, entry_pieces, length-entry_pieces, insert_all-IsMap, encode_entries-wrote,
}
use splunk_firehose_nozzle.Cache.Json.RoundTrip.Members.{
  env_pieces, read_env, decode_members-strings, set_strings, turns, string_pieces,
  decode_members-bool, decode_members-env,
}

-- A map is nil, and then has no entries, or has been made.
abbrev pub IsEnv : Bool → Dict Value → Type 0
IsEnv true env = IsMap env
IsEnv false env = env ≡ []

module _ {Data : Type 0} (j : Jlexer Data) (r : ReadsPieces j) where
  abbrev strings_of : App → List (Member × String)
  strings_of app =
      (name_case, app.name)
      ∷ (guid_case, app.guid)
      ∷ (space_name_case, app.space_name)
      ∷ (space_guid_case, app.space_guid)
      ∷ (org_name_case, app.org_name)
      ∷ (org_guid_case, app.org_guid)
      ∷ []

  -- the pieces of an app behind its first brace
  abbrev member_pieces : Bool → App → List Piece
  member_pieces made app = string_pieces (strings_of app) (
      text "CfAppEnv"
      ∷ colon
      ∷ env_pieces j r made app.cf_app_env
          (comma ∷ text "IgnoredApp" ∷ colon ∷ truth app.ignored_app ∷ brace b'}' ∷ []))

  read_app :
      (made : Bool) (app : App)
      → IsEnv made app.cf_app_env
      → record (read_env j r made app.cf_app_env (set_strings (strings_of app) zero_app)) {
        ignored_app = app.ignored_app;
      }
        ≡ app
  read_app true app h =
      ap (λ (env : Dict Value). record app { cf_app_env = env }) (insert_all-IsMap app.cf_app_env h)
  read_app false app h = ap (λ (env : Dict Value). record app { cf_app_env = env }) (sym h)

  decode_members-ends :
      (n : ℕ) (l : j.Lexer) (out : App)
      → r.Reads l (brace b'}' ∷ [])
      → (l' : j.Lexer) × (decode_members j (suc n) l out ≡ some (out, l')) × r.Reads l' []
  unfolding decode_members
  decode_members-ends n l out h =
      let (closed, at) = r.is_delim-reads b'}' l (brace b'}') [] refl h in
      let l1 = (j.is_delim b'}' l).1 in
      (j.delim b'}' l1, rw (closed, decode_members) refl, r.delim-reads b'}' l1 [] at)

  decode_members-app :
      (k : ℕ) (made : Bool) (app : App) (l : j.Lexer)
      → length app.cf_app_env ≤ k
      → IsEnv made app.cf_app_env
      → r.Reads l (member_pieces made app)
      → (l' : j.Lexer) × (decode_members j (turns (strings_of app) (suc (suc (suc k)))) l zero_app
          ≡ some (app, l'))
        × r.Reads l' []
  decode_members-app k made app l le is h =
      let named : App = set_strings (strings_of app) zero_app in
      let with_env : App = read_env j r made app.cf_app_env named in
      let (l1, e1, h1) =
        decode_members-strings j r (suc (suc (suc k))) (strings_of app) l zero_app _
          (refl, (refl, (refl, (refl, (refl, (refl, tt)))))) h in
      let (l2, e2, h2) =
        decode_members-env j r (suc (suc k)) made app.cf_app_env l1 named _ (omega (arith, le))
          h1 in
      let (l3, e3, h3) = decode_members-bool j r (suc k) app.ignored_app l2 with_env _ h2 in
      let (l4, e4, h4) =
        decode_members-ends k l3 (record with_env { ignored_app = app.ignored_app }) h3 in
      (l4, e1 ∙ e2 ∙ e3 ∙ e4 ∙ ap (λ (a : App). some (a, l4)) (read_app made app is), h4)

  length-env_pieces :
      (made : Bool) (env : Dict Value) (rest : List Piece)
      → IsEnv made env
      → length env + length rest ≤ length (env_pieces j r made env rest)
  length-env_pieces true env rest h =
      omega (arith, length-entry_pieces true env (brace b'}' ∷ rest))
  length-env_pieces false env rest h = rw h (omega arith)

  decode-app :
      (made : Bool) (app : App) (l : j.Lexer)
      → IsEnv made app.cf_app_env
      → r.Reads l (brace b'{' ∷ member_pieces made app)
      → (l' : j.Lexer) × (decode j (suc (j.remaining l)) l zero_app ≡ some (app, l'))
        × r.Reads l' []
  unfolding decode
  decode-app made app l is h =
      let k = j.remaining l - 8 in
      let rest = comma ∷ text "IgnoredApp" ∷ colon ∷ truth app.ignored_app ∷ brace b'}' ∷ [] in
      let (there, at) = r.is_null-scalar l (brace b'{') _ refl h in
      let room : length app.cf_app_env + 25 ≤ j.remaining l =
        omega (arith, length-env_pieces made app.cf_app_env rest is, r.Reads-length l _ h) in
      let (l', e, end) =
        decode_members-app k made app (j.delim b'{' (j.is_null l).1) (omega (arith, room)) is
          (r.delim-reads b'{' _ _ at) in
      let fuel : suc (j.remaining l) ≡ turns (strings_of app) (suc (suc (suc k))) =
        omega (arith, room) in
      (l', rw (there, decode, fuel) e, end)

  module _ (marshal_value : Value → Result String Data) (o : Jwriter Data)
      (w : WritesPieces o j r) where
    encode_env-wrote :
        (made : Bool) (env : Dict Value) (from : o.Writer) (ps : List Piece)
        → AllKept marshal_value o j r w env
        → w.Wrote from (colon ∷ ps)
        → Then marshal_value o j r w
            (colon ∷ ps)
            (env_pieces j r made env)
            (encode_env o marshal_value made env from)
    unfolding encode_env
    encode_env-wrote true env from ps kept h =
        let (qs, at, e) =
          encode_entries-wrote marshal_value o j r w true env _ _ kept (w.open-wrote _ _ h) in
        (brace b'}' ∷ qs, w.close-wrote _ _ at, λ rest. e (brace b'}' ∷ rest))
    encode_env-wrote false env from ps kept h =
        (null ∷ colon ∷ ps, w.null-wrote _ _ h, λ rest. refl)

    encode_string-wrote :
        (m : Member) (s : String) (from : o.Writer) (ps : List Piece)
        → w.Wrote from ps
        → w.Wrote
            (encode_string o marshal_value false (quoted_key m) s from)
            (text s ∷ colon ∷ text (key_of m) ∷ comma ∷ ps)
    unfolding encode_string
    encode_string-wrote m s from ps h =
        w.string-wrote s _ _ (w.key-wrote m _ _ (w.comma-wrote _ _ h))

    encode-wrote :
        (made : Bool) (app : App)
        → AllKept marshal_value o j r w app.cf_app_env
        → (qs : List Piece) × w.Wrote (encode o marshal_value made app o.new) qs
          × (turned qs [] ≡ brace b'{' ∷ member_pieces made app)
    unfolding encode encode_string
    encode-wrote made app kept =
        let first =
          w.string-wrote app.name _ _ (w.key-wrote name_case _ _ (w.open-wrote _ _ w.new-wrote)) in
        let strings = encode_string-wrote org_guid_case app.org_guid _ _ (
          encode_string-wrote org_name_case app.org_name _ _ (
            encode_string-wrote space_guid_case app.space_guid _ _ (
              encode_string-wrote space_name_case app.space_name _ _
                (encode_string-wrote guid_case app.guid _ _ first)))) in
        let (qs, at, e) =
          encode_env-wrote made app.cf_app_env _ _ kept
            (w.key-wrote cf_app_env_case _ _ (w.comma-wrote _ _ strings)) in
        let last = w.close-wrote _ _ (
          w.bool-wrote app.ignored_app _ _
            (w.key-wrote ignored_app_case _ _ (w.comma-wrote _ _ at))) in
        (_, last, e _)

    -- An app is encoded to a text that is decoded to the app, without an error, whatever the strings
    -- in it; its map, where it is not nil, has each key once and values that JSON keeps. The lexer reads,
    -- piece by piece, what the writer wrote.
    pub unmarshal_json-marshal_json :
        (made : Bool) (app : App)
        → IsEnv made app.cf_app_env
        → AllKept marshal_value o j r w app.cf_app_env
        → (d : Data) × (marshal_json o marshal_value made app ≡ ok d)
          × (unmarshal_json j d zero_app ≡ some (app, none))
    unfolding marshal_json unmarshal_json
    unmarshal_json-marshal_json made app is kept =
        let (qs, wrote, same) = encode-wrote made app kept in
        let (d, e, reads) = w.build-reads _ qs wrote in
        let (l, e', end) =
          decode-app made app (j.of_data d) is (subst (r.Reads (j.of_data d)) same reads) in
        (d, e, rw (e', unmarshal_json, r.error-none l end) refl)

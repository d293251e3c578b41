-- ===== src/Cache/Json/Laws.antt =====
-- What cache/cache_easyjson.go relies on of package easyjson, as its comments document it: a lexer
-- moves forward, and reads piece by piece what a writer wrote.
use splunk_firehose_nozzle.Base.{
  ℕ, ◌≤◌, ◌<◌, String, Bool, true, false, none, List, [], ◌∷◌, length, eqb, ◌≡◌,
}
use splunk_firehose_nozzle.Base.Result.{ok}
use splunk_firehose_nozzle.Value.{Value}
use splunk_firehose_nozzle.Cache.Json.{
  Jlexer, Jwriter, Member, name_case, guid_case, space_name_case, space_guid_case, org_name_case,
  org_guid_case, cf_app_env_case, ignored_app_case,
}

-- A JSON text in pieces: braces and separators, a string, a boolean, null, and a whole value.
pub data Piece : Type 0 where
  brace : ℕ → Piece
  colon comma null : Piece
  text : String → Piece
  truth : Bool → Piece
  any : Value → Piece

abbrev pub is_brace : ℕ → Piece → Bool
is_brace c (brace d) = eqb d c
is_brace c _ = false

-- where IsNull tells null from what is no null
abbrev pub is_scalar : Piece → Bool
is_scalar (text s) = true
is_scalar (truth b) = true
is_scalar (brace c) = true
is_scalar _ = false

-- A separator that was not asked for is an error to the lexer, and no token.
abbrev pub is_token : Piece → Bool
is_token colon = false
is_token comma = false
is_token _ = true

-- No method goes back, and one that reads a string past a failed IsDelim, which says that there is
-- a token and no error, consumes it.
pub record MovesForward {Data : Type 0} (j : Jlexer Data) : Type 0 where
  pub is_null-forward : (l : j.Lexer) → j.remaining (j.is_null l).1 ≤ j.remaining l
  pub is_delim-forward : (c : ℕ) (l : j.Lexer) → j.remaining (j.is_delim c l).1 ≤ j.remaining l
  pub delim-forward : (c : ℕ) (l : j.Lexer) → j.remaining (j.delim c l) ≤ j.remaining l
  pub skip-forward : (l : j.Lexer) → j.remaining (j.skip l) ≤ j.remaining l
  pub skip_recursive-forward : (l : j.Lexer) → j.remaining (j.skip_recursive l) ≤ j.remaining l
  pub want_colon-forward : (l : j.Lexer) → j.remaining (j.want_colon l) ≤ j.remaining l
  pub want_comma-forward : (l : j.Lexer) → j.remaining (j.want_comma l) ≤ j.remaining l
  pub string-forward : (l : j.Lexer) → j.remaining (j.string l).1 ≤ j.remaining l
  pub bool-forward : (l : j.Lexer) → j.remaining (j.bool l).1 ≤ j.remaining l
  pub interface-forward : (l : j.Lexer) → j.remaining (j.interface l).1 ≤ j.remaining l
  pub unsafe_string-past :
      (c : ℕ) (l : j.Lexer)
      → (j.is_delim c l).0 ≡ false
      → j.remaining (j.unsafe_string (j.is_delim c l).1).1 < j.remaining l
  pub string-past :
      (c : ℕ) (l : j.Lexer)
      → (j.is_delim c l).0 ≡ false
      → j.remaining (j.string (j.is_delim c l).1).1 < j.remaining l

-- `Reads l ps`: without an error so far, the lexer has the pieces ps in front of it.
pub record ReadsPieces {Data : Type 0} (j : Jlexer Data) : Type 1 where
  pub Reads : j.Lexer → List Piece → Type 0
  pub Reads-length : (l : j.Lexer) (ps : List Piece) → Reads l ps → length ps ≤ j.remaining l
  pub is_null-null :
      (l : j.Lexer) (ps : List Piece)
      → Reads l (null ∷ ps)
      → ((j.is_null l).0 ≡ true) × Reads (j.is_null l).1 (null ∷ ps)
  pub is_null-scalar :
      (l : j.Lexer) (p : Piece) (ps : List Piece)
      → is_scalar p ≡ true
      → Reads l (p ∷ ps)
      → ((j.is_null l).0 ≡ false) × Reads (j.is_null l).1 (p ∷ ps)
  pub is_delim-reads :
      (c : ℕ) (l : j.Lexer) (p : Piece) (ps : List Piece)
      → is_token p ≡ true
      → Reads l (p ∷ ps)
      → ((j.is_delim c l).0 ≡ is_brace c p) × Reads (j.is_delim c l).1 (p ∷ ps)
  pub delim-reads :
      (c : ℕ) (l : j.Lexer) (ps : List Piece) → Reads l (brace c ∷ ps) → Reads (j.delim c l) ps
  pub skip-null : (l : j.Lexer) (ps : List Piece) → Reads l (null ∷ ps) → Reads (j.skip l) ps
  pub want_colon-reads :
      (l : j.Lexer) (ps : List Piece) → Reads l (colon ∷ ps) → Reads (j.want_colon l) ps
  pub want_comma-reads :
      (l : j.Lexer) (ps : List Piece) → Reads l (comma ∷ ps) → Reads (j.want_comma l) ps
  pub want_comma-last :
      (l : j.Lexer) (ps : List Piece)
      → Reads l (brace b'}' ∷ ps)
      → Reads (j.want_comma l) (brace b'}' ∷ ps)
  pub unsafe_string-reads :
      (l : j.Lexer) (s : String) (ps : List Piece)
      → Reads l (text s ∷ ps)
      → ((j.unsafe_string l).0 ≡ s) × Reads (j.unsafe_string l).1 ps
  pub string-reads :
      (l : j.Lexer) (s : String) (ps : List Piece)
      → Reads l (text s ∷ ps)
      → ((j.string l).0 ≡ s) × Reads (j.string l).1 ps
  pub bool-reads :
      (l : j.Lexer) (b : Bool) (ps : List Piece)
      → Reads l (truth b ∷ ps)
      → ((j.bool l).0 ≡ b) × Reads (j.bool l).1 ps
  pub interface-reads :
      (l : j.Lexer) (v : Value) (ps : List Piece)
      → Reads l (any v ∷ ps)
      → ((j.interface l).0 ≡ v) × Reads (j.interface l).1 ps
  pub error-none : (l : j.Lexer) → Reads l [] → j.error l ≡ none

-- the key of a case, and the key as the encoder writes it
abbrev pub key_of : Member → String
key_of name_case = "Name"
key_of guid_case = "Guid"
key_of space_name_case = "SpaceName"
key_of space_guid_case = "SpaceGuid"
key_of org_name_case = "OrgName"
key_of org_guid_case = "OrgGuid"
key_of cf_app_env_case = "CfAppEnv"
key_of ignored_app_case = "IgnoredApp"

abbrev pub quoted_key : Member → String
quoted_key name_case = "\"Name\":"
quoted_key guid_case = "\"Guid\":"
quoted_key space_name_case = "\"SpaceName\":"
quoted_key space_guid_case = "\"SpaceGuid\":"
quoted_key org_name_case = "\"OrgName\":"
quoted_key org_guid_case = "\"OrgGuid\":"
quoted_key cf_app_env_case = "\"CfAppEnv\":"
quoted_key ignored_app_case = "\"IgnoredApp\":"

-- `turned ps qs`: ps, which has the last piece first, turned round in front of qs.
abbrev pub turned : List Piece → List Piece → List Piece
turned [] qs = qs
turned (p ∷ ps) qs = turned ps (p ∷ qs)

-- `Wrote w ps`: the pieces that the writer has written, the last one first. What it wrote is read
-- back: an interface{} too, if its text holds it (`Holds`, which fails for a value that JSON changes).
pub record WritesPieces {Data : Type 0} (o : Jwriter Data) (j : Jlexer Data) (r : ReadsPieces j)
    : Type 1 where
  pub Wrote : o.Writer → List Piece → Type 0
  pub Holds : Data → Value → Type 0
  pub new-wrote : Wrote o.new []
  pub open-wrote :
      (w : o.Writer) (ps : List Piece) → Wrote w ps → Wrote (o.raw_byte b'{' w) (brace b'{' ∷ ps)
  pub close-wrote :
      (w : o.Writer) (ps : List Piece) → Wrote w ps → Wrote (o.raw_byte b'}' w) (brace b'}' ∷ ps)
  pub comma-wrote :
      (w : o.Writer) (ps : List Piece) → Wrote w ps → Wrote (o.raw_byte b',' w) (comma ∷ ps)
  pub colon-wrote :
      (w : o.Writer) (ps : List Piece) → Wrote w ps → Wrote (o.raw_byte b':' w) (colon ∷ ps)
  pub key-wrote :
      (m : Member) (w : o.Writer) (ps : List Piece)
      → Wrote w ps
      → Wrote (o.raw_string (quoted_key m) w) (colon ∷ text (key_of m) ∷ ps)
  pub null-wrote :
      (w : o.Writer) (ps : List Piece)
      → Wrote w (colon ∷ ps)
      → Wrote (o.raw_string "null" w) (null ∷ colon ∷ ps)
  pub string-wrote :
      (s : String) (w : o.Writer) (ps : List Piece)
      → Wrote w ps
      → Wrote (o.string s w) (text s ∷ ps)
  pub bool-wrote :
      (b : Bool) (w : o.Writer) (ps : List Piece)
      → Wrote w (colon ∷ ps)
      → Wrote (o.bool b w) (truth b ∷ colon ∷ ps)
  pub raw-wrote :
      (d : Data) (v : Value) (w : o.Writer) (ps : List Piece)
      → Holds d v
      → Wrote w (colon ∷ ps)
      → Wrote (o.raw (ok d) w) (any v ∷ colon ∷ ps)
  pub build-reads :
      (w : o.Writer) (ps : List Piece)
      → Wrote w ps
      → (d : Data) × (o.build w ≡ ok d) × r.Reads (j.of_data d) (turned ps [])

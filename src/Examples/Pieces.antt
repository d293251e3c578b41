-- ===== src/Examples/Pieces.antt =====
-- A lexer and a writer that work on pieces of JSON, in place of those of package easyjson.
pub mod Laws
use Prim.Native.String.{[], ◌∷◌}
use splunk_firehose_nozzle.Base.{
  ℕ, suc, ◌-◌, ◌≤◌, ◌<◌, String, code, Bool, true, false, Option, none, some, List, length, eqb,
  leb, ◌≡◌, refl, ap, ◌∙◌, arith, if◌then◌else◌, ◌==◌,
}
use splunk_firehose_nozzle.Base.Result.{Result, ok, err}
use splunk_firehose_nozzle.Value.{Value, str}
use splunk_firehose_nozzle.Cache.Json.{
  Jlexer, Jwriter, Member, name_case, guid_case, space_name_case, space_guid_case, org_name_case,
  org_guid_case, cf_app_env_case, ignored_app_case,
}
use splunk_firehose_nozzle.Cache.Json.Laws.{
  Piece, brace, colon, comma, null, text, truth, any, is_brace, is_scalar, is_token, key_of,
  quoted_key, turned, MovesForward, ReadsPieces, WritesPieces,
}

-- The lexer: the pieces that are left, or an error.
abbrev pub Pieces : Type 0
Pieces = Option (List Piece)

abbrev pub left : Pieces → ℕ
left none = 0
left (some ps) = length ps

-- IsNull looks at a token
abbrev pub null_ahead : Pieces → Bool
null_ahead (some (List.◌∷◌ null ps)) = true
null_ahead _ = false

abbrev pub delim_ahead : ℕ → Pieces → Bool × Pieces
delim_ahead c none = (true, none)
delim_ahead c (some List.[]) = (true, none)
delim_ahead c (some (List.◌∷◌ p ps)) =
    if is_token p then (is_brace c p, some (List.◌∷◌ p ps)) else (true, none)

abbrev pub take_delim : ℕ → Pieces → Pieces
take_delim c none = none
take_delim c (some List.[]) = none
take_delim c (some (List.◌∷◌ p ps)) = if is_brace c p then some ps else none

abbrev pub skip_piece : Pieces → Pieces
skip_piece none = none
skip_piece (some List.[]) = none
skip_piece (some (List.◌∷◌ p ps)) = some ps

-- up to the brace that closes the depth-th open one
abbrev pub skip_open : ℕ → List Piece → Pieces
skip_open depth List.[] = none
skip_open depth (List.◌∷◌ p ps) =
    let deeper = skip_open (suc depth) ps in
    let same = skip_open depth ps in
    let higher = skip_open (depth - 1) ps in
    if is_brace b'{' p
    then deeper
    else if is_brace b'}' p
    then (if leb depth 1 then some ps else higher)
    else same

abbrev pub skip_value : Pieces → Pieces
skip_value none = none
skip_value (some List.[]) = none
skip_value (some (List.◌∷◌ p ps)) = if is_brace b'{' p then skip_open 1 ps else some ps

abbrev pub take_colon : Pieces → Pieces
take_colon (some (List.◌∷◌ colon ps)) = some ps
take_colon _ = none

abbrev pub take_comma : Pieces → Pieces
take_comma (some (List.◌∷◌ comma ps)) = some ps
take_comma (some (List.◌∷◌ p ps)) = if is_brace b'}' p then some (List.◌∷◌ p ps) else none
take_comma _ = none

abbrev pub take_text : Pieces → String × Pieces
take_text (some (List.◌∷◌ (text s) ps)) = (s, some ps)
take_text _ = ("", none)

abbrev pub take_truth : Pieces → Bool × Pieces
take_truth (some (List.◌∷◌ (truth b) ps)) = (b, some ps)
take_truth _ = (false, none)

abbrev pub take_any : Pieces → Value × Pieces
take_any (some (List.◌∷◌ (any v) ps)) = (v, some ps)
take_any _ = (str "", none)

abbrev pub failure : Pieces → Option String
failure none = some "parse error"
failure (some ps) = none

abbrev pub piece_lexer : Jlexer (List Piece)
piece_lexer = record {
  Lexer = Pieces;
  of_data = λ ps. some ps;
  remaining = left;
  error = failure;
  is_null = λ l. (null_ahead l, l);
  is_delim = delim_ahead;
  delim = take_delim;
  skip = skip_piece;
  skip_recursive = skip_value;
  want_colon = take_colon;
  want_comma = take_comma;
  unsafe_string = take_text;
  string = take_text;
  bool = take_truth;
  interface = take_any;
}

-- The writer: the pieces so far, the last one first, or an error.
abbrev pub onto : (List Piece → List Piece) → Pieces → Pieces
onto f none = none
onto f (some ps) = some (f ps)

abbrev pub piece_of_byte : ℕ → Piece
piece_of_byte c = if eqb c b',' then comma else if eqb c b':' then colon else brace c

abbrev pub up_to_quote : String → String
up_to_quote [] = []
up_to_quote (c ∷ s) = if eqb (code c) b'"' then [] else c ∷ up_to_quote s

abbrev pub behind_quote : String → String
behind_quote [] = []
behind_quote (c ∷ s) = up_to_quote s

abbrev pub write_string : String → Pieces → Pieces
write_string s = onto (λ ps.
    if s == "null" then List.◌∷◌ null ps else List.◌∷◌ colon (List.◌∷◌ (text (behind_quote s)) ps))

abbrev pub write_raw : Result String (List Piece) → Pieces → Pieces
write_raw (ok d) l = onto (turned d) l
write_raw (err e) l = none

abbrev pub build_text : Pieces → Result String (List Piece)
build_text none = err "write error"
build_text (some ps) = ok (turned ps List.[])

abbrev pub piece_writer : Jwriter (List Piece)
piece_writer = record {
  Writer = Pieces;
  new = some List.[];
  raw_byte = λ c. onto (λ ps. List.◌∷◌ (piece_of_byte c) ps);
  raw_string = write_string;
  string = λ s. onto (λ ps. List.◌∷◌ (text s) ps);
  bool = λ b. onto (λ ps. List.◌∷◌ (truth b) ps);
  raw = write_raw;
  build = build_text;
}

-- ===== src/Examples/Pieces/Laws.antt =====
-- The lexer and the writer of pieces do what is relied on of easyjson's.
use splunk_firehose_nozzle.Base.{
  ℕ, suc, ◌-◌, ◌≤◌, ◌<◌, Bool, true, false, none, some, List, length, ◌≡◌, refl, ap, ◌∙◌, arith,
}
use splunk_firehose_nozzle.Cache.Json.{
  Member, name_case, guid_case, space_name_case, space_guid_case, org_name_case, org_guid_case,
  cf_app_env_case, ignored_app_case,
}
use splunk_firehose_nozzle.Cache.Json.Laws.{
  Piece, brace, colon, text, any, is_brace, is_scalar, is_token, key_of, quoted_key, turned,
  MovesForward, ReadsPieces, WritesPieces,
}
use splunk_firehose_nozzle.Examples.Pieces.{
  Pieces, left, null_ahead, delim_ahead, take_delim, skip_piece, skip_open, skip_value, take_colon,
  take_comma, take_text, failure, write_string, build_text, piece_lexer, piece_writer,
}

skip_open-forward : (depth : ℕ) (ps : List Piece) → left (skip_open depth ps) ≤ length ps
skip_open-forward depth List.[] = omega arith
skip_open-forward depth (List.◌∷◌ p ps) = ground (
  arith,
  skip_open-forward (suc depth) ps,
  skip_open-forward depth ps,
  skip_open-forward (depth - 1) ps,
)

past_text : (l : Pieces) → left (take_text l).1 ≤ left l
past_text l = ground (arith, l)

past_token :
    (c : ℕ) (l : Pieces)
    → (delim_ahead c l).0 ≡ false
    → left (take_text (delim_ahead c l).1).1 < left l
past_token c none h = absurd (ground (arith, h))
past_token c (some List.[]) h = absurd (ground (arith, h))
past_token c (some (List.◌∷◌ p ps)) h = ground (arith, h, p)

past_delim : (c : ℕ) (l : Pieces) → left (delim_ahead c l).1 ≤ left l
past_delim c none = omega arith
past_delim c (some List.[]) = omega arith
past_delim c (some (List.◌∷◌ p ps)) = ground (arith, p)

past_taken : (c : ℕ) (l : Pieces) → left (take_delim c l) ≤ left l
past_taken c none = omega arith
past_taken c (some List.[]) = omega arith
past_taken c (some (List.◌∷◌ p ps)) = ground (arith, p)

past_value : (l : Pieces) → left (skip_value l) ≤ left l
past_value none = omega arith
past_value (some List.[]) = omega arith
past_value (some (List.◌∷◌ p ps)) = ground (arith, p, skip_open-forward 1 ps)

past_comma : (l : Pieces) → left (take_comma l) ≤ left l
past_comma none = omega arith
past_comma (some List.[]) = omega arith
past_comma (some (List.◌∷◌ p ps)) = ground (arith, p)

pub piece_lexer-MovesForward : MovesForward piece_lexer
piece_lexer-MovesForward = record {
  is_null-forward = λ l. omega arith;
  is_delim-forward = past_delim;
  delim-forward = past_taken;
  skip-forward = λ l. ground (arith, l);
  skip_recursive-forward = past_value;
  want_colon-forward = λ l. ground (arith, l);
  want_comma-forward = past_comma;
  string-forward = past_text;
  bool-forward = λ l. ground (arith, l);
  interface-forward = λ l. ground (arith, l);
  unsafe_string-past = past_token;
  string-past = past_token;
}

pub no_null :
    (p : Piece) (ps : List Piece) → is_scalar p ≡ true → null_ahead (some (List.◌∷◌ p ps)) ≡ false
no_null p ps h = ground (arith, h, p)

pub token_ahead :
    (c : ℕ) (p : Piece) (ps : List Piece)
    → is_token p ≡ true
    → delim_ahead c (some (List.◌∷◌ p ps)) ≡ (is_brace c p, some (List.◌∷◌ p ps))
token_ahead c p ps h = rw h refl

pub brace_taken : (c : ℕ) (ps : List Piece) → take_delim c (some (List.◌∷◌ (brace c) ps)) ≡ some ps
brace_taken c ps = ground arith

abbrev pub piece_reads : ReadsPieces piece_lexer
piece_reads = record {
  Reads = λ l ps. l ≡ some ps;
  Reads-length = λ l ps h. rw h (omega arith);
  is_null-null = λ l ps h. rw h (refl, refl);
  is_null-scalar = λ l p ps scalar h. rw h (no_null p ps scalar, refl);
  is_delim-reads = λ c l p ps token h. (
    ap (λ (x : Pieces). (delim_ahead c x).0) h
        ∙ ap (λ (x : Bool × Pieces). x.0) (token_ahead c p ps token),
    ap (λ (x : Pieces). (delim_ahead c x).1) h
        ∙ ap (λ (x : Bool × Pieces). x.1) (token_ahead c p ps token),
  );
  delim-reads = λ c l ps h. ap (take_delim c) h ∙ brace_taken c ps;
  skip-null = λ l ps h. ap skip_piece h;
  want_colon-reads = λ l ps h. ap take_colon h;
  want_comma-reads = λ l ps h. ap take_comma h;
  want_comma-last = λ l ps h. ap take_comma h;
  unsafe_string-reads = λ l s ps h. rw h (refl, refl);
  string-reads = λ l s ps h. rw h (refl, refl);
  bool-reads = λ l b ps h. rw h (refl, refl);
  interface-reads = λ l v ps h. rw h (refl, refl);
  error-none = λ l h. ap failure h;
}

pub key_written :
    (m : Member) (ps : List Piece)
    → write_string (quoted_key m) (some ps) ≡ some (List.◌∷◌ colon (List.◌∷◌ (text (key_of m)) ps))
key_written name_case ps = refl
key_written guid_case ps = refl
key_written space_name_case ps = refl
key_written space_guid_case ps = refl
key_written org_name_case ps = refl
key_written org_guid_case ps = refl
key_written cf_app_env_case ps = refl
key_written ignored_app_case ps = refl

abbrev pub piece_writes : WritesPieces piece_writer piece_lexer piece_reads
piece_writes = record {
  Wrote = λ w ps. w ≡ some ps;
  Holds = λ d v. d ≡ List.◌∷◌ (any v) List.[];
  new-wrote = refl;
  open-wrote = λ w ps h. rw h refl;
  close-wrote = λ w ps h. rw h refl;
  comma-wrote = λ w ps h. rw h refl;
  colon-wrote = λ w ps h. rw h refl;
  key-wrote = λ m w ps h. ap (write_string (quoted_key m)) h ∙ key_written m ps;
  null-wrote = λ w ps h. rw h refl;
  string-wrote = λ s w ps h. rw h refl;
  bool-wrote = λ b w ps h. rw h refl;
  raw-wrote = λ d v w ps holds h. rw (h, holds) refl;
  build-reads = λ w ps h. (turned ps List.[], ap build_text h, refl);
}

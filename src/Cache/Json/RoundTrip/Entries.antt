-- ===== src/Cache/Json/RoundTrip/Entries.antt =====
-- The entries of CfAppEnv, written and read.
use splunk_firehose_nozzle.Base.{
  ℕ, zero, suc, ◌+◌, ◌≤◌, ◌<◌, String, Bool, true, false, none, some, List, [], ◌∷◌, ◌++◌, length,
  ◌≡◌, refl, sym, ◌∙◌, ap, arith, ◌==◌, subst, eq_iff,
}
use splunk_firehose_nozzle.Base.Dict.{Dict, IsMap, lookup, insert}
use splunk_firehose_nozzle.Base.Result.{Result, ok}
use splunk_firehose_nozzle.Value.{Value}
use splunk_firehose_nozzle.Cache.Json.{Jlexer, Jwriter, decode_env, encode_entries}
use splunk_firehose_nozzle.Cache.Json.Laws.{
  Piece, brace, colon, comma, text, any, turned, ReadsPieces, WritesPieces,
}

-- the pieces of the entries, in front of the rest
abbrev pub entry_pieces : Bool → Dict Value → List Piece → List Piece
entry_pieces first [] rest = rest
entry_pieces true ((k, v) ∷ env) rest = text k ∷ colon ∷ any v ∷ entry_pieces false env rest
entry_pieces false ((k, v) ∷ env) rest =
    comma ∷ text k ∷ colon ∷ any v ∷ entry_pieces false env rest

pub length-entry_pieces :
    (first : Bool) (env : Dict Value) (rest : List Piece)
    → length env + length rest ≤ length (entry_pieces first env rest)
length-entry_pieces first [] rest = omega arith
length-entry_pieces true ((k, v) ∷ env) rest = omega (arith, length-entry_pieces false env rest)
length-entry_pieces false ((k, v) ∷ env) rest = omega (arith, length-entry_pieces false env rest)

insert_fresh :
    (k : String) (v : Value) (acc : Dict Value)
    → lookup k acc ≡ none
    → insert k v acc ≡ acc ++ (k, v) ∷ []
unfolding insert lookup
insert_fresh k v [] h = refl
insert_fresh k v ((at, held) ∷ acc) h = ground (arith, h, insert_fresh k v acc)

abbrev pub insert_all : Dict Value → Dict Value → Dict Value
insert_all [] acc = acc
insert_all ((k, v) ∷ env) acc = insert_all env (insert k v acc)

front_other :
    (k at : String) (v : Value) (acc env : Dict Value)
    → lookup at (acc ++ (k, v) ∷ env) ≡ none
    → (k == at) ≡ false
unfolding lookup
front_other k at v [] env h = ground (arith, h)
front_other k at v ((b, held) ∷ acc) env h = ground (arith, h, front_other k at v acc env)

lookup-front :
    (k : String) (v : Value) (acc env : Dict Value)
    → IsMap (acc ++ (k, v) ∷ env)
    → lookup k acc ≡ none
unfolding lookup
lookup-front k v [] env h = refl
lookup-front k v ((at, held) ∷ acc) env (fresh, h) =
    let other : (k == at) ≡ false = front_other k at v acc env fresh in
    ground (arith, other, lookup-front k v acc env h, eq_iff at k, eq_iff k at)

regroup : (x : String × Value) (acc env : Dict Value) → (acc ++ x ∷ []) ++ env ≡ acc ++ x ∷ env
regroup x [] env = refl
regroup x (y ∷ acc) env = ap (λ (m : Dict Value). y ∷ m) (regroup x acc env)

at_end : (acc : Dict Value) → acc ≡ acc ++ []
at_end [] = refl
at_end (y ∷ acc) = ap (λ (m : Dict Value). y ∷ m) (at_end acc)

insert_all_append : (env acc : Dict Value) → IsMap (acc ++ env) → insert_all env acc ≡ acc ++ env
insert_all_append [] acc h = at_end acc
insert_all_append ((k, v) ∷ env) acc h =
    ap (insert_all env) (insert_fresh k v acc (lookup-front k v acc env h))
    ∙ insert_all_append env (acc ++ (k, v) ∷ []) (subst IsMap (sym (regroup (k, v) acc env)) h)
    ∙ regroup (k, v) acc env

-- A map whose entries are put into an empty one is the map again.
pub insert_all-IsMap : (env : Dict Value) → IsMap env → insert_all env [] ≡ env
insert_all-IsMap env h = insert_all_append env [] h

module _ {Data : Type 0} (j : Jlexer Data) (r : ReadsPieces j) where
  after_entry :
      (l : j.Lexer) (env : Dict Value) (ps : List Piece)
      → r.Reads l (entry_pieces false env (brace b'}' ∷ ps))
      → r.Reads (j.want_comma l) (entry_pieces true env (brace b'}' ∷ ps))
  after_entry l [] ps h = r.want_comma-last l ps h
  after_entry l ((k, v) ∷ env) ps h = r.want_comma-reads l _ h

  pub decode_env-reads :
      (n : ℕ) (l : j.Lexer) (env acc : Dict Value) (ps : List Piece)
      → length env < n
      → r.Reads l (entry_pieces true env (brace b'}' ∷ ps))
      → (l' : j.Lexer) × (decode_env j n l acc ≡ some (insert_all env acc, l')) × r.Reads l' ps
  unfolding decode_env
  decode_env-reads zero l env acc ps lt h = absurd (omega arith)
  decode_env-reads (suc n) l [] acc ps lt h =
      let (closed, at) = r.is_delim-reads b'}' l (brace b'}') ps refl h in
      let l1 = (j.is_delim b'}' l).1 in
      (j.delim b'}' l1, rw (closed, decode_env) refl, r.delim-reads b'}' l1 ps at)
  decode_env-reads (suc n) l ((k, v) ∷ env) acc ps lt h =
      let (more, at) = r.is_delim-reads b'}' l (text k) _ refl h in
      let l1 = (j.is_delim b'}' l).1 in
      let (is_k, at2) = r.string-reads l1 k _ at in
      let l2 = j.want_colon (j.string l1).1 in
      let (is_v, at3) = r.interface-reads l2 v _ (r.want_colon-reads _ _ at2) in
      let l3 = j.want_comma (j.interface l2).1 in
      let (l', e, end) =
        decode_env-reads n l3 env (insert k v acc) ps (omega (arith, lt))
          (after_entry _ env ps at3) in
      (l', rw (more, decode_env, is_k, is_v) e, end)

-- the value can be encoded, and JSON does not change it
module _ {Data : Type 0} (marshal_value : Value → Result String Data) (o : Jwriter Data)
    (j : Jlexer Data) (r : ReadsPieces j) (w : WritesPieces o j r) where
  abbrev pub AllKept : Dict Value → Type 0
  AllKept [] = Unit
  AllKept ((k, v) ∷ env) = ((d : Data) × (marshal_value v ≡ ok d) × w.Holds d v) × AllKept env

  -- The writer has written ps, last piece first, and then the pieces that `next` puts in front.
  abbrev pub Then : List Piece → (List Piece → List Piece) → o.Writer → Type 0
  Then ps next to =
      (qs : List Piece) × w.Wrote to qs
      × ((rest : List Piece) → turned qs rest ≡ turned ps (next rest))

  pub encode_entries-wrote :
      (first : Bool) (env : Dict Value) (from : o.Writer) (ps : List Piece)
      → AllKept env
      → w.Wrote from ps
      → Then ps (entry_pieces first env) (encode_entries o marshal_value first env from)
  unfolding encode_entries
  encode_entries-wrote first [] from ps kept h = (ps, h, λ rest. refl)
  encode_entries-wrote true ((k, v) ∷ env) from ps ((d, m, holds), kept) h =
      let (qs, at, e) =
        encode_entries-wrote false env _ _ kept
          (w.raw-wrote d v _ _ holds (w.colon-wrote _ _ (w.string-wrote k _ _ h))) in
      (qs, rw (m, encode_entries) at, e)
  encode_entries-wrote false ((k, v) ∷ env) from ps ((d, m, holds), kept) h =
      let (qs, at, e) = encode_entries-wrote false env _ _ kept (
        w.raw-wrote d v _ _ holds
          (w.colon-wrote _ _ (w.string-wrote k _ _ (w.comma-wrote _ _ h)))) in
      (qs, rw (m, encode_entries) at, e)

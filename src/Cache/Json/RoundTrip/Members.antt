-- ===== src/Cache/Json/RoundTrip/Members.antt =====
-- One member of an app, read: the switch of the decoder on the key, and one turn of its loop.
use splunk_firehose_nozzle.Base.{
  ℕ, suc, All, ◌<◌, String, Bool, true, false, some, List, [], ◌∷◌, length, ◌≡◌, refl, ◌∙◌, arith,
}
use splunk_firehose_nozzle.Base.Dict.{Dict}
use splunk_firehose_nozzle.Value.{Value}
use splunk_firehose_nozzle.Cache.App.{App}
use splunk_firehose_nozzle.Cache.Json.{
  Jlexer, Member, name_case, guid_case, space_name_case, space_guid_case, org_name_case,
  org_guid_case, cf_app_env_case, ignored_app_case, member_of, set_env, decode_member, decode_next,
  decode_members,
}
use splunk_firehose_nozzle.Cache.Json.Laws.{
  Piece, brace, colon, comma, null, text, truth, is_scalar, key_of, ReadsPieces,
}
use splunk_firehose_nozzle.Cache.Json.RoundTrip.Entries.{entry_pieces, insert_all, decode_env-reads}

-- the field of a case that holds a string
abbrev pub set_string : Member → String → App → App
set_string name_case s out = record out { name = s }
set_string guid_case s out = record out { guid = s }
set_string space_name_case s out = record out { space_name = s }
set_string space_guid_case s out = record out { space_guid = s }
set_string org_name_case s out = record out { org_name = s }
set_string org_guid_case s out = record out { org_guid = s }
set_string _ s out = out

abbrev pub is_string_case : Member → Bool
is_string_case cf_app_env_case = false
is_string_case ignored_app_case = false
is_string_case _ = true

abbrev pub set_strings : List (Member × String) → App → App
set_strings [] out = out
set_strings ((m, s) ∷ ms) out = set_strings ms (set_string m s out)

-- the turns of the loop that read members, before n further ones
abbrev pub turns : List (Member × String) → ℕ → ℕ
turns [] n = n
turns (m ∷ ms) n = suc (turns ms n)

abbrev pub string_pieces : List (Member × String) → List Piece → List Piece
string_pieces [] rest = rest
string_pieces ((m, s) ∷ ms) rest = text (key_of m) ∷ colon ∷ text s ∷ comma ∷ string_pieces ms rest

member_of-key_of : (m : Member) → member_of (key_of m) ≡ some m
unfolding member_of
member_of-key_of name_case = refl
member_of-key_of guid_case = refl
member_of-key_of space_name_case = refl
member_of-key_of space_guid_case = refl
member_of-key_of org_name_case = refl
member_of-key_of org_guid_case = refl
member_of-key_of cf_app_env_case = refl
member_of-key_of ignored_app_case = refl

module _ {Data : Type 0} (j : Jlexer Data) (r : ReadsPieces j) where
  decode_member-string :
      (n : ℕ) (m : Member) (s : String) (l : j.Lexer) (out : App)
      → is_string_case m ≡ true
      → (j.string l).0 ≡ s
      → decode_member j n (some m) l out ≡ some (set_string m s out, (j.string l).1)
  unfolding decode_member
  decode_member-string n name_case s l out h e = rw e refl
  decode_member-string n guid_case s l out h e = rw e refl
  decode_member-string n space_name_case s l out h e = rw e refl
  decode_member-string n space_guid_case s l out h e = rw e refl
  decode_member-string n org_name_case s l out h e = rw e refl
  decode_member-string n org_guid_case s l out h e = rw e refl
  decode_member-string n cf_app_env_case s l out h e = absurd (ground (arith, h))
  decode_member-string n ignored_app_case s l out h e = absurd (ground (arith, h))

  -- The body of the loop where the value is not null: what the switch makes of it.
  decode_next-case :
      (n : ℕ) (m : Member) (p : Piece) (l : j.Lexer) (out : App) (ps : List Piece)
      → is_scalar p ≡ true
      → r.Reads l (text (key_of m) ∷ colon ∷ p ∷ ps)
      → (l' : j.Lexer) × (decode_next j n l out ≡ decode_member j n (some m) l' out)
        × r.Reads l' (p ∷ ps)
  unfolding decode_next
  decode_next-case n m p l out ps scalar h =
      let (is_key, at) = r.unsafe_string-reads l (key_of m) _ h in
      let l1 = j.want_colon (j.unsafe_string l).1 in
      let (there, at1) = r.is_null-scalar l1 p ps scalar (r.want_colon-reads _ _ at) in
      ((j.is_null l1).1, rw (there, decode_next, is_key, member_of-key_of m) refl, at1)

  -- One turn of the loop.
  decode_members-next :
      (n : ℕ) (m : Member) (l : j.Lexer) (out out' : App) (ps qs : List Piece)
      → r.Reads l (text (key_of m) ∷ ps)
      → ((l1 : j.Lexer)
          → r.Reads l1 (text (key_of m) ∷ ps)
          → (l2 : j.Lexer) × (decode_next j n l1 out ≡ some (out', l2))
            × r.Reads (j.want_comma l2) qs)
      → (l' : j.Lexer) × (decode_members j (suc n) l out ≡ decode_members j n l' out')
        × r.Reads l' qs
  unfolding decode_members
  decode_members-next n m l out out' ps qs h step =
      let (more, at) = r.is_delim-reads b'}' l (text (key_of m)) ps refl h in
      let (l2, e, at2) = step (j.is_delim b'}' l).1 at in
      (j.want_comma l2, rw (more, decode_members, e) refl, at2)

  decode_members-string :
      (n : ℕ) (m : Member) (s : String) (l : j.Lexer) (out : App) (ps : List Piece)
      → is_string_case m ≡ true
      → r.Reads l (text (key_of m) ∷ colon ∷ text s ∷ comma ∷ ps)
      → (l' : j.Lexer) × (decode_members j (suc n) l out
          ≡ decode_members j n l' (set_string m s out))
        × r.Reads l' ps
  decode_members-string n m s l out ps h at =
      decode_members-next n m l out (set_string m s out) _ ps at (λ l1 at1.
        let (l2, e, at2) = decode_next-case n m (text s) l1 out (comma ∷ ps) refl at1 in
        let (is_s, at3) = r.string-reads l2 s (comma ∷ ps) at2 in
        (
          (j.string l2).1,
          e ∙ decode_member-string n m s l2 out h is_s,
          r.want_comma-reads _ ps at3,
        ))

  pub decode_members-bool :
      (n : ℕ) (b : Bool) (l : j.Lexer) (out : App) (ps : List Piece)
      → r.Reads l (text "IgnoredApp" ∷ colon ∷ truth b ∷ brace b'}' ∷ ps)
      → (l' : j.Lexer) × (decode_members j (suc n) l out
          ≡ decode_members j n l' (record out { ignored_app = b }))
        × r.Reads l' (brace b'}' ∷ ps)
  unfolding decode_member
  decode_members-bool n b l out ps at =
      decode_members-next n ignored_app_case l out (record out { ignored_app = b }) _ _ at
        (λ l1 at1.
          let (l2, e, at2) = decode_next-case n ignored_app_case (truth b) l1 out _ refl at1 in
          let (is_b, at3) = r.bool-reads l2 b _ at2 in
          ((j.bool l2).1, e ∙ (rw is_b refl), r.want_comma-last _ ps at3))

  -- Members with strings, one after the other.
  pub decode_members-strings :
      (n : ℕ) (ms : List (Member × String)) (l : j.Lexer) (out : App) (rest : List Piece)
      → All (λ (m : Member × String). is_string_case m.0 ≡ true) ms
      → r.Reads l (string_pieces ms rest)
      → (l' : j.Lexer) × (decode_members j (turns ms n) l out
          ≡ decode_members j n l' (set_strings ms out))
        × r.Reads l' rest
  decode_members-strings n [] l out rest all at = (l, refl, at)
  decode_members-strings n ((m, s) ∷ ms) l out rest (h, all) at =
      let (l1, e, at1) =
        decode_members-string (turns ms n) m s l out (string_pieces ms rest) h at in
      let (l2, e', at2) = decode_members-strings n ms l1 (set_string m s out) rest all at1 in
      (l2, e ∙ e', at2)

  -- CfAppEnv, an object or null
  abbrev pub env_pieces : Bool → Dict Value → List Piece → List Piece
  env_pieces true env rest = brace b'{' ∷ entry_pieces true env (brace b'}' ∷ rest)
  env_pieces false env rest = null ∷ rest

  abbrev pub read_env : Bool → Dict Value → App → App
  read_env true env out = record out { cf_app_env = insert_all env [] }
  read_env false env out = out

  decode_member-env :
      (n : ℕ) (env : Dict Value) (l : j.Lexer) (out : App) (ps : List Piece)
      → length env < n
      → r.Reads l (env_pieces true env ps)
      → (l' : j.Lexer) × (decode_member j n (some cf_app_env_case) l out
          ≡ some (read_env true env out, l'))
        × r.Reads l' ps
  unfolding decode_member set_env
  decode_member-env n env l out ps lt h =
      let (there, at) = r.is_null-scalar l (brace b'{') _ refl h in
      let opened = j.delim b'{' (j.is_null l).1 in
      let (l', e, end) =
        decode_env-reads j r n (j.is_delim b'}' opened).1 env [] ps lt
          (peeked opened env ps (r.delim-reads b'{' (j.is_null l).1 _ at)) in
      (l', rw (there, decode_member, e, set_env) refl, end)
    where
      peeked :
          (at : j.Lexer) (m : Dict Value) (qs : List Piece)
          → r.Reads at (entry_pieces true m (brace b'}' ∷ qs))
          → r.Reads (j.is_delim b'}' at).1 (entry_pieces true m (brace b'}' ∷ qs))
      peeked at [] qs h = (r.is_delim-reads b'}' at (brace b'}') _ refl h).1
      peeked at ((k, v) ∷ m) qs h = (r.is_delim-reads b'}' at (text k) _ refl h).1

  decode_next-null :
      (n : ℕ) (l : j.Lexer) (s : String) (out : App) (ps : List Piece)
      → r.Reads l (text s ∷ colon ∷ null ∷ ps)
      → (l' : j.Lexer) × (decode_next j n l out ≡ some (out, l')) × r.Reads l' ps
  unfolding decode_next
  decode_next-null n l s out ps h =
      let (is_key, at) = r.unsafe_string-reads l s _ h in
      let l1 = j.want_colon (j.unsafe_string l).1 in
      let (nothing, at1) = r.is_null-null l1 ps (r.want_colon-reads _ _ at) in
      (j.skip (j.is_null l1).1, rw (nothing, decode_next) refl, r.skip-null _ ps at1)

  pub decode_members-env :
      (n : ℕ) (made : Bool) (env : Dict Value) (l : j.Lexer) (out : App) (ps : List Piece)
      → length env < n
      → r.Reads l (text "CfAppEnv" ∷ colon ∷ env_pieces made env (comma ∷ ps))
      → (l' : j.Lexer) × (decode_members j (suc n) l out
          ≡ decode_members j n l' (read_env made env out))
        × r.Reads l' ps
  decode_members-env n true env l out ps lt at =
      decode_members-next n cf_app_env_case l out (read_env true env out) _ ps at (λ l1 at1.
        let (l2, e, at2) = decode_next-case n cf_app_env_case (brace b'{') l1 out _ refl at1 in
        let (l3, e', at3) = decode_member-env n env l2 out (comma ∷ ps) lt at2 in
        (l3, e ∙ e', r.want_comma-reads _ ps at3))
  decode_members-env n false env l out ps lt at =
      decode_members-next n cf_app_env_case l out out _ ps at (λ l1 at1.
        let (l2, e, at2) = decode_next-null n l1 "CfAppEnv" out (comma ∷ ps) at1 in
        (l2, e, r.want_comma-reads _ ps at2))

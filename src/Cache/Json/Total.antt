-- ===== src/Cache/Json/Total.antt =====
-- The decoder of an app ends on every input: the bytes that are left bound its loops.
use splunk_firehose_nozzle.Base.{
  ℕ, zero, suc, ◌≤◌, ◌<◌, String, Option, none, some, [], ◌≡◌, refl, arith, Bool-cases, inl, inr,
}
use splunk_firehose_nozzle.Base.Dict.{Dict, insert}
use splunk_firehose_nozzle.Value.{Value}
use splunk_firehose_nozzle.Cache.App.{App}
use splunk_firehose_nozzle.Cache.Json.{
  Jlexer, Member, name_case, guid_case, space_name_case, space_guid_case, org_name_case,
  org_guid_case, cf_app_env_case, ignored_app_case, member_of, decode_env, set_env, decode_member,
  decode_next, decode_members, decode, unmarshal_json,
}
use splunk_firehose_nozzle.Cache.Json.Laws.{MovesForward}

module _ {Data : Type 0} (j : Jlexer Data) (laws : MovesForward j) where
  -- a result, with a lexer that has at most `bound` bytes left
  abbrev Within : {A : Type 0} → ℕ → Option (A × j.Lexer) → Type 0
  Within bound r = (a : _) × (l : j.Lexer) × (r ≡ some (a, l)) × (j.remaining l ≤ bound)

  Within-mono : {A : Type 0} (b c : ℕ) (r : Option (A × j.Lexer)) → b ≤ c → Within b r → Within c r
  Within-mono b c r le (a, l, e, h) = (a, l, e, omega (arith, le, h))

  decode_env-Within :
      (n : ℕ) (l : j.Lexer) (env : Dict Value)
      → j.remaining l < n
      → Within (j.remaining l) (decode_env j n l env)
  unfolding decode_env
  decode_env-Within zero l env h = absurd (omega arith)
  decode_env-Within (suc n) l env h = elim (Bool-cases (j.is_delim b'}' l).0) [
    | inl closed ↦
        rw (closed, decode_env)
          (
            env,
            j.delim b'}' (j.is_delim b'}' l).1,
            refl,
            omega (
              arith,
              laws.delim-forward b'}' (j.is_delim b'}' l).1,
              laws.is_delim-forward b'}' l,
            ),
          )
    | inr more ↦
        let past = laws.string-past b'}' l more in
        let (key, l2) = j.string (j.is_delim b'}' l).1 in
        let (v, l3) = j.interface (j.want_colon l2) in
        let fits : j.remaining (j.want_comma l3) < j.remaining l = omega (
          arith,
          laws.string-past b'}' l more,
          laws.want_colon-forward l2,
          laws.interface-forward (j.want_colon l2),
          laws.want_comma-forward l3,
        ) in
        rw (more, decode_env)
          (Within-mono (j.remaining (j.want_comma l3)) (j.remaining l) _ (omega (arith, fits))
            (decode_env-Within n (j.want_comma l3) (insert key v env) (omega (arith, fits, h))))
  ]

  set_env-Within :
      (out : App) (b : ℕ) (r : Option (Dict Value × j.Lexer))
      → Within b r
      → Within b (set_env j out r)
  unfolding set_env
  set_env-Within out b none (env, l, e, h) = absurd (ground arith)
  set_env-Within out b (some (env', l')) (env, l, e, h) =
      (record out { cf_app_env = env' }, l', refl, ground (arith, e, h))

  decode_member-Within :
      (n : ℕ) (m : Option Member) (l : j.Lexer) (out : App)
      → j.remaining l < n
      → Within (j.remaining l) (decode_member j n m l out)
  unfolding decode_member
  decode_member-Within n none l out h =
      (out, j.skip_recursive l, refl, laws.skip_recursive-forward l)
  decode_member-Within n (some name_case) l out h = (_, (j.string l).1, refl, laws.string-forward l)
  decode_member-Within n (some guid_case) l out h = (_, (j.string l).1, refl, laws.string-forward l)
  decode_member-Within n (some space_name_case) l out h =
      (_, (j.string l).1, refl, laws.string-forward l)
  decode_member-Within n (some space_guid_case) l out h =
      (_, (j.string l).1, refl, laws.string-forward l)
  decode_member-Within n (some org_name_case) l out h =
      (_, (j.string l).1, refl, laws.string-forward l)
  decode_member-Within n (some org_guid_case) l out h =
      (_, (j.string l).1, refl, laws.string-forward l)
  decode_member-Within n (some ignored_app_case) l out h =
      (_, (j.bool l).1, refl, laws.bool-forward l)
  decode_member-Within n (some cf_app_env_case) l out h = elim (Bool-cases (j.is_null l).0) [
    | inl nothing ↦
        rw (nothing, decode_member)
          (
            out,
            j.skip (j.is_null l).1,
            refl,
            omega (arith, laws.skip-forward (j.is_null l).1, laws.is_null-forward l),
          )
    | inr there ↦
        let opened = j.delim b'{' (j.is_null l).1 in
        let l' = (j.is_delim b'}' opened).1 in
        let fits : j.remaining l' ≤ j.remaining l = omega (
          arith,
          laws.is_delim-forward b'}' opened,
          laws.delim-forward b'{' (j.is_null l).1,
          laws.is_null-forward l,
        ) in
        rw (there, decode_member)
          (set_env-Within out (j.remaining l) _ (
            Within-mono (j.remaining l') (j.remaining l) _ fits
              (decode_env-Within n l' [] (omega (arith, fits, h)))))
  ]

  decode_next-Within :
      (n : ℕ) (l : j.Lexer) (out : App)
      → j.remaining (j.unsafe_string l).1 < n
      → Within (j.remaining (j.unsafe_string l).1) (decode_next j n l out)
  unfolding decode_next
  decode_next-Within n l out h =
      let (key, l1) = j.unsafe_string l in
      let l2 = (j.is_null (j.want_colon l1)).1 in
      let fits : j.remaining l2 ≤ j.remaining l1 =
        omega (arith, laws.is_null-forward (j.want_colon l1), laws.want_colon-forward l1) in
      elim (Bool-cases (j.is_null (j.want_colon l1)).0) [
        | inl nothing ↦
            rw (nothing, decode_next)
              (out, j.skip l2, refl, omega (arith, laws.skip-forward l2, fits))
        | inr there ↦
            rw (there, decode_next)
              (Within-mono (j.remaining l2) (j.remaining l1) _ fits
                (decode_member-Within n (member_of key) l2 out (omega (arith, fits, h))))
      ]

  decode_members-Within :
      (n : ℕ) (l : j.Lexer) (out : App)
      → j.remaining l < n
      → Within (j.remaining l) (decode_members j n l out)
  unfolding decode_members
  decode_members-Within zero l out h = absurd (omega arith)
  decode_members-Within (suc n) l out h = elim (Bool-cases (j.is_delim b'}' l).0) [
    | inl closed ↦
        rw (closed, decode_members)
          (
            out,
            j.delim b'}' (j.is_delim b'}' l).1,
            refl,
            omega (
              arith,
              laws.delim-forward b'}' (j.is_delim b'}' l).1,
              laws.is_delim-forward b'}' l,
            ),
          )
    | inr more ↦
        let l1 = (j.is_delim b'}' l).1 in
        let past = laws.unsafe_string-past b'}' l more in
        let (out', l2, e, le) = decode_next-Within n l1 out (omega (arith, past, h)) in
        let fits : j.remaining (j.want_comma l2) < j.remaining l =
          omega (arith, laws.want_comma-forward l2, le, past) in
        rw (more, e, decode_members)
          (Within-mono (j.remaining (j.want_comma l2)) (j.remaining l) _ (omega (arith, fits))
            (decode_members-Within n (j.want_comma l2) out' (omega (arith, fits, h))))
  ]

  decode-Within :
      (n : ℕ) (l : j.Lexer) (out : App)
      → j.remaining l < n
      → Within (j.remaining l) (decode j n l out)
  unfolding decode
  decode-Within n l out h =
      let l1 = (j.is_null l).1 in
      elim (Bool-cases (j.is_null l).0) [
        | inl nothing ↦
            rw (nothing, decode)
              (out, j.skip l1, refl, omega (arith, laws.skip-forward l1, laws.is_null-forward l))
        | inr there ↦
            let fits : j.remaining (j.delim b'{' l1) ≤ j.remaining l =
              omega (arith, laws.delim-forward b'{' l1, laws.is_null-forward l) in
            rw (there, decode)
              (Within-mono (j.remaining (j.delim b'{' l1)) (j.remaining l) _ fits
                (decode_members-Within n (j.delim b'{' l1) out (omega (arith, fits, h))))
      ]

  -- With a lexer that only moves forward, and moves where it reads a key, decoding an app ends on
  -- every text, well-formed or not: there is an app, and the lexer's error or none.
  pub unmarshal_json_returns :
      (text : Data) (out : App)
      → (app : App) × (e : Option String) × (unmarshal_json j text out ≡ some (app, e))
  unfolding unmarshal_json
  unmarshal_json_returns text out =
      let l = j.of_data text in
      let (app, l', e, le) = decode-Within (suc (j.remaining l)) l out (omega arith) in
      (app, j.error l', rw (e, unmarshal_json) refl)

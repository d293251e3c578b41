-- ===== src/Tools/DataGen/Lines.antt =====
-- The lines that the generator prints.
use splunk_firehose_nozzle.Base.{
  ℕ, zero, suc, ◌+◌, ◌^◌, ◌<◌, List, [], ◌∷◌, ◌++◌, ◌≡◌, refl, arith, ltb, if◌then◌else◌, ap, ◌∙◌,
  false, ◌%◌, Bool-cases, inl, inr,
}
use splunk_firehose_nozzle.Base.Int.{ℤ, pos, wrap64, ltb_ℤ}
use splunk_firehose_nozzle.Tools.DataGen.{
  GenConfig, generating, generated, gen_step, gen_loop, is_enough,
}

-- 1, 2, …, n
abbrev pub ids : ℕ → List ℤ
ids zero = []
ids (suc n) = ids n ++ pos (suc n) ∷ []

wrap64-small : (n : ℕ) → n < 2 ^ 63 → wrap64 (pos n) ≡ pos n
unfolding wrap64
wrap64-small n h = ground arith

-- The tick behind k lines, whether it is the last or not.
gen_step-next :
    (c : GenConfig) (k : ℕ)
    → suc k < 2 ^ 63
    → gen_step c (generating k (ids k)) ≡ (
        if is_enough c (pos (suc k))
        then generated (ids (suc k))
        else generating (suc k) (ids (suc k)))
unfolding gen_step
gen_step-next c k lt =
    let next : (k + 1) % 2 ^ 64 ≡ suc k = omega (arith, lt) in
    rw (next, wrap64-small (suc k) lt) refl

same_ids : (k n : ℕ) → k ≡ n → ids k ≡ ids n
same_ids k n h = ap ids h

-- With a number of lines to print, below 2 ^ 63: the loop goes on while fewer ticks have come than
-- lines are asked for, with a line for each tick, numbered from 1; it ends with the last of them, and no
-- tick after that prints anything.
pub gen_loop-ids :
    (c : GenConfig) (n ticks : ℕ)
    → c.total_events ≡ pos (suc n)
    → suc n < 2 ^ 63
    → gen_loop c ticks
      ≡ (if ltb ticks (suc n) then generating ticks (ids ticks) else generated (ids (suc n)))
unfolding gen_loop
gen_loop-ids c n zero e lt = ground arith
gen_loop-ids c n (suc ticks) e lt = elim (Bool-cases (ltb ticks (suc n))) [
  | inl more ↦
      rw (gen_loop-ids c n ticks e lt, more)
        (gen_step-next c ticks (ground (arith, more, lt))
          ∙ ground (arith, e, more, same_ids ticks n))
  | inr over ↦ rw (gen_loop-ids c n ticks e lt, over) (unfold gen_step in ground (arith, over))
]

-- Without one, it never ends.
gen_loop_on :
    (c : GenConfig) (ticks : ℕ)
    → ltb_ℤ (pos 0) c.total_events ≡ false
    → ticks < 2 ^ 63
    → gen_loop c ticks ≡ generating ticks (ids ticks)
unfolding gen_loop
gen_loop_on c zero e lt = refl
gen_loop_on c (suc ticks) e lt =
    rw (gen_loop_on c ticks e (omega (arith, lt)), gen_step-next c ticks lt, e) refl

-- ===== src/Base/Family.antt =====
-- A family of states, one for each worker, and totals over its first members.
use splunk_firehose_nozzle.Base.Tests.{eqb, if◌then◌else◌}
use Prim.Native.Nat.{ℕ, zero, suc, ◌+◌, ◌≤◌, ◌<◌}
use mathlib.Core.Path.{◌≡◌, refl}
use native.Mathlib.Omega.{arith}

module _ {ℓ} {A : Type ℓ} where
  -- The family with its member at i replaced.
  abbrev pub replace : (ℕ → A) → ℕ → A → ℕ → A
  replace f i x j = if eqb i j then x else f j

  module _ (weight : A → ℕ) where
    abbrev pub weigh : ℕ → (ℕ → A) → ℕ
    weigh zero f = 0
    weigh (suc n) f = weight (f n) + weigh n f

    weigh-replace_out :
        (n : ℕ) (f : ℕ → A) (i : ℕ) (x : A) → n ≤ i → weigh n (replace f i x) ≡ weigh n f
    weigh-replace_out zero f i x h = refl
    weigh-replace_out (suc n) f i x h = ground (arith, weigh-replace_out n f i x)

    -- What one member gains, the total gains.
    pub weigh-replace :
        (n : ℕ) (f : ℕ → A) (i : ℕ) (x : A)
        → i < n
        → weigh n (replace f i x) + weight (f i) ≡ weigh n f + weight x
    weigh-replace zero f i x h = elim h [ ]
    weigh-replace (suc n) f i x h =
        ground (arith, weigh-replace n f i x, weigh-replace_out n f i x, ap_at n f i)
      where
        ap_at : (n : ℕ) (f : ℕ → A) (i : ℕ) → n ≡ i → weight (f n) ≡ weight (f i)
        ap_at n f i e = rw e

    -- A member weighs no more than all.
    pub weight-le-weigh : (n : ℕ) (f : ℕ → A) (i : ℕ) → i < n → weight (f i) ≤ weigh n f
    weight-le-weigh zero f i h = elim h [ ]
    weight-le-weigh (suc n) f i h = ground (arith, weight-le-weigh n f i, same_weight n f i)
      where
        same_weight : (n : ℕ) (f : ℕ → A) (i : ℕ) → n ≡ i → weight (f n) ≡ weight (f i)
        same_weight n f i e = rw e

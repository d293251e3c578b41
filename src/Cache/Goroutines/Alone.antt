-- ===== src/Cache/Goroutines/Alone.antt =====
-- A goroutine that no other one interrupts: its steps and the operations of cache/boltdb.go as a whole.
pub mod Names
pub mod Agrees
pub mod Whole
pub mod Refresh
pub mod Every
use splunk_firehose_nozzle.Base.{ℕ, zero, suc, ◌+◌, ◌≡◌, refl, ◌∙◌, arith, ap}
use splunk_firehose_nozzle.Base.Int.{ℤ}
use splunk_firehose_nozzle.Cache.Names.{AppClient}
use splunk_firehose_nozzle.Cache.Boltdb.{BoltdbConfig, Storage}
use splunk_firehose_nozzle.Cache.Goroutines.{Pc, Memory, advance}

module _ (st : Storage) (config : BoltdbConfig) (client : AppClient) (now : ℤ) where
  -- n accesses of one goroutine.
  abbrev pub turns : ℕ → Pc × Memory st → Pc × Memory st
  turns zero x = x
  turns (suc n) x = turns n (advance st config client now x.0 x.1)

  abbrev pub Comes : Pc × Memory st → Pc × Memory st → Type 0
  Comes x y = (n : ℕ) × (turns n x ≡ y)

  pub Comes-then : (x y z : Pc × Memory st) → Comes x y → Comes y z → Comes x z
  Comes-then x y z (zero, h) (m, k) = (m, ap (turns m) h ∙ k)
  Comes-then x y z (suc n, h) z_from =
      let (l, e) = Comes-then (advance st config client now x.0 x.1) y z (n, h) z_from in (suc l, e)

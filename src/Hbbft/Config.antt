-- ===== src/Hbbft/Config.antt =====
-- The configuration shared by the protocols (sbc/hbbft/honey_badger.go).
use bloc.Prelude.{ℕ, ◌-◌, ◌/◌, List, ◌==◌, if◌then◌else◌}

-- `n` and `f` are Go ints of a configured network, so they are not negative.
pub record Config : Type 0 where
  pub n : ℕ
  pub f : ℕ
  pub id : ℕ
  pub nodes : List ℕ
  pub batch_size : ℕ

-- The default number of faulty nodes, which each protocol's constructor fills in. For n = 0 both
-- the source's division and this one give 0.
unfoldable pub with_default_f : Config → Config
with_default_f c = if c.f == 0 then record c { f = (c.n - 1) / 3 } else c

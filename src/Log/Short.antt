-- ===== src/Log/Short.antt =====
-- The log that mkfs makes is one block short of what `begin_op` of kernel/log.c lets operations fill.
use os_assignment.Prelude.{ℕ, zero, suc, ◌<◌, ◌≡◌, false, List, [], ◌∷◌, ◌++◌}
use os_assignment.Log.{nlog, logsize, Log}
use os_assignment.Log.Space.{Run}

-- Three operations at work, when blocks `b 0` to `b (i - 1)` have been written.
module _ (b : ℕ → ℕ) (apart : (i j : ℕ) → i < logsize → j < logsize → b i ≡ b j → i ≡ j) where
  firsts : ℕ → List ℕ
  firsts zero = []
  firsts (suc i) = firsts i ++ (b i ∷ [])

  abbrev at : ℕ → List ℕ → Run
  at i ops = record {
    log = record { size = nlog; outstanding = 3; committing = false; lh = firsts i };
    ops = ops;
  }

  abbrev begun : ℕ → List ℕ → Run
  begun k ops = record {
    log = record { size = nlog; outstanding = k; committing = false; lh = [] };
    ops = ops;
  }

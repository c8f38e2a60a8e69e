-- ===== src/Log/Tests.antt =====
-- The log of kernel/log.c at a transaction of two blocks, and the log that mkfs makes.
use os_assignment.Prelude.{ℕ, ◌+◌, ◌⊎◌, inr, refl, false, [], ◌∷◌, arith, take}
use os_assignment.Log.{nlog, Disk, apply_all, commit, recover_from_log}
use os_assignment.Log.Recovery.{HomeAll}
use os_assignment.Log.Crash.{IsOld, IsNew, commit_crash_safe}
use os_assignment.Log.Space.{Run}

abbrev empty_disk : Disk ℕ
empty_disk = record { block = λ n. 0; head = [] }

abbrev cached : ℕ → ℕ
cached n = n + 7

pair_homes : HomeAll 2 31 (50 ∷ 60 ∷ [])
pair_homes = (inr (omega arith), (inr (omega arith), tt))

-- Blocks 50 and 60 are committed by a log of 31 blocks from block 2 on.
commit_crash_safe_example :
    ((n : ℕ)
      → let r =
          recover_from_log 2
            (apply_all empty_disk (take n (commit 2 cached (50 ∷ 60 ∷ [])).writes)) in
        IsOld 2 31 empty_disk cached (50 ∷ 60 ∷ []) r
        ⊎ IsNew 2 31 empty_disk cached (50 ∷ 60 ∷ []) r)
    × IsNew 2 31 empty_disk cached
        (50 ∷ 60 ∷ [])
        (recover_from_log 2 (apply_all empty_disk (commit 2 cached (50 ∷ 60 ∷ [])).writes))
commit_crash_safe_example =
    commit_crash_safe 2 31 empty_disk cached (50 ∷ 60 ∷ []) refl pair_homes (omega arith)

abbrev busy_run : Run
busy_run = record {
  log = record { size = nlog; outstanding = 1; committing = false; lh = [] };
  ops = 10 ∷ [];
}

-- ===== src/Tournament/Invariant.antt =====
-- What is true of the processes and of the lock table whenever the processes of one tournament run.
pub mod Moves
use os_assignment.Prelude.{ℕ, zero, suc, ◌+◌, ◌-◌, ◌^◌, ◌≤◌, ◌<◌, ◌≡◌, ◌≢◌, refl, true, some, arith}
use os_assignment.Prelude.Int.{ℤ, pos}
use os_assignment.Peterson.{npetersonlocks, Slot, Table, flag}
use os_assignment.Tournament.{
  Lib, Pc, idle, climbing, sleeping, critical, leaving, broken, role_at, group_at, array_index,
  lock_call, call_at, magnitude,
}
use os_assignment.Tournament.Levels.{array_index-lt}

-- The library state of process `i` in a tree of `levels` levels whose array holds the ids `ids`.
pub record IsMember (levels : ℕ) (ids : ℕ → ℕ) (lib : Lib) (i : ℕ) : Type 0 where
  pub array : ℕ → ℤ
  pub has : lib.lock_ids ≡ some array
  pub stores : (j : ℕ) → j < 2 ^ levels - 1 → array j ≡ pos (ids j)
  pub total : lib.num_total_locks ≡ 2 ^ levels - 1
  pub count : lib.n_processes ≡ 2 ^ levels
  pub height : lib.l_levels ≡ levels
  pub me : lib.my_id ≡ pos i

-- The kernel ids of the tree are valid and differ from one another.
pub record IsTree (levels : ℕ) (ids : ℕ → ℕ) (libs : ℕ → Lib) : Type 0 where
  pub member : (i : ℕ) → i < 2 ^ levels → IsMember levels ids (libs i) i
  pub valid : (j : ℕ) → j < 2 ^ levels - 1 → ids j < npetersonlocks
  pub distinct : (j k : ℕ) → j < 2 ^ levels - 1 → k < 2 ^ levels - 1 → ids j ≡ ids k → j ≡ k

pub lock_call-member :
    (levels : ℕ) (ids : ℕ → ℕ) (lib : Lib) (i l : ℕ)
    → IsMember levels ids lib i
    → i < 2 ^ levels
    → l < levels
    → lock_call lib l ≡ some (pos (ids (array_index levels i l)), pos (role_at levels i l))
unfolding lock_call call_at
lock_call-member levels ids lib i l m hi hl =
    rw (m.has, m.total, m.height, m.me)
      (ground (arith, array_index-lt levels i l hl hi, m.stores (array_index levels i l)))

-- The locks that a process holds are those of the levels from `held` on; its flag is raised at
-- those and, while it sleeps, at one more: from `busy` on.
abbrev pub held : ℕ → Pc → ℕ
held levels idle = levels
held levels (climbing k) = k
held levels (sleeping l) = suc l
held levels critical = 0
held levels (leaving l) = l
held levels broken = levels

abbrev pub busy : ℕ → Pc → ℕ
busy levels idle = levels
busy levels (climbing k) = k
busy levels (sleeping l) = l
busy levels critical = 0
busy levels (leaving l) = l
busy levels broken = levels

-- The slot of the lock of process `i` at level `l`.
abbrev pub slot : ℕ → (ℕ → ℕ) → Table → ℕ → ℕ → Slot
slot levels ids t i l = t (ids (array_index levels i l))

pub record Inv (levels : ℕ) (ids : ℕ → ℕ) (t : Table) (pc : ℕ → Pc) : Type 0 where
  pub active : (j : ℕ) → j < 2 ^ levels - 1 → (t (ids j)).active ≡ true
  pub turns : (j : ℕ) → j < 2 ^ levels - 1 → (t (ids j)).turn < 2
  pub sound : (i : ℕ) → i < 2 ^ levels → pc i ≢ broken
  pub bounded : (i : ℕ) → i < 2 ^ levels → held levels (pc i) ≤ levels
  pub apart :
      (i j l : ℕ)
      → i < 2 ^ levels
      → j < 2 ^ levels
      → l ≤ levels
      → held levels (pc i) ≤ l
      → held levels (pc j) ≤ l
      → group_at levels i l ≡ group_at levels j l
      → i ≡ j
  pub raised :
      (i l : ℕ)
      → i < 2 ^ levels
      → l < levels
      → busy levels (pc i) ≤ l
      → flag (slot levels ids t i l) (role_at levels i l) ≡ 1
  pub turned :
      (i j l : ℕ)
      → i < 2 ^ levels
      → j < 2 ^ levels
      → l < levels
      → held levels (pc i) ≤ l
      → busy levels (pc j) ≤ l
      → l < held levels (pc j)
      → group_at levels i l ≡ group_at levels j l
      → (slot levels ids t i l).turn ≡ role_at levels i l

-- ===== src/Tournament/Tests.antt =====
-- A tournament of two processes, and the theorems at runs of it.
use os_assignment.Prelude.{
  ℕ, ◌^◌, ◌<◌, ◌≡◌, ◌≢◌, refl, false, some, none, arith, ltb, ◌==◌, if◌then◌else◌, ℕ_discrete,
}
use os_assignment.Prelude.Int.{ℤ, pos, minus_one}
use os_assignment.Peterson.{
  Table, alloc_from, peterson_alloc, sys_peterson_create, unused, allocated, flag, interested,
  set_flag, loop_test, begin_acquire,
}
use os_assignment.Tournament.{
  Created, initial, get_log2_if_power_of_2, create_locks, fork_all, tournament_create, Lib, idle,
  sleeping, critical, broken, advance, System, step, Reach, here, next, entry, lock_call,
  begin_level, array_index, group_at, role_at,
}
use os_assignment.Tournament.Invariant.{IsTree}
use os_assignment.Tournament.Create.{
  Joins, accepted, Knows, tournament_create-Knows, tournament_create-Joins, created_exclusion,
}
use os_assignment.Tournament.Create.Steps.{Answers}
use os_assignment.Tournament.Exclusion.{IsFresh, mutual_exclusion, no_failure}

abbrev pair_ids : ℕ → ℕ
pair_ids j = j

abbrev pair : ℕ → Lib
pair i = record {
  lock_ids = some (λ j. pos j);
  num_total_locks = 1;
  n_processes = 2;
  l_levels = 1;
  my_id = pos i;
}

abbrev pair_start : System
pair_start = record { table = λ k. if ltb k 1 then allocated else unused; pc = λ _. idle }

pair-IsTree : IsTree 1 pair_ids pair
pair-IsTree = record {
  member = λ i h. record {
    array = λ j. pos j;
    has = refl;
    stores = λ j h. refl;
    total = refl;
    count = refl;
    height = refl;
    me = refl;
  };
  valid = λ j h. omega arith;
  distinct = λ j k hj hk e. e;
}

pair-IsFresh : IsFresh 1 pair_ids pair_start
pair-IsFresh = record { locks = λ j h. ground arith; quiet = λ i. refl }

-- Process 0 takes the lock while process 1 waits, in this order.
abbrev pair_run : System
pair_run = step pair 1 (step pair 1 (step pair 0 (step pair 0 (step pair 0 pair_start))))

pair_run-Reach : Reach pair 2 pair_start pair_run
pair_run-Reach =
    next
      (next (next (next (next here 0 (omega arith)) 0 (omega arith)) 0 (omega arith)) 1
        (omega arith))
      1 (omega arith)

pair_run_result : (pair_run.pc 0 ≡ critical) × (pair_run.pc 1 ≡ sleeping 0)
unfolding step advance entry lock_call begin_level begin_acquire loop_test flag interested set_flag
    array_index group_at role_at
pair_run_result = (refl, refl)

mutual_exclusion_example : ◌≡◌ {A = ℕ} 0 0
mutual_exclusion_example =
    mutual_exclusion pair-IsTree pair-IsFresh pair_run-Reach 0 0 (omega arith) (omega arith)
      pair_run_result.0 pair_run_result.0

no_failure_example : pair_run.pc 1 ≢ broken
no_failure_example = no_failure pair-IsTree pair-IsFresh pair_run-Reach 1 (omega arith)

-- Process 0 of the tournament forks process 5, which gets 0 from the fork.
abbrev two_forks : ℕ → ℕ → ℤ
two_forks i j = if i == 0 then pos 5 else pos 0

abbrev no_locks : Table
no_locks k = unused

two_forks-Answers : (i : ℕ) → i < 2 ^ 1 → Answers (2 ^ 1) i (two_forks i)
two_forks-Answers i h = (
  λ j lo hi who. elim (ℕ_discrete i 0) [ yes z ↦ (4, rw z refl) | no ne ↦ absurd (omega arith) ],
  λ lo. (let e : (i == 0) ≡ false = ground arith in rw e refl),
)

tournament_create-Joins_example :
    Joins 1 1 no_locks
      (tournament_create initial no_locks (pos (2 ^ 1)) (some (λ j. pos 0)) (two_forks 1))
tournament_create-Joins_example =
    tournament_create-Joins 1 1 no_locks (λ j. pos 0) (two_forks 1) (omega arith) (omega arith)
      (omega arith) (λ j h. refl) (two_forks-Answers 1 (omega arith))

tournament_create-Knows_example :
    (accepted (pos 8) ≡ none
      → tournament_create initial no_locks (pos 8) none (two_forks 0)
        ≡ record { lib = initial; table = no_locks; result = minus_one })
    × ((k : ℕ)
        → accepted (pos 8) ≡ some k
        → Knows (tournament_create initial no_locks (pos 8) none (two_forks 0)).lib (pos 8) k)
tournament_create-Knows_example =
    tournament_create-Knows initial no_locks (pos 8) none (two_forks 0)

abbrev made : ℕ → Created
made i = tournament_create initial no_locks (pos (2 ^ 1)) (some (λ j. pos 0)) (two_forks i)

abbrev made_libs : ℕ → Lib
made_libs i = (made i).lib

abbrev made_start : System
made_start = record { table = (made 0).table; pc = λ i. idle }

abbrev made_run : System
made_run = step made_libs 0 (step made_libs 0 (step made_libs 0 made_start))

made_run_result : made_run.pc 0 ≡ critical
unfolding tournament_create get_log2_if_power_of_2 create_locks fork_all sys_peterson_create
    peterson_alloc alloc_from step advance entry lock_call begin_level begin_acquire loop_test flag
    interested set_flag array_index group_at role_at
made_run_result = refl

made_run-Reach : Reach made_libs (2 ^ 1) made_start made_run
made_run-Reach = next (next (next here 0 (omega arith)) 0 (omega arith)) 0 (omega arith)

created_exclusion_example : ◌≡◌ {A = ℕ} 0 0
created_exclusion_example =
    created_exclusion 1 no_locks (λ j. pos 0) two_forks (omega arith) (omega arith) (λ j h. refl)
      two_forks-Answers made_run-Reach 0 0 (omega arith) (omega arith) made_run_result
      made_run_result

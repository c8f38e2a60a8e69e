-- ===== src/Tournament/Create.antt =====
-- `tournament_create` on a table of locks that are all free: the counts that it accepts, the locks
-- that it takes, and what each process of the tournament has when it returns.
pub mod Steps
use mathlib.Core.Path.{subst}
use os_assignment.Prelude.{
  and_left, and_right, ℕ, zero, suc, ◌+◌, ◌-◌, ◌^◌, ◌≤◌, ◌<◌, ◌≡◌, refl, sym, ap, ◌∙◌, ◌⊎◌, inl,
  inr, Option, none, some, Bool, true, false, arith, ltb, ◌==◌, if◌then◌else◌, update, update-eq,
  update-ne, Bool-cases, ◌&&◌, ℕ_discrete,
}
use os_assignment.Prelude.Int.{ℤ, pos, negsuc, minus_one}
use os_assignment.Peterson.{npetersonlocks, Table, allocated, sys_peterson_create}
use os_assignment.Peterson.Calls.{sys_peterson_create-Allocates}
use os_assignment.Tournament.{
  Lib, initial, get_log2_if_power_of_2, create_locks, fork_all, Created, fork_phase, lock_phase,
  create_with, checked_levels, magnitude, tournament_create, System, idle, critical, Reach,
}
use os_assignment.Tournament.Invariant.{IsMember}
use os_assignment.Tournament.Exclusion.{mutual_exclusion}
use os_assignment.Tournament.Create.Steps.{
  option_eq, option_eq_sound, Filled, Locks, create_locks-Locks, Answers, fork_all-Answers,
}

abbrev pub levels_of : ℕ → Option ℕ
levels_of n =
    if n == 1
    then some 0
    else if n == 2
    then some 1
    else if n == 4
    then some 2
    else if n == 8
    then some 3
    else if n == 16
    then some 4
    else none

agrees_below : ℕ → Bool
agrees_below zero = true
agrees_below (suc n) = option_eq (get_log2_if_power_of_2 (pos n)) (levels_of n) && agrees_below n

agrees_below_lem :
    (n m : ℕ) → agrees_below n ≡ true → m < n → get_log2_if_power_of_2 (pos m) ≡ levels_of m
unfolding agrees_below
agrees_below_lem zero m h lt = absurd (omega arith)
agrees_below_lem (suc n) m h lt = elim (ℕ_discrete m n) [
  | yes e ↦
      subst (λ x. get_log2_if_power_of_2 (pos x) ≡ levels_of x) (sym e)
        (option_eq_sound _ _ (and_left _ _ h))
  | no ne ↦ agrees_below_lem n m (and_right _ _ h) (omega arith)
]

agrees : agrees_below 17 ≡ true
unfolding agrees_below get_log2_if_power_of_2
agrees = refl

-- The counts of processes that are let pass, and their levels.
checked_levels_lem : (n : ℕ) → checked_levels (pos n) ≡ levels_of n
checked_levels_lem n = elim (Bool-cases (ltb 16 n)) [
  | inl big ↦ rw big (ground arith)
  | inr small ↦ rw small (agrees_below_lem 17 n agrees (ground arith))
]

-- The counts that are powers of two up to 16, and their levels.
abbrev pub accepted : ℤ → Option ℕ
accepted (pos n) = levels_of n
accepted (negsuc _) = none

checked_levels-accepted : (n : ℤ) → checked_levels n ≡ accepted n
unfolding get_log2_if_power_of_2
checked_levels-accepted (pos n) = checked_levels_lem n
checked_levels-accepted (negsuc k) = refl

-- What the library knows of the tournament.
pub record Knows (lib : Lib) (n : ℤ) (k : ℕ) : Type 0 where
  pub processes : pos lib.n_processes ≡ n
  pub levels : lib.l_levels ≡ k
  pub locks : pos (lib.num_total_locks + 1) ≡ n

create_with-Knows :
    (k n : ℕ) (lib : Lib) (t : Table) (malloc : Option (ℕ → ℤ)) (fork : ℕ → ℤ)
    → 0 < n
    → Knows (create_with (some k) lib t n malloc fork).lib (pos n) k
unfolding create_with lock_phase fork_phase
create_with-Knows k n lib t malloc fork h = elim (Bool-cases (ltb 0 (n - 1))) [
  | inr alone ↦ rw alone (knows _ refl refl refl)
  | inl more ↦ rw more (with_locks malloc)
]
  where
    knows :
        (lib' : Lib)
        → lib'.n_processes ≡ n
        → lib'.l_levels ≡ k
        → lib'.num_total_locks ≡ n - 1
        → Knows lib' (pos n) k
    knows lib' en ek el = record {
      processes = ap pos en;
      levels = ek;
      locks = ap pos (omega (arith, el));
    }

    with_locks :
        (malloc : Option (ℕ → ℤ))
        → Knows
            (lock_phase
              (record lib { l_levels = k; n_processes = n; num_total_locks = n - 1 })
              t
              malloc
              fork).lib
            (pos n)
            k
    with_locks none = knows _ refl refl refl
    with_locks (some memory) = elim (Bool-cases (create_locks (n - 1) 0 memory t).2) [
      | inl made ↦ rw made (knows _ refl refl refl)
      | inr failed ↦ rw failed (knows _ refl refl refl)
    ]

accepted-pos : (n : ℤ) (k : ℕ) → accepted n ≡ some k → (m : ℕ) × (n ≡ pos m) × (0 < m)
accepted-pos (negsuc j) k e = cc
accepted-pos (pos zero) k e = cc
accepted-pos (pos (suc m)) k e = (suc m, refl, omega arith)

-- `tournament_create` of any count, negative ones too, and whatever `malloc`, the locks and the forks
-- do: for a count other than 1, 2, 4, 8 and 16 it returns -1 and changes nothing; for these it notes
-- the count, its levels 0 to 4, and one lock less than there are processes.
pub tournament_create-Knows :
    (lib : Lib) (t : Table) (n : ℤ) (malloc : Option (ℕ → ℤ)) (fork : ℕ → ℤ)
    → (accepted n ≡ none
        → tournament_create lib t n malloc fork
          ≡ record { lib = lib; table = t; result = minus_one })
      × ((k : ℕ) → accepted n ≡ some k → Knows (tournament_create lib t n malloc fork).lib n k)
unfolding tournament_create create_with
tournament_create-Knows lib t n malloc fork = (
  λ e. rw (checked_levels-accepted n ∙ e, tournament_create) refl,
  λ k e.
      let (m, at, some_process) = accepted-pos n k e in
      subst (λ o. Knows (create_with o lib t (magnitude n) malloc fork).lib n k)
        (sym (checked_levels-accepted n ∙ e))
        (subst (λ x. Knows (create_with (some k) lib t (magnitude x) malloc fork).lib x k) (sym at)
          (create_with-Knows k m lib t malloc fork some_process)),
)

-- What process `i` has when its call returns.
pub record Joins (levels i : ℕ) (t : Table) (c : Created) : Type 0 where
  pub returns : c.result ≡ pos i
  pub member : IsMember levels (λ j. j) c.lib i
  pub taken : (j : ℕ) → j < 2 ^ levels - 1 → c.table j ≡ allocated
  pub others : (j : ℕ) → 2 ^ levels - 1 ≤ j → c.table j ≡ t j

checked-pow : (k : ℕ) → k ≤ 4 → checked_levels (pos (2 ^ k)) ≡ some k
checked-pow zero h = checked_levels_lem 1
checked-pow (suc zero) h = checked_levels_lem 2
checked-pow (suc (suc zero)) h = checked_levels_lem 4
checked-pow (suc (suc (suc zero))) h = checked_levels_lem 8
checked-pow (suc (suc (suc (suc zero)))) h = checked_levels_lem 16
checked-pow (suc (suc (suc (suc (suc k))))) h = absurd (omega arith)

pow_bounds : (k : ℕ) → 0 < k → k ≤ 4 → (1 < 2 ^ k) × (2 ^ k ≤ 16)
pow_bounds zero h h' = absurd (omega arith)
pow_bounds (suc zero) h h' = omega arith
pow_bounds (suc (suc zero)) h h' = omega arith
pow_bounds (suc (suc (suc zero))) h h' = omega arith
pow_bounds (suc (suc (suc (suc zero)))) h h' = omega arith
pow_bounds (suc (suc (suc (suc (suc k))))) h h' = absurd (omega arith)

module _ (levels n i : ℕ) (t : Table) (memory fork : ℕ → ℤ) (bounds : (1 < n) × (n ≤ 16))
    (hi : i < n) (free : Filled t 0) (answers : Answers n i fork) where
  locks : Locks (n - 1) 0 memory t (create_locks (n - 1) 0 memory t)
  locks = create_locks-Locks (n - 1) 0 memory t (omega arith) free

  made : Lib
  made = record {
    lock_ids = some ((create_locks (n - 1) 0 memory t).0);
    num_total_locks = n - 1;
    n_processes = n;
    l_levels = levels;
    my_id = pos i;
  }

  create_with-made :
      create_with (some levels) initial t n (some memory) fork
      ≡ record { lib = made; table = (create_locks (n - 1) 0 memory t).1; result = pos i }
  unfolding create_with lock_phase fork_phase made
  create_with-made =
      let some_locks : ltb 0 (n - 1) ≡ true = ground arith in
      rw (some_locks, locks.good, fork_all-Answers n i fork hi answers) refl

  made-Joins :
      n ≡ 2 ^ levels
      → Joins levels i t
          (record { lib = made; table = (create_locks (n - 1) 0 memory t).1; result = pos i })
  unfolding made
  made-Joins e = record {
    returns = refl;
    member = record {
      array = (create_locks (n - 1) 0 memory t).0;
      has = refl;
      stores = λ j h. locks.ids_new j (omega arith) (omega arith);
      total = omega arith;
      count = e;
      height = refl;
      me = refl;
    };
    taken = λ j h. locks.slots_new j (omega arith) (omega arith);
    others = λ j h. locks.slots_kept j (inr (omega arith));
  }

-- With all locks free, up to four levels, memory for the array and forks that succeed, each process
-- of the tournament gets its number and the array with the ids of `2 ^ levels - 1` different locks,
-- which are taken; no other lock is touched.
pub tournament_create-Joins :
    (levels i : ℕ) (t : Table) (memory fork : ℕ → ℤ)
    → 0 < levels
    → levels ≤ 4
    → i < 2 ^ levels
    → ((j : ℕ) → j < npetersonlocks → (t j).active ≡ false)
    → Answers (2 ^ levels) i fork
    → Joins levels i t (tournament_create initial t (pos (2 ^ levels)) (some memory) fork)
unfolding tournament_create
tournament_create-Joins levels i t memory fork pos_levels small hi free answers =
    let start : Filled t 0 = ((λ j h. absurd (omega arith)), (λ j h h'. free j h')) in
    let bounds : (1 < 2 ^ levels) × (2 ^ levels ≤ 16) = pow_bounds levels pos_levels small in
    rw
      (
        checked-pow levels small,
        create_with-made levels (2 ^ levels) i t memory fork bounds hi start answers,
      )
      (made-Joins levels (2 ^ levels) i t memory fork bounds hi start answers refl)

-- The processes of a tournament that `tournament_create` has set up on free locks, each with the
-- answers of its own forks: in every state that they reach, two in the critical section are one.
pub created_exclusion :
    (levels : ℕ) (t : Table) (memory : ℕ → ℤ) (forks : ℕ → ℕ → ℤ) {u : System}
    → 0 < levels
    → levels ≤ 4
    → ((j : ℕ) → j < npetersonlocks → (t j).active ≡ false)
    → ((i : ℕ) → i < 2 ^ levels → Answers (2 ^ levels) i (forks i))
    → Reach
        (λ i. (tournament_create initial t (pos (2 ^ levels)) (some memory) (forks i)).lib)
        (2 ^ levels)
        (record {
          table = (tournament_create initial t (pos (2 ^ levels)) (some memory) (forks 0)).table;
          pc = λ i. idle;
        })
        u
    → (i j : ℕ) → i < 2 ^ levels
    → j < 2 ^ levels
    → u.pc i ≡ critical
    → u.pc j ≡ critical
    → i ≡ j
created_exclusion levels t memory forks pos_levels small free answers r i j hi hj ci cj =
    mutual_exclusion
      (record {
        member = λ i h.
            (tournament_create-Joins levels i t memory (forks i) pos_levels small h free
              (answers i h)).member;
        valid = λ j h. omega (arith, bounds.1);
        distinct = λ j k hj hk e. e;
      })
      (record {
        locks =
            (tournament_create-Joins levels 0 t memory (forks 0) pos_levels small
              (omega (arith, bounds.0)) free (answers 0 (omega (arith, bounds.0)))).taken;
        quiet = λ i. refl;
      })
      r i j hi hj ci cj
  where
    bounds : (1 < 2 ^ levels) × (2 ^ levels ≤ 16)
    bounds = pow_bounds levels pos_levels small

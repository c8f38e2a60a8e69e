-- ===== src/Tournament.antt =====
-- user/libtournament.c: the tournament tree of Peterson locks.
-- The static variables of the library are a record; `fork` copies them, so that each process has a
-- record of its own. What `malloc` answers and leaves in the memory, and what each `fork` returns,
-- are arguments. A process that runs `tournament_acquire` and `tournament_release` is a state
-- machine (`advance`), since it may be interrupted at each call of the kernel.
pub mod Levels
pub mod Invariant
pub mod Exclusion
pub mod Create
mod Tests
use Prim.Native.Nat.{bit_and}
use os_assignment.Prelude.{
  ℕ, zero, suc, ◌+◌, ◌-◌, ◌/◌, ◌%◌, ◌^◌, ◌<◌, Bool, true, false, not, ◌&&◌, ◌||◌, Option, none,
  some, ltb, leb, ◌==◌, if◌then◌else◌, update,
}
use os_assignment.Prelude.Int.{ℤ, pos, negsuc, minus_one, is_neg}
use os_assignment.Peterson.{
  Table, sys_peterson_create, begin_acquire, retry_acquire, sys_peterson_release, Outcome, failed,
  waiting, acquired,
}

-- The static variables. `lock_ids` is `peterson_lock_ids_array`, `none` for the null pointer.
-- `num_total_locks`, `N_processes` and `L_levels` are only ever 0 or what a valid count gives.
pub record Lib : Type 0 where
  pub lock_ids : Option (ℕ → ℤ)
  pub num_total_locks : ℕ
  pub n_processes : ℕ
  pub l_levels : ℕ
  pub my_id : ℤ

abbrev pub initial : Lib
initial = record {
  lock_ids = none;
  num_total_locks = 0;
  n_processes = 0;
  l_levels = 0;
  my_id = minus_one;
}

-- `while (temp > 1) { temp >>= 1; log_val++; }` with fuel.
pub halvings : ℕ → ℕ → ℕ → ℕ
halvings zero temp log_val = log_val
halvings (suc f) temp log_val =
    let rest = halvings f (temp / 2) (log_val + 1) in if ltb 1 temp then rest else log_val

-- The halvings of n are fewer than n. `none` is -1.
unfoldable pub get_log2_if_power_of_2 : ℤ → Option ℕ
unfolding halvings
get_log2_if_power_of_2 (negsuc _) = none
get_log2_if_power_of_2 (pos n) =
    if n == 0
    then none
    else if n == 1
    then some 0
    else if not (bit_and n (n - 1) == 0)
    then none
    else some (halvings n n 0)

-- The loop that creates the locks, from index `i` on, with `n` rounds left: the array, the table,
-- and whether all calls succeeded.
pub create_locks : ℕ → ℕ → (ℕ → ℤ) → Table → (ℕ → ℤ) × Table × Bool
create_locks zero i ids t = (ids, t, true)
create_locks (suc n) i ids t =
    let r = sys_peterson_create t in
    let ids' = update ids i r.1 in
    let rest = create_locks n (i + 1) ids' r.0 in if is_neg r.1 then (ids', r.0, false) else rest

-- The loop of forks from process `i` on, with `n` rounds left: the new `my_id` and the result.
-- `fork i` is what the fork for process `i` returns to the process that runs this.
unfoldable pub fork_all : ℕ → ℕ → (ℕ → ℤ) → ℤ → ℤ × ℤ
fork_all zero i fork my_id = (my_id, my_id)
fork_all (suc n) i fork my_id =
    let rest = fork_all n (i + 1) fork my_id in
    if is_neg (fork i)
    then (my_id, minus_one)
    else elim (fork i) [ pos zero ↦ (pos i, pos i) | _ ↦ rest ]

pub record Created : Type 0 where
  pub lib : Lib
  pub table : Table
  pub result : ℤ

-- From `my_id = 0` on.
fork_phase : Lib → Table → (ℕ → ℤ) → Created
fork_phase lib t fork =
    let r = fork_all (lib.n_processes - 1) 1 fork (pos 0) in
    record { lib = record lib { my_id = r.0 }; table = t; result = r.1 }

-- The locks, when `num_total_locks > 0`; `memory` is what `malloc` answers.
lock_phase : Lib → Table → Option (ℕ → ℤ) → (ℕ → ℤ) → Created
lock_phase lib t none fork = record {
  lib = record lib { lock_ids = none };
  table = t;
  result = minus_one;
}
lock_phase lib t (some memory) fork =
    let r = create_locks lib.num_total_locks 0 memory t in
    let lib' = record lib { lock_ids = some (r.0) } in
    if r.2 then fork_phase lib' r.1 fork else record { lib = lib'; table = r.1; result = minus_one }

create_with : Option ℕ → Lib → Table → ℕ → Option (ℕ → ℤ) → (ℕ → ℤ) → Created
create_with none lib t n malloc fork = record { lib = lib; table = t; result = minus_one }
create_with (some levels) lib t n malloc fork =
    let lib' = record lib { l_levels = levels; n_processes = n; num_total_locks = n - 1 } in
    if ltb 0 (n - 1)
    then lock_phase lib' t malloc fork
    else fork_phase (record lib' { lock_ids = none }) t fork

-- `none` is the -1 of `get_log2_if_power_of_2`, or a count above 16.
abbrev pub checked_levels : ℤ → Option ℕ
checked_levels (negsuc k) = get_log2_if_power_of_2 (negsuc k)
checked_levels (pos n) = if ltb 16 n then none else get_log2_if_power_of_2 (pos n)

abbrev pub magnitude : ℤ → ℕ
magnitude (pos n) = n
magnitude (negsuc _) = 0

unfoldable pub tournament_create : Lib → Table → ℤ → Option (ℕ → ℤ) → (ℕ → ℤ) → Created
unfolding create_with lock_phase fork_phase
tournament_create lib t processes malloc fork =
    create_with (checked_levels processes) lib t (magnitude processes) malloc fork

-- `(my_id >> role_bit_position) & 1` and `(my_id >> (L_levels - l)) + (1 << l) - 1`, for process
-- `i` of a tree with `levels` levels. `& 1` is `% 2` on a number that is not negative.
pub role_at : ℕ → ℕ → ℕ → ℕ
role_at levels i l = i / 2 ^ (levels - 1 - l) % 2

pub group_at : ℕ → ℕ → ℕ → ℕ
group_at levels i l = i / 2 ^ (levels - l)

pub array_index : ℕ → ℕ → ℕ → ℕ
array_index levels i l = group_at levels i l + (2 ^ l - 1)

-- Where a process stands. The number is the level `l` of a loop; for `climbing`, one more than the
-- level that `tournament_acquire` locks next; for `sleeping`, the level at whose lock the process
-- has yielded in `peterson_acquire`.
pub data Pc : Type 0 where
  idle : Pc
  climbing : ℕ → Pc
  sleeping : ℕ → Pc
  critical : Pc
  leaving : ℕ → Pc
  broken : Pc

-- The tests at the head of `tournament_acquire` and `tournament_release`: a return at once with
-- this code, or the loop.
pub data Entry : Type 0 where
  returns : ℤ → Entry
  loops : Entry

is_null : Option (ℕ → ℤ) → Bool
is_null none = true
is_null (some _) = false

is_minus_one : ℤ → Bool
is_minus_one (pos _) = false
is_minus_one (negsuc k) = k == 0

pub entry : Lib → Entry
unfolding is_null is_minus_one
entry lib =
    if is_minus_one lib.my_id
    then returns minus_one
    else if lib.n_processes == 0
    then returns minus_one
    else if lib.n_processes == 1
    then returns (pos 0)
    else if ltb 0 lib.num_total_locks && is_null lib.lock_ids
    then returns minus_one
    else loops

call_at : Option (ℕ → ℤ) → ℕ → ℕ → ℕ → Option (ℤ × ℤ)
call_at none total index role = none
call_at (some ids) total index role = if leb total index then none else some (ids index, pos role)

-- The kernel id and the role of the lock at level `l`; `none` if the index is out of bounds.
pub lock_call : Lib → ℕ → Option (ℤ × ℤ)
unfolding call_at
lock_call lib l =
    call_at lib.lock_ids lib.num_total_locks (array_index lib.l_levels (magnitude lib.my_id) l)
      (role_at lib.l_levels (magnitude lib.my_id) l)

-- The state of the process after a section of `peterson_acquire` at level `l`.
abbrev pub settle : Outcome → ℕ → Pc
settle failed l = broken
settle waiting l = sleeping l
settle acquired l = climbing l

begin_level : Table → Option (ℤ × ℤ) → ℕ → Table × Pc
begin_level t none l = (t, broken)
begin_level t (some (id, role)) l = let r = begin_acquire t id role in (r.0, settle r.1 l)

retry_level : Table → Option (ℤ × ℤ) → ℕ → Table × Pc
retry_level t none l = (t, broken)
retry_level t (some (id, role)) l = (t, settle (retry_acquire t id role) l)

release_level : Table → Option (ℤ × ℤ) → ℕ → Table × Pc
release_level t none l = (t, broken)
release_level t (some (id, role)) l =
    let r = sys_peterson_release t id role in (r.0, if is_neg r.1 then broken else leaving (l + 1))

-- The state after a return at once: `good` if the code is not negative.
abbrev pub enter : Entry → Pc → Pc → Pc
enter (returns r) good loop = if is_neg r then broken else good
enter loops good loop = loop

-- A process takes its next step: from `idle` it calls `tournament_acquire`, from `critical`
-- `tournament_release`, and within a call it goes on to the end of its next kernel section.
pub advance : Lib → Table → Pc → Table × Pc
unfolding begin_level retry_level release_level
advance lib t idle = (t, enter (entry lib) critical (climbing lib.l_levels))
advance lib t (climbing zero) = (t, critical)
advance lib t (climbing (suc l)) = begin_level t (lock_call lib l) l
advance lib t (sleeping l) = retry_level t (lock_call lib l) l
advance lib t critical = (t, enter (entry lib) idle (leaving 0))
advance lib t (leaving l) =
    if ltb l lib.l_levels then release_level t (lock_call lib l) l else (t, idle)
advance lib t broken = (t, broken)

-- The processes of a tournament, numbered by `my_id`, over the table of the kernel.
pub record System : Type 0 where
  pub table : Table
  pub pc : ℕ → Pc

-- Process `i` takes a step.
pub step : (ℕ → Lib) → ℕ → System → System
step libs i s =
    let r = advance (libs i) s.table (s.pc i) in record { table = r.0; pc = update s.pc i r.1 }

-- The states that processes below `n` reach in any interleaving.
pub data Reach (libs : ℕ → Lib) (n : ℕ) (s : System) : System → Type 0 where
  here : Reach libs n s s
  next : {t : System} → Reach libs n s t → (i : ℕ) → i < n → Reach libs n s (step libs i t)

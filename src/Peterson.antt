-- ===== src/Peterson.antt =====
-- kernel/peterson.c and kernel/peterson.h: the table of Peterson locks and its system calls.
-- Every access to a slot stands between `acquire(&pl->lk)` and `release(&pl->lk)`, so one such
-- section is one function here: `begin_acquire` is the part of `sys_peterson_acquire` up to its
-- first return or `yield`, and `retry_acquire` is one round of its loop after a `yield`.
-- The table is a function of the index; the code touches indices below `npetersonlocks` only.
pub mod Slots
pub mod Calls
mod Tests
use Prim.Native.String.{String}
use os_assignment.Prelude.{
  ℕ, zero, suc, ◌+◌, ◌-◌, Bool, true, false, not, ◌&&◌, ◌||◌, Option, none, some, ltb, leb, ◌==◌,
  if◌then◌else◌, update,
}
use os_assignment.Prelude.Int.{ℤ, pos, negsuc, minus_one}

abbrev pub npetersonlocks : ℕ
npetersonlocks = 16

-- `struct peterson_lock`, without the spinlock `lk`, whose sections are the functions below.
pub record Slot : Type 0 where
  pub name : String
  pub active : Bool
  pub flag0 : ℕ
  pub flag1 : ℕ
  pub turn : ℕ

abbrev pub Table : Type 0
Table = ℕ → Slot

-- `flag[role]`
unfoldable pub flag : Slot → ℕ → ℕ
flag s role = if role == 0 then s.flag0 else s.flag1

-- `flag[role] = v`
unfoldable pub set_flag : Slot → ℕ → ℕ → Slot
set_flag s role v = if role == 0 then record s { flag0 = v } else record s { flag1 = v }

-- A slot as `peterson_init` and `peterson_free` leave it.
abbrev pub unused : Slot
unused = record { name = "unnamed_peterson"; active = false; flag0 = 0; flag1 = 0; turn = 0 }

-- A slot as `peterson_alloc` leaves it.
abbrev pub allocated : Slot
allocated = record { name = "peterson_lock"; active = true; flag0 = 0; flag1 = 0; turn = 0 }

-- The loop of `peterson_init`, from index `i` on, with `n` rounds left.
init_from : ℕ → ℕ → Table → Table
init_from zero i t = t
init_from (suc n) i t = init_from n (i + 1) (update t i unused)

pub peterson_init : Table → Table
peterson_init t = init_from npetersonlocks 0 t

-- The loop of `peterson_alloc`, from index `i` on, with `n` rounds left.
unfoldable pub alloc_from : ℕ → ℕ → Table → Table × ℤ
alloc_from zero i t = (t, minus_one)
alloc_from (suc n) i t =
    let rest = alloc_from n (i + 1) t in
    if not (t i).active then (update t i allocated, pos i) else rest

unfoldable pub peterson_alloc : Table → Table × ℤ
peterson_alloc t = alloc_from npetersonlocks 0 t

-- `none` is the panic.
pub peterson_free : Table → ℤ → Option Table
peterson_free t (negsuc id) = none
peterson_free t (pos id) =
    if leb npetersonlocks id || not (t id).active then none else some (update t id unused)

unfoldable pub sys_peterson_create : Table → Table × ℤ
sys_peterson_create t = peterson_alloc t

-- `lock_id < 0 || lock_id >= NPETERSONLOCKS`, negated: the index, if it is valid.
abbrev pub valid_id : ℤ → Option ℕ
valid_id (negsuc _) = none
valid_id (pos id) = if leb npetersonlocks id then none else some id

-- `role != 0 && role != 1`, negated.
abbrev pub valid_role : ℤ → Option ℕ
valid_role (negsuc _) = none
valid_role (pos role) = if role == 0 || role == 1 then some role else none

-- How a section of `sys_peterson_acquire` ends: it returns -1, goes to `yield`, or returns 0.
pub data Outcome : Type 0 where
  failed waiting acquired : Outcome

-- The test of the `while` and what follows it, up to the next return or `yield`.
unfoldable pub loop_test : Slot → ℕ → Outcome
loop_test s role =
    if flag s (1 - role) == 1 && s.turn == 1 - role
    then (if s.active then waiting else failed)
    else (if s.active then acquired else failed)

-- Interest, then the turn of the other role.
unfoldable pub interested : Slot → ℕ → Slot
interested s role = record (set_flag s role 1) { turn = 1 - role }

begin_at : Table → Option ℕ → Option ℕ → Table × Outcome
begin_at t (some id) (some role) =
    if not (t id).active
    then (t, failed)
    else (update t id (interested (t id) role), loop_test (interested (t id) role) role)
begin_at t none _ = (t, failed)
begin_at t (some _) none = (t, failed)

unfoldable pub begin_acquire : Table → ℤ → ℤ → Table × Outcome
unfolding begin_at
begin_acquire t lock_id role = begin_at t (valid_id lock_id) (valid_role role)

retry_at : Table → Option ℕ → Option ℕ → Outcome
retry_at t (some id) (some role) = loop_test (t id) role
retry_at t none _ = failed
retry_at t (some _) none = failed

-- After `yield`; the arguments are those that `begin_acquire` has accepted.
unfoldable pub retry_acquire : Table → ℤ → ℤ → Outcome
unfolding retry_at
retry_acquire t lock_id role = retry_at t (valid_id lock_id) (valid_role role)

-- `flag[role] = 0`
pub lowered : Slot → ℕ → Slot
lowered s role = set_flag s role 0

release_at : Table → Option ℕ → Option ℕ → Table × ℤ
release_at t (some id) (some role) =
    if not (t id).active then (t, minus_one) else (update t id (lowered (t id) role), pos 0)
release_at t none _ = (t, minus_one)
release_at t (some _) none = (t, minus_one)

unfoldable pub sys_peterson_release : Table → ℤ → ℤ → Table × ℤ
unfolding release_at
sys_peterson_release t lock_id role = release_at t (valid_id lock_id) (valid_role role)

destroy_at : Table → Option ℕ → Option (Table × ℤ)
destroy_at t none = some (t, minus_one)
destroy_at t (some id) =
    if not (t id).active
    then some (t, minus_one)
    else elim (peterson_free t (pos id)) [ none ↦ none | some t' ↦ some (t', pos 0) ]

-- `none` is the panic of `peterson_free`.
unfoldable pub sys_peterson_destroy : Table → ℤ → Option (Table × ℤ)
unfolding destroy_at
sys_peterson_destroy t lock_id = destroy_at t (valid_id lock_id)

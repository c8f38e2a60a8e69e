-- ===== src/Proc.antt =====
-- kernel/proc.c and kernel/proc.h: the process table.
-- Process `i` is `&proc[i]`. Each function is a section under the locks that the code takes; what
-- the calls into the memory subsystem return (`kalloc`, `proc_pagetable`, `uvmcopy`, `copyout`) is
-- an argument. `none` is a panic.
pub mod Wakeup
pub mod Lifecycle
pub mod Pids
pub mod Reap
pub mod Exit
mod Tests
use Prim.Native.String.{String}
use os_assignment.Prelude.{
  ℕ, zero, suc, ◌+◌, ◌%◌, ◌^◌, Bool, true, false, not, ◌&&◌, Option, none, some, ◌==◌,
  if◌then◌else◌, update, for_each,
}
use os_assignment.Prelude.Int.{ℤ, pos}
use os_assignment.Files.{FileTable}

abbrev pub nproc : ℕ
nproc = 64

abbrev pub nofile : ℕ
nofile = 16

pub data State : Type 0 where
  unused used sleeping runnable running zombie : State

-- A wait channel: the null pointer, the address of a process, or another address.
pub data Chan : Type 0 where
  null : Chan
  proc_chan : ℕ → Chan
  at : ℕ → Chan

-- `struct proc` without its lock, its kernel stack and its kernel context. `parent` is an index,
-- `trapframe`, `pagetable` and `cwd` are pointers, `frame` is what the trapframe holds.
pub record Proc : Type 0 where
  pub state : State
  pub chan : Chan
  pub killed : Bool
  pub xstate : ℤ
  pub pid : ℕ
  pub parent : Option ℕ
  pub sz : ℕ
  pub pagetable : Option ℕ
  pub trapframe : Option ℕ
  pub frame : ℕ → ℕ
  pub ofile : ℕ → Option ℕ
  pub cwd : Option ℕ
  pub name : String

abbrev pub Procs : Type 0
Procs = ℕ → Proc

-- The kernel as far as proc.c goes: the table, `nextpid`, `initproc`, the open files, and the
-- reference counts of the inodes.
pub record Kernel : Type 0 where
  pub proc : Procs
  pub next_pid : ℕ
  pub initproc : ℕ
  pub ftable : FileTable
  pub inode_refs : ℕ → ℕ

abbrev pub set_proc : Kernel → ℕ → Proc → Kernel
set_proc k i p = record k { proc = update k.proc i p }

abbrev pub is_unused : State → Bool
is_unused unused = true
is_unused _ = false

abbrev pub is_sleeping : State → Bool
is_sleeping sleeping = true
is_sleeping _ = false

abbrev pub is_runnable : State → Bool
is_runnable runnable = true
is_runnable _ = false

abbrev pub is_zombie : State → Bool
is_zombie zombie = true
is_zombie _ = false

abbrev pub chan_eq : Chan → Chan → Bool
chan_eq null null = true
chan_eq (proc_chan i) (proc_chan j) = i == j
chan_eq (at a) (at b) = a == b
chan_eq _ _ = false

abbrev pub is_parent : Option ℕ → ℕ → Bool
is_parent none i = false
is_parent (some j) i = j == i

-- `allocpid`; the int `nextpid` is kept as its pattern of 32 bits.
pub allocpid : Kernel → Kernel × ℕ
allocpid k = (record k { next_pid = (k.next_pid + 1) % 2 ^ 32 }, k.next_pid)

-- `freeproc`, on one process; the pages are given back to the allocator.
pub freeproc : Proc → Proc
freeproc p = record p {
  trapframe = none;
  pagetable = none;
  sz = 0;
  pid = 0;
  parent = none;
  name = "";
  chan = null;
  killed = false;
  xstate = pos 0;
  state = unused;
}

-- The search of `allocproc`, from index `i` on, with `n` rounds left.
pub find_unused : ℕ → ℕ → Procs → Option ℕ
find_unused zero i t = none
find_unused (suc n) i t =
    let rest = find_unused n (i + 1) t in if is_unused (t i).state then some i else rest

-- From `found` on, at process `i`: the page for the trapframe, then the page table. `freeproc`
-- undoes the part that was done.
allocproc_at : Kernel → ℕ → Option ℕ → Option ℕ → Kernel × Option ℕ
allocproc_at k i page table =
    let r = allocpid k in
    let p = record (k.proc i) { pid = r.1; state = used; trapframe = page } in
    let p' = record p { pagetable = table } in
    elim page [
      | none ↦ (set_proc r.0 i (freeproc p), none)
      | some _ ↦ elim table [
        | none ↦ (set_proc r.0 i (freeproc p'), none)
        | some _ ↦ (set_proc r.0 i p', some i)
      ]
    ]

allocproc_found : Kernel → Option ℕ → Option ℕ → Option ℕ → Kernel × Option ℕ
allocproc_found k none page table = (k, none)
allocproc_found k (some i) page table = allocproc_at k i page table

-- `page` is what `kalloc` returns and `table` what `proc_pagetable` returns; `none` beside the
-- kernel is the null pointer.
pub allocproc : Kernel → Option ℕ → Option ℕ → Kernel × Option ℕ
unfolding allocproc_at allocproc_found
allocproc k page table = allocproc_found k (find_unused nproc 0 k.proc) page table

-- The part of the loop of `wakeup` for one process.
pub wake_one : Chan → Proc → Proc
wake_one chan p =
    if is_sleeping p.state && chan_eq p.chan chan then record p { state = runnable } else p

-- The body of the loop of `wakeup`; `me` is `myproc()`, if any.
pub wake_other : Option ℕ → Chan → ℕ → Proc → Proc
wake_other me chan i p = if is_parent me i then p else wake_one chan p

pub wakeup : Procs → Option ℕ → Chan → Procs
wakeup t me chan = for_each nproc 0 (wake_other me chan) t

-- `sleep` up to its `sched`, and what it does after that.
pub sleep_begin : Procs → ℕ → Chan → Procs
sleep_begin t me chan = update t me (record (t me) { chan = chan; state = sleeping })

pub sleep_end : Procs → ℕ → Procs
sleep_end t me = update t me (record (t me) { chan = null })

-- `yield` up to its `sched`.
pub yield : Procs → ℕ → Procs
yield t me = update t me (record (t me) { state = runnable })

-- The part of the loop of `scheduler` for process `i`: the process that it switches to, if any.
pub schedule_one : Procs → ℕ → Procs × Bool
schedule_one t i =
    if is_runnable (t i).state
    then (update t i (record (t i) { state = running }), true)
    else (t, false)

-- What `kill` does to the process that it finds.
pub kill_one : Proc → Proc
kill_one p =
    if is_sleeping p.state
    then record p { killed = true; state = runnable }
    else record p { killed = true }

-- The loop of `kill`, from index `i` on, with `n` rounds left; `false` is -1.
pub kill_from : ℕ → ℕ → Procs → ℕ → Procs × Bool
kill_from zero i t pid = (t, false)
kill_from (suc n) i t pid =
    let rest = kill_from n (i + 1) t pid in
    if (t i).pid == pid then (update t i (kill_one (t i)), true) else rest

pub kill : Procs → ℕ → Procs × Bool
kill t pid = kill_from nproc 0 t pid

pub setkilled : Procs → ℕ → Procs
setkilled t i = update t i (record (t i) { killed = true })

pub killed : Procs → ℕ → Bool
killed t i = (t i).killed

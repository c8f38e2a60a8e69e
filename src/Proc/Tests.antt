-- ===== src/Proc/Tests.antt =====
-- A process table of one parent and its zombie child.
use os_assignment.Prelude.{
  ℕ, List, [], ◌∷◌, ◌<◌, ◌≡◌, ◌≢◌, refl, some, none, true, false, if◌then◌else◌, arith, ◌==◌,
}
use os_assignment.Prelude.Int.{pos}
use os_assignment.Proc.{
  nproc, Proc, Procs, Kernel, unused, sleeping, runnable, running, zombie, null, proc_chan, at,
  find_unused, allocproc, allocpid, freeproc, wakeup, sleep_begin, kill,
}
use os_assignment.Files.{fd_none}
use os_assignment.Proc.Lifecycle.{exit_zombie, wait_scan}
use os_assignment.Proc.Reap.{Scans, wait_scan-Scans}
use os_assignment.Proc.Exit.{adopted, exit_zombie_lem}
use os_assignment.Proc.Pids.{PidsOk, Op, allocates, frees, run, Ascending, NewTo, run-Ascending}
use os_assignment.Proc.Wakeup.{wakeup-sleep_begin, kill_zero-allocproc}

abbrev free_proc : Proc
free_proc = record {
  state = unused;
  chan = null;
  killed = false;
  xstate = pos 0;
  pid = 0;
  parent = none;
  sz = 0;
  pagetable = none;
  trapframe = none;
  frame = λ k. 0;
  ofile = λ k. none;
  cwd = none;
  name = "";
}

abbrev init_proc : Proc
init_proc = record free_proc { state = sleeping; chan = proc_chan 0; pid = 1 }

abbrev parent_proc : Proc
parent_proc = record free_proc { state = running; pid = 2; parent = some 0 }

abbrev dead_proc : Proc
dead_proc = record free_proc { state = zombie; pid = 3; parent = some 1; xstate = pos 7 }

abbrev family : Procs
family k =
    if k == 0
    then init_proc
    else if k == 1
    then parent_proc
    else if k == 2
    then dead_proc
    else free_proc

abbrev kernel : Kernel
kernel = record {
  proc = family;
  next_pid = 4;
  initproc = 0;
  ftable = λ k. record {
    type = fd_none;
    ref = 0;
    readable = false;
    writable = false;
    pipe = 0;
    ip = 0;
    off = 0;
    major = 0;
  };
  inode_refs = λ k. 0;
}

wait_scan-Scans_example : Scans family 0 nproc 1 false true false (wait_scan family 1 true)
wait_scan-Scans_example = wait_scan-Scans family 1 true

-- The parent exits, and its child goes to process 0.
exit_zombie_lem_example :
    let t = (exit_zombie kernel 1 (pos 3)).proc in
    ((t 1).state ≡ zombie)
    × ((t 1).xstate ≡ pos 3)
    × ((i : ℕ) → i < nproc → (t i).parent ≡ adopted (family i).parent 1 0)
    × ((i : ℕ) → i < nproc → (t i).parent ≢ some 1)
    × ((t 0).state ≡ sleeping → (t 0).chan ≢ proc_chan 0)
exit_zombie_lem_example =
    exit_zombie_lem kernel 1 0 (pos 3) (omega arith) (λ e. omega (arith, e)) (omega arith)
      (λ e. omega (arith, e)) refl

kernel-PidsOk : PidsOk kernel
kernel-PidsOk = record {
  started = omega arith;
  issued = λ i h. ground arith;
  free = λ i h e. ground arith;
  live = λ i h ne. ground arith;
  distinct = λ i j hi hj p e. ground arith;
}

-- A process is made and freed, a second call fails, and a third takes the same entry.
abbrev calls : List Op
calls =
    allocates (some 1) (some 2) ∷ frees 3 ∷ allocates none none ∷ allocates (some 1) (some 2) ∷ []

calls_pids : (run kernel calls).1 ≡ 4 ∷ 6 ∷ []
unfolding run allocproc find_unused allocpid freeproc
calls_pids = refl

run-Ascending_example :
    PidsOk (run kernel calls).0
    × Ascending 4 (run kernel calls).1
    × NewTo kernel (run kernel calls).1
run-Ascending_example = run-Ascending kernel calls kernel-PidsOk (omega arith)

wakeup-sleep_begin_example :
    (wakeup (sleep_begin family 1 (at 5)) (some 0) (at 5) 1).state ≡ runnable
wakeup-sleep_begin_example =
    wakeup-sleep_begin family (sleep_begin family 1 (at 5)) 1 (some 0) (at 5) (omega arith) refl
      refl

-- The parent runs, entry 3 is free.
kill_zero-allocproc_example :
    (j : ℕ) × ((family j).state ≡ unused)
    × ((kill family 0).1 ≡ true)
    × ((allocproc (record kernel { proc = (kill family 0).0 }) (some 1) (some 2)).1 ≡ some j)
    × (((allocproc (record kernel { proc = (kill family 0).0 }) (some 1) (some 2)).0.proc j).killed
        ≡ true)
kill_zero-allocproc_example = kill_zero-allocproc kernel 1 2 3 kernel-PidsOk (omega arith) refl

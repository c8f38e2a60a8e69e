-- ===== src/Proc/Lifecycle.antt =====
-- kernel/proc.c: `fork`, `exit` and `wait`.
-- `fork` runs to its end with no wait. `exit` is two functions, since it may sleep in the file
-- system between them: it closes the files, then it becomes a zombie under `wait_lock`. `wait_scan`
-- is one round of the loop of `wait`, up to its return or its `sleep`.
use os_assignment.Prelude.{
  ℕ, zero, suc, ◌+◌, Bool, true, false, not, ◌||◌, Option, none, some, ◌==◌, if◌then◌else◌, update,
  List, [], ◌∷◌, ◌++◌,
}
use os_assignment.Prelude.Int.{ℤ, pos, minus_one}
use os_assignment.Files.{FileTable, filedup, fileclose, Teardown, put_inode}
use os_assignment.Proc.{
  runnable, zombie, Chan, null, proc_chan, Procs, Kernel, set_proc, is_zombie, is_parent, nproc,
  nofile, freeproc, allocproc, wakeup,
}

-- The register in which a system call returns.
abbrev pub a0 : ℕ
a0 = 10

-- The loop of `fork` over the descriptors, from `fd` on, with `n` rounds left: the file table and
-- the descriptors of the child.
unfoldable pub dup_files :
    ℕ → ℕ → FileTable → (ℕ → Option ℕ) → (ℕ → Option ℕ) → Option (FileTable × (ℕ → Option ℕ))
dup_files zero fd t parent child = some (t, child)
dup_files (suc n) fd t parent child = elim (parent fd) [
  | none ↦ dup_files n (fd + 1) t parent child
  | some f ↦ elim (filedup t f) [
    | none ↦ none
    | some t' ↦ dup_files n (fd + 1) t' parent (update child fd (some f))
  ]
]

-- `idup`, for `cwd`; a process has none only while it exits.
abbrev pub dup_inode : (ℕ → ℕ) → Option ℕ → ℕ → ℕ
dup_inode refs none = refs
dup_inode refs (some ip) = update refs ip (refs ip + 1)

-- From the copied memory on, at the child `i`.
fork_child : Kernel → ℕ → ℕ → Option (Kernel × ℤ)
fork_child k me i =
    let p = k.proc me in
    let np = k.proc i in
    elim (dup_files nofile 0 k.ftable p.ofile np.ofile) [
      | none ↦ none
      | some (t, files) ↦
          let child = record np {
            sz = p.sz;
            frame = update p.frame a0 0;
            ofile = files;
            cwd = p.cwd;
            name = p.name;
            parent = some me;
            state = runnable;
          } in
          some (
            record k {
              proc = update k.proc i child;
              ftable = t;
              inode_refs = dup_inode k.inode_refs p.cwd;
            },
            pos np.pid,
          )
    ]

-- At the process that `allocproc` returned; `copied` says that `uvmcopy` succeeded.
fork_alloc : Kernel × Option ℕ → ℕ → Bool → Option (Kernel × ℤ)
fork_alloc (k, none) me copied = some (k, minus_one)
fork_alloc (k, some i) me copied =
    if copied then fork_child k me i else some (set_proc k i (freeproc (k.proc i)), minus_one)

unfoldable pub fork : Kernel → ℕ → Option ℕ → Option ℕ → Bool → Option (Kernel × ℤ)
unfolding fork_child fork_alloc
fork k me page table copied = fork_alloc (allocproc k page table) me copied

-- The loop of `exit` over the descriptors, with what each last close leaves to do.
unfoldable pub close_files :
    ℕ
    → ℕ
    → FileTable
    → (ℕ → Option ℕ)
    → List Teardown
    → Option (FileTable × (ℕ → Option ℕ) × List Teardown)
close_files zero fd t files done = some (t, files, done)
close_files (suc n) fd t files done = elim (files fd) [
  | none ↦ close_files n (fd + 1) t files done
  | some f ↦ elim (fileclose t f) [
    | none ↦ none
    | some (t', d) ↦ close_files n (fd + 1) t' (update files fd none) (done ++ d ∷ [])
  ]
]

abbrev pub put_cwd : Option ℕ → List Teardown
put_cwd none = []
put_cwd (some ip) = put_inode ip ∷ []

-- The first part of `exit`: the kernel, and what is torn down, the directory last.
unfoldable pub exit_files : Kernel → ℕ → Option (Kernel × List Teardown)
exit_files k me =
    if me == k.initproc then none else elim (close_files nofile 0 k.ftable (k.proc me).ofile []) [
      | none ↦ none
      | some (t, files, done) ↦ some (
        record k {
          proc = update k.proc me (record (k.proc me) { ofile = files; cwd = none });
          ftable = t;
        },
        done ++ put_cwd (k.proc me).cwd,
      )
    ]

-- The body of the loop of `reparent`, for process `i`.
unfoldable pub reparent_one : Procs → ℕ → ℕ → ℕ → Procs
reparent_one t i me init =
    if is_parent (t i).parent me
    then wakeup (update t i (record (t i) { parent = some init })) (some me) (proc_chan init)
    else t

-- The loop, from index `i` on, with `n` rounds left.
unfoldable pub reparent_from : ℕ → ℕ → Procs → ℕ → ℕ → Procs
reparent_from zero i t me init = t
reparent_from (suc n) i t me init = reparent_from n (i + 1) (reparent_one t i me init) me init

unfoldable pub reparent : Procs → ℕ → ℕ → Procs
reparent t me init = reparent_from nproc 0 t me init

-- The address of a parent, as a channel.
abbrev pub parent_chan : Option ℕ → Chan
parent_chan none = null
parent_chan (some i) = proc_chan i

-- The second part of `exit`, up to `sched`.
unfoldable pub exit_zombie : Kernel → ℕ → ℤ → Kernel
exit_zombie k me status =
    let t = reparent k.proc me k.initproc in
    let t' = wakeup t (some me) (parent_chan (t me).parent) in
    record k { proc = update t' me (record (t' me) { xstate = status; state = zombie }) }

-- What a round of `wait` ends with: a return, with the pid and the status of the child or -1, or
-- `sleep`.
pub data WaitResult : Type 0 where
  reaped : ℕ → ℤ → WaitResult
  wait_error : WaitResult
  wait_sleeps : WaitResult

-- The scan, from index `i` on, with `n` rounds left; `kids` is `havekids`. `copied` says that
-- `addr` is 0 or `copyout` succeeds, `dying` is `killed(p)`.
unfoldable pub wait_scan_from : ℕ → ℕ → Procs → ℕ → Bool → Bool → Bool → Procs × WaitResult
wait_scan_from zero i t me kids copied dying =
    (t, if not kids || dying then wait_error else wait_sleeps)
wait_scan_from (suc n) i t me kids copied dying =
    let next = wait_scan_from n (i + 1) t me kids copied dying in
    let next' = wait_scan_from n (i + 1) t me true copied dying in
    if not (is_parent (t i).parent me)
    then next
    else if not (is_zombie (t i).state)
    then next'
    else if not copied
    then (t, wait_error)
    else (update t i (freeproc (t i)), reaped (t i).pid (t i).xstate)

unfoldable pub wait_scan : Procs → ℕ → Bool → Procs × WaitResult
wait_scan t me copied = wait_scan_from nproc 0 t me false copied (t me).killed

-- ===== src/Proc/Pids.antt =====
-- The pids of the process table: no two processes in use have one pid.
use os_assignment.Prelude.{
  ℕ, zero, suc, ◌+◌, ◌^◌, ◌≤◌, ◌<◌, ◌≡◌, ◌≢◌, ◌⊎◌, inl, inr, refl, ap, Option, none, some, List, [],
  ◌∷◌, length, arith, Bool-cases, Option-cases,
}
use os_assignment.Proc.{
  set_proc, Procs, unused, used, Kernel, is_unused, nproc, freeproc, allocpid, find_unused,
  allocproc_at, allocproc_found, allocproc,
}

pub record PidsOk (k : Kernel) : Type 0 where
  pub started : 0 < k.next_pid
  pub issued : (i : ℕ) → i < nproc → (k.proc i).pid < k.next_pid
  pub free : (i : ℕ) → i < nproc → (k.proc i).state ≡ unused → (k.proc i).pid ≡ 0
  pub live : (i : ℕ) → i < nproc → (k.proc i).state ≢ unused → 0 < (k.proc i).pid
  pub distinct :
      (i j : ℕ)
      → i < nproc
      → j < nproc
      → 0 < (k.proc i).pid
      → (k.proc i).pid ≡ (k.proc j).pid
      → i ≡ j

-- What the search of `allocproc` finds.
pub find_unused_lem :
    (n i : ℕ) (t : Procs) (j : ℕ)
    → find_unused n i t ≡ some j
    → (i ≤ j) × (j < i + n) × ((t j).state ≡ unused)
unfolding find_unused
find_unused_lem zero i t j e = cc
find_unused_lem (suc n) i t j e = elim (Bool-cases (is_unused (t i).state)) [
  | inl free ↦ ground arith
  | inr busy ↦ ground (arith, find_unused_lem n (i + 1) t j)
]

allocpid-next : (k : Kernel) → k.next_pid + 1 < 2 ^ 31 → (allocpid k).0.next_pid ≡ k.next_pid + 1
unfolding allocpid
allocpid-next k h = omega arith

allocproc_at-PidsOk :
    (k : Kernel) (i : ℕ) (page table : Option ℕ)
    → k.next_pid + 1 < 2 ^ 31
    → PidsOk k
    → PidsOk (allocproc_at k i page table).0
unfolding allocproc_at allocpid freeproc
allocproc_at-PidsOk k i none table h v = record {
  started = omega arith;
  issued = λ a ha. ground (arith, v.issued a ha, allocpid-next k h);
  free = λ a ha u. ground (arith, v.free a ha);
  live = λ a ha u. ground (arith, v.live a ha);
  distinct = λ a b ha hb p e. ground (arith, v.distinct a b ha hb);
}
allocproc_at-PidsOk k i (some page) none h v = record {
  started = omega arith;
  issued = λ a ha. ground (arith, v.issued a ha, allocpid-next k h);
  free = λ a ha u. ground (arith, v.free a ha);
  live = λ a ha u. ground (arith, v.live a ha);
  distinct = λ a b ha hb p e. ground (arith, v.distinct a b ha hb);
}
allocproc_at-PidsOk k i (some page) (some table) h v = record {
  started = omega arith;
  issued = λ a ha. ground (arith, v.issued a ha, allocpid-next k h);
  free = λ a ha u. ground (arith, v.free a ha);
  live = λ a ha u. ground (arith, v.live a ha, v.started);
  distinct = λ a b ha hb p e. ground (arith, v.distinct a b ha hb, v.issued a ha, v.issued b hb);
}

pub allocproc-PidsOk :
    (k : Kernel) (page table : Option ℕ)
    → k.next_pid + 1 < 2 ^ 31
    → PidsOk k
    → PidsOk (allocproc k page table).0
unfolding allocproc
allocproc-PidsOk k page table h v = elim (Option-cases (find_unused nproc 0 k.proc)) [
  | inl e ↦ rw (e, allocproc_found) v
  | inr (i, e) ↦ rw (e, allocproc_found) (allocproc_at-PidsOk k i page table h v)
]

allocproc_at-some :
    (k : Kernel) (a : ℕ) (page table : Option ℕ) (i : ℕ)
    → (allocproc_at k a page table).1 ≡ some i
    → (a ≡ i)
      × (((allocproc_at k a page table).0.proc i).state ≡ used)
      × (((allocproc_at k a page table).0.proc i).pid ≡ k.next_pid)
unfolding allocproc_at allocpid
allocproc_at-some k a none table i e = cc
allocproc_at-some k a (some page) none i e = cc
allocproc_at-some k a (some page) (some table) i e = (ground arith, ground arith, ground arith)

allocproc_found-some :
    (k : Kernel) (o page table : Option ℕ) (i : ℕ)
    → (allocproc_found k o page table).1 ≡ some i
    → (o ≡ some i)
      × (((allocproc_found k o page table).0.proc i).state ≡ used)
      × (((allocproc_found k o page table).0.proc i).pid ≡ k.next_pid)
unfolding allocproc_found
allocproc_found-some k none page table i e = cc
allocproc_found-some k (some a) page table i e =
    let (same, st, pd) = allocproc_at-some k a page table i e in (ap some same, st, pd)

allocproc-some :
    (k : Kernel) (page table : Option ℕ) (i : ℕ)
    → (allocproc k page table).1 ≡ some i
    → (find_unused nproc 0 k.proc ≡ some i)
      × (((allocproc k page table).0.proc i).state ≡ used)
      × (((allocproc k page table).0.proc i).pid ≡ k.next_pid)
unfolding allocproc
allocproc-some k page table i e = allocproc_found-some k (find_unused nproc 0 k.proc) page table i e

-- How far a call moves `nextpid`.
Moves : Kernel → Kernel × Option ℕ → Type 0
Moves k (k', none) = (k'.next_pid ≡ k.next_pid) ⊎ (k'.next_pid ≡ k.next_pid + 1)
Moves k (k', some i) = (k'.next_pid ≡ k.next_pid + 1) × ((k'.proc i).pid ≡ k.next_pid)

allocproc_at-Moves :
    (k : Kernel) (i : ℕ) (page table : Option ℕ)
    → k.next_pid + 1 < 2 ^ 31
    → Moves k (allocproc_at k i page table)
unfolding allocproc_at allocpid Moves
allocproc_at-Moves k i none table h = inr (allocpid-next k h)
allocproc_at-Moves k i (some page) none h = inr (allocpid-next k h)
allocproc_at-Moves k i (some page) (some table) h = (allocpid-next k h, ground arith)

allocproc-Moves :
    (k : Kernel) (page table : Option ℕ)
    → k.next_pid + 1 < 2 ^ 31
    → Moves k (allocproc k page table)
unfolding allocproc Moves
allocproc-Moves k page table h = elim (Option-cases (find_unused nproc 0 k.proc)) [
  | inl e ↦ rw (e, allocproc_found) (inl refl)
  | inr (i, e) ↦ rw (e, allocproc_found) (allocproc_at-Moves k i page table h)
]

-- Calls of `allocproc`, with what their `kalloc` and `proc_pagetable` return, and of `freeproc`.
pub data Op : Type 0 where
  allocates : Option ℕ → Option ℕ → Op
  frees : ℕ → Op

abbrev pub new_pids : Kernel × Option ℕ → List ℕ → List ℕ
new_pids (k, none) pids = pids
new_pids (k, some i) pids = (k.proc i).pid ∷ pids

-- The kernel after the calls, and the pids of the processes that they return.
unfoldable pub run : Kernel → List Op → Kernel × List ℕ
run k [] = (k, [])
run k (allocates page table ∷ ops) =
    let r = allocproc k page table in let rest = run r.0 ops in (rest.0, new_pids r rest.1)
run k (frees i ∷ ops) = run (set_proc k i (freeproc (k.proc i))) ops

abbrev pub Ascending : ℕ → List ℕ → Type 0
Ascending lo [] = Unit
Ascending lo (p ∷ pids) = (lo ≤ p) × Ascending (p + 1) pids

Ascending-le : (lo lo' : ℕ) (pids : List ℕ) → lo ≤ lo' → Ascending lo' pids → Ascending lo pids
Ascending-le lo lo' [] le a = tt
Ascending-le lo lo' (p ∷ pids) le (h, a) = (omega arith, a)

-- No process of the table has one of the pids.
abbrev pub NewTo : Kernel → List ℕ → Type 0
NewTo k [] = Unit
NewTo k (p ∷ pids) = ((j : ℕ) → j < nproc → (k.proc j).pid ≢ p) × NewTo k pids

Ascending-NewTo :
    (k : Kernel) (lo : ℕ) (pids : List ℕ)
    → PidsOk k
    → k.next_pid ≤ lo
    → Ascending lo pids
    → NewTo k pids
Ascending-NewTo k lo [] v le a = tt
Ascending-NewTo k lo (p ∷ pids) v le (h, a) =
    ((λ j hj e. omega (arith, v.issued j hj, e)), Ascending-NewTo k (p + 1) pids v (omega arith) a)

freed-PidsOk : (k : Kernel) (i : ℕ) → PidsOk k → PidsOk (set_proc k i (freeproc (k.proc i)))
unfolding freeproc
freed-PidsOk k i v = record {
  started = v.started;
  issued = λ a ha. ground (arith, v.issued a ha, v.started);
  free = λ a ha u. ground (arith, v.free a ha);
  live = λ a ha u. ground (arith, v.live a ha);
  distinct = λ a b ha hb p e. ground (arith, v.distinct a b ha hb);
}

run_lem :
    (ops : List Op) (k : Kernel)
    → PidsOk k
    → k.next_pid + length ops < 2 ^ 31
    → PidsOk (run k ops).0 × Ascending k.next_pid (run k ops).1
unfolding run Moves
run_lem [] k v h = (v, tt)
run_lem (frees i ∷ ops) k v h =
    run_lem ops (set_proc k i (freeproc (k.proc i))) (freed-PidsOk k i v) (omega arith)
run_lem (allocates page table ∷ ops) k v h =
    go (allocproc k page table) (allocproc-Moves k page table (omega arith))
      (allocproc-PidsOk k page table (omega arith) v) (λ k' v' h'. run_lem ops k' v' h')
  where
    go :
        (r : Kernel × Option ℕ)
        → Moves k r
        → PidsOk r.0
        → ((k' : Kernel)
            → PidsOk k'
            → k'.next_pid + length ops < 2 ^ 31
            → PidsOk (run k' ops).0 × Ascending k'.next_pid (run k' ops).1)
        → PidsOk (run r.0 ops).0 × Ascending k.next_pid (new_pids r (run r.0 ops).1)
    go (k', none) (inl same) v' ih =
        let (v2, a) = ih k' v' (omega arith) in
        (v2, Ascending-le k.next_pid k'.next_pid _ (omega arith) a)
    go (k', none) (inr up) v' ih =
        let (v2, a) = ih k' v' (omega arith) in
        (v2, Ascending-le k.next_pid k'.next_pid _ (omega arith) a)
    go (k', some i) (up, at) v' ih =
        let (v2, a) = ih k' v' (omega arith) in
        (
          v2,
          (
            omega (arith, at),
            Ascending-le ((k'.proc i).pid + 1) k'.next_pid (run k' ops).1 (omega (arith, at)) a,
          ),
        )

-- In any run of calls of `allocproc` and `freeproc` that starts with pids apart and ends before the
-- last pid that an int can hold: the pids of the processes that `allocproc` returns ascend, so that
-- none is given twice even when entries are freed in between, no process had one of them before,
-- and the pids in the table stay apart.
pub run-Ascending :
    (k : Kernel) (ops : List Op)
    → PidsOk k
    → k.next_pid + length ops < 2 ^ 31
    → PidsOk (run k ops).0 × Ascending k.next_pid (run k ops).1 × NewTo k (run k ops).1
run-Ascending k ops v h =
    let (v', a) = run_lem ops k v h in
    (v', a, Ascending-NewTo k k.next_pid (run k ops).1 v (omega arith) a)

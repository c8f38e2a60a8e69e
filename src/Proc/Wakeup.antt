-- ===== src/Proc/Wakeup.antt =====
-- `wakeup`, `sleep` and `kill`: whom they make runnable.
use os_assignment.Prelude.{
  ℕ, zero, suc, ◌+◌, ◌≤◌, ◌<◌, ◌≡◌, ◌≢◌, ◌⊎◌, inl, inr, Bool, true, false, not, ◌&&◌, refl, ap, ◌∙◌,
  Bool-cases, Option-cases, ◌==◌, Option, some, none, arith, ltb, update, ℕ_discrete, if◌then◌else◌,
  for_each_lem, update_self,
}
use os_assignment.Proc.Pids.{PidsOk, find_unused_lem}
use os_assignment.Proc.{
  is_unused, Proc, Procs, sleeping, runnable, unused, Chan, chan_eq, is_parent, nproc, wake_one,
  wake_other, wakeup, sleep_begin, kill_one, kill_from, kill, allocproc, allocpid, find_unused,
  Kernel,
}

-- `wakeup` makes the sleepers on its channel runnable, but for the caller, and changes no other
-- process.
pub wakeup_lem :
    (t : Procs) (me : Option ℕ) (chan : Chan) (k : ℕ)
    → wakeup t me chan k
      ≡ (if ltb k nproc && not (is_parent me k) then wake_one chan (t k) else t k)
unfolding wakeup wake_other
wakeup_lem t me chan k = for_each_lem nproc 0 (wake_other me chan) t k ∙ ground arith

pub chan_eq_refl : (c : Chan) → chan_eq c c ≡ true
chan_eq_refl c = ground arith

-- A process that has gone to sleep on a channel is made runnable by a `wakeup` of that channel by
-- another process, whatever the others do meanwhile to their own entries.
pub wakeup-sleep_begin :
    (t t' : Procs) (me : ℕ) (other : Option ℕ) (chan : Chan)
    → me < nproc
    → is_parent other me ≡ false
    → t' me ≡ sleep_begin t me chan me
    → (wakeup t' other chan me).state ≡ runnable
unfolding sleep_begin wake_one
wakeup-sleep_begin t t' me other chan h ne e =
    ap (λ (p : Proc). p.state) (wakeup_lem t' other chan me)
    ∙ ground (
      arith,
      update_self t me (record (t me) { chan = chan; state = sleeping }),
      chan_eq_refl chan,
    )

-- What the search of `kill` finds, from index `i` on with `n` rounds left.
abbrev pub Kills : Procs → ℕ → ℕ → ℕ → Procs × Bool → Type 0
Kills t i n pid r =
    ((j : ℕ) × (i ≤ j)
      × (j < i + n)
      × ((t j).pid ≡ pid)
      × ((k : ℕ) → i ≤ k → k < j → (t k).pid ≢ pid)
      × (r ≡ (update t j (kill_one (t j)), true)))
    ⊎ (((k : ℕ) → i ≤ k → k < i + n → (t k).pid ≢ pid) × (r ≡ (t, false)))

kill_from-Kills : (n i : ℕ) (t : Procs) (pid : ℕ) → Kills t i n pid (kill_from n i t pid)
unfolding kill_from
kill_from-Kills zero i t pid = inr ((λ k p q. absurd (omega arith)), refl)
kill_from-Kills (suc n) i t pid = elim (ℕ_discrete (t i).pid pid) [
  | yes found ↦
      inl (i, omega arith, omega arith, found, (λ k p q. absurd (omega arith)), ground arith)
  | no other ↦ elim (kill_from-Kills n (i + 1) t pid) [
    | inl (j, lo, hi, found, below, e) ↦
        inl
          (j, omega arith, omega arith, found, (λ k p q. grind (arith, below, other)), ground arith)
    | inr (nobody, e) ↦ inr ((λ k p q. grind (arith, nobody, other)), ground arith)
  ]
]

-- `kill` marks the first process that has the pid and wakes it if it sleeps; it returns -1 and
-- changes nothing just when no process has the pid.
pub kill-Kills : (t : Procs) (pid : ℕ) → Kills t 0 nproc pid (kill t pid)
unfolding kill
kill-Kills t pid = kill_from-Kills nproc 0 t pid

-- The search of `kill` for pid 0 stops where that of `allocproc` stops, if just the free entries
-- have pid 0.
kill_zero :
    (n i : ℕ) (t : Procs) (j : ℕ)
    → ((k : ℕ) → i ≤ k → k < i + n → (t k).state ≡ unused → (t k).pid ≡ 0)
    → ((k : ℕ) → i ≤ k → k < i + n → (t k).state ≢ unused → 0 < (t k).pid)
    → find_unused n i t ≡ some j
    → kill_from n i t 0 ≡ (update t j (kill_one (t j)), true)
unfolding find_unused kill_from
kill_zero zero i t j free live e = cc
kill_zero (suc n) i t j free live e = elim (Bool-cases (is_unused (t i).state)) [
  | inl is ↦
      let z : ((t i).pid == 0) ≡ true = ground (arith, free i) in
      let at : i ≡ j = ground arith in rw z (ap (λ x. (update t x (kill_one (t x)), true)) at)
  | inr busy ↦
      let nz : ((t i).pid == 0) ≡ false = ground (arith, live i) in
      let later : find_unused n (i + 1) t ≡ some j = ground arith in
      rw nz (
        kill_zero n (i + 1) t j (λ k lo hi. free k (omega arith) (omega arith))
          (λ k lo hi. live k (omega arith) (omega arith)) later)
]

-- The search of `allocproc` sees the states only.
find_unused-same :
    (n i : ℕ) (t t' : Procs)
    → ((k : ℕ) → (t' k).state ≡ (t k).state)
    → find_unused n i t' ≡ find_unused n i t
unfolding find_unused
find_unused-same zero i t t' same = refl
find_unused-same (suc n) i t t' same =
    ap (λ x. if is_unused x then some i else find_unused n (i + 1) t') (same i)
    ∙ ap (λ x. if is_unused (t i).state then some i else x) (find_unused-same n (i + 1) t t' same)

kill_one-state : (p : Proc) → p.state ≡ unused → (kill_one p).state ≡ unused
unfolding kill_one
kill_one-state p e = ground arith

kill_one-killed : (p : Proc) → (kill_one p).killed ≡ true
unfolding kill_one
kill_one-killed p = ground arith

find_unused-none :
    (n i : ℕ) (t : Procs)
    → find_unused n i t ≡ none
    → (k : ℕ) → i ≤ k
    → k < i + n
    → (t k).state ≢ unused
unfolding find_unused
find_unused-none zero i t e k lo hi = absurd (omega arith)
find_unused-none (suc n) i t e k lo hi = elim (Bool-cases (is_unused (t i).state)) [
  | inl is ↦ absurd (ground arith)
  | inr busy ↦ elim (ℕ_discrete k i) [
    | yes same ↦ ground arith
    | no differ ↦ find_unused-none n (i + 1) t (ground arith) k (omega arith) (omega arith)
  ]
]

allocproc-taken :
    (k : Kernel) (page table j : ℕ)
    → find_unused nproc 0 k.proc ≡ some j
    → ((allocproc k (some page) (some table)).1 ≡ some j)
      × (((allocproc k (some page) (some table)).0.proc j).killed ≡ (k.proc j).killed)
unfolding allocproc allocpid
allocproc-taken k page table j e = rw (e, allocproc) (refl, ground arith)

-- On a table in which just the free entries have pid 0, and one is free: `kill(0)` returns 0,
-- though no process has pid 0, and `allocproc`, which takes the same entry when its pages can be
-- had, does not clear the mark. The new process is born killed.
pub kill_zero-allocproc :
    (k : Kernel) (page table i : ℕ)
    → PidsOk k
    → i < nproc
    → (k.proc i).state ≡ unused
    → (j : ℕ) × ((k.proc j).state ≡ unused)
      × ((kill k.proc 0).1 ≡ true)
      × ((allocproc (record k { proc = (kill k.proc 0).0 }) (some page) (some table)).1 ≡ some j)
      × (((allocproc (record k { proc = (kill k.proc 0).0 }) (some page) (some table)).0.proc
            j).killed
          ≡ true)
unfolding kill
kill_zero-allocproc k page table i v hi u = elim (Option-cases (find_unused nproc 0 k.proc)) [
  | inl e ↦ absurd (find_unused-none nproc 0 k.proc e i (omega arith) (omega arith) u)
  | inr (j, e) ↦
      let (lo, lt, free) = find_unused_lem nproc 0 k.proc j e in
      let marks : kill_from nproc 0 k.proc 0 ≡ (update k.proc j (kill_one (k.proc j)), true) =
        kill_zero nproc 0 k.proc j (λ x l h. v.free x (omega arith))
          (λ x l h. v.live x (omega arith)) e in
      let k' : Kernel = record k { proc = (kill_from nproc 0 k.proc 0).0 } in
      let at : k'.proc j ≡ kill_one (k.proc j) =
        ap (λ (r : Procs × Bool). r.0 j) marks ∙ update_self k.proc j (kill_one (k.proc j)) in
      let same : (x : ℕ) → (k'.proc x).state ≡ (k.proc x).state =
        λ x. ap (λ (r : Procs × Bool). (r.0 x).state) marks ∙ same_state k.proc j x free in
      let (gives, keeps) =
        allocproc-taken k' page table j (find_unused-same nproc 0 k.proc k'.proc same ∙ e) in
      (
        j,
        free,
        ap (λ (r : Procs × Bool). r.1) marks,
        gives,
        keeps ∙ ap (λ (p : Proc). p.killed) at ∙ kill_one-killed (k.proc j),
      )
]
  where
    same_state :
        (t : Procs) (j x : ℕ)
        → (t j).state ≡ unused
        → (update t j (kill_one (t j)) x).state ≡ (t x).state
    same_state t j x free = ground (arith, kill_one-state (t j))

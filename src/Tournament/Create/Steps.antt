-- ===== src/Tournament/Create/Steps.antt =====
-- The loops of `tournament_create`, which create the locks and fork the processes.
use mathlib.Core.Path.{subst}
use os_assignment.Prelude.{
  ℕ, zero, suc, ◌+◌, ◌-◌, ◌≤◌, ◌<◌, ◌≡◌, refl, sym, ap, ◌∙◌, ◌⊎◌, inl, inr, Option, none, some,
  Bool, true, false, arith, ◌==◌, update, update-eq, update-ne, ℕ_discrete,
}
use os_assignment.Prelude.Int.{ℤ, pos}
use os_assignment.Peterson.{npetersonlocks, Table, allocated, sys_peterson_create}
use os_assignment.Peterson.Calls.{sys_peterson_create-Allocates}
use os_assignment.Tournament.{create_locks, fork_all}

-- Equality of optional numbers, as a test.
abbrev pub option_eq : Option ℕ → Option ℕ → Bool
option_eq none none = true
option_eq (some a) (some b) = a == b
option_eq none (some b) = false
option_eq (some a) none = false

pub option_eq_sound : (a b : Option ℕ) → option_eq a b ≡ true → a ≡ b
option_eq_sound none none h = refl
option_eq_sound (some a) (some b) h = ground arith
option_eq_sound none (some b) h = cc
option_eq_sound (some a) none h = cc

-- The slots below `i` are in use, the others are free.
abbrev pub Filled : Table → ℕ → Type 0
Filled t i =
    ((j : ℕ) → j < i → (t j).active ≡ true)
    × ((j : ℕ) → i ≤ j → j < npetersonlocks → (t j).active ≡ false)

create_next :
    (t : Table) (i : ℕ)
    → i < npetersonlocks
    → Filled t i
    → sys_peterson_create t ≡ (update t i allocated, pos i)
create_next t i h (used, free) = elim (sys_peterson_create-Allocates t) [
  | inl (j, lo, hi, idle_j, below, e) ↦ elim (ℕ_discrete j i) [
    | yes same ↦ subst (λ k. sys_peterson_create t ≡ (update t k allocated, pos k)) same e
    | no ne ↦ absurd (grind (arith, used, free, below, idle_j))
  ]
  | inr (full, e) ↦ absurd (grind (arith, free, full))
]

Filled-next : (t : Table) (i : ℕ) → Filled t i → Filled (update t i allocated) (i + 1)
Filled-next t i (used, free) = ((λ j h. ground (arith, used j)), (λ j h h'. ground (arith, free j)))

-- What the loop leaves: the ids of the array and the slots from `i` on.
pub record Locks (n i : ℕ) (ids : ℕ → ℤ) (t : Table) (r : (ℕ → ℤ) × Table × Bool) : Type 0 where
  pub good : r.2 ≡ true
  pub ids_kept : (j : ℕ) → j < i → r.0 j ≡ ids j
  pub ids_new : (j : ℕ) → i ≤ j → j < i + n → r.0 j ≡ pos j
  pub slots_new : (j : ℕ) → i ≤ j → j < i + n → r.1 j ≡ allocated
  pub slots_kept : (j : ℕ) → (j < i) ⊎ (i + n ≤ j) → r.1 j ≡ t j

pub create_locks-Locks :
    (n i : ℕ) (ids : ℕ → ℤ) (t : Table)
    → i + n ≤ npetersonlocks
    → Filled t i
    → Locks n i ids t (create_locks n i ids t)
unfolding create_locks
create_locks-Locks zero i ids t h f = record {
  good = refl;
  ids_kept = λ j lt. refl;
  ids_new = λ j lo hi. absurd (omega arith);
  slots_new = λ j lo hi. absurd (omega arith);
  slots_kept = λ j out. refl;
}
create_locks-Locks (suc n) i ids t h f =
    let ih : Locks n (i + 1) (update ids i (pos i)) (update t i allocated)
        (create_locks n (i + 1) (update ids i (pos i)) (update t i allocated)) =
      create_locks-Locks n (i + 1) (update ids i (pos i)) (update t i allocated) (omega arith)
        (Filled-next t i f) in
    rw (create_next t i (omega arith) f) (record {
      good = ih.good;
      ids_kept =
          λ j lt. ih.ids_kept j (omega arith) ∙ update-ne ids i j (pos i) (λ e. omega (arith, e));
      ids_new = λ j lo hi. elim (ℕ_discrete i j) [
        | yes e ↦ ih.ids_kept j (omega arith) ∙ update-eq ids i j (pos i) e ∙ ap pos e
        | no ne ↦ ih.ids_new j (omega arith) (omega arith)
      ];
      slots_new = λ j lo hi. elim (ℕ_discrete i j) [
        | yes e ↦ ih.slots_kept j (inl (omega arith)) ∙ update-eq t i j allocated e
        | no ne ↦ ih.slots_new j (omega arith) (omega arith)
      ];
      slots_kept =
          λ j out. ih.slots_kept j (ground arith) ∙ update-ne t i j allocated (ground arith);
    })

-- What the forks return to process `i` of `n`: to process 0 a pid each time, to another a pid for
-- each process before it, and then 0.
abbrev pub Answers : ℕ → ℕ → (ℕ → ℤ) → Type 0
Answers n i fork =
    ((j : ℕ) → 0 < j → j < n → (i ≡ 0) ⊎ (j < i) → (p : ℕ) × (fork j ≡ pos (suc p)))
    × (0 < i → fork i ≡ pos 0)

fork_all-child :
    (n k i : ℕ) (fork : ℕ → ℤ) (me : ℤ)
    → 0 < k
    → k ≤ i
    → i < k + n
    → Answers (k + n) i fork
    → fork_all n k fork me ≡ (pos i, pos i)
unfolding fork_all
fork_all-child zero k i fork me h lo hi a = absurd (omega arith)
fork_all-child (suc n) k i fork me h lo hi (before, last) = elim (ℕ_discrete k i) [
  | yes e ↦ rw (ap fork e ∙ last (omega arith)) (ap (λ x. (pos x, pos x)) e)
  | no ne ↦
      let (p, e) = before k h (omega arith) (inr (omega arith)) in
      rw e (
        fork_all-child n (k + 1) i fork me (omega arith) (omega arith) (omega arith)
          ((λ j a b. before j a (omega arith)), last))
]

fork_all-parent :
    (n k : ℕ) (fork : ℕ → ℤ) (me : ℤ)
    → 0 < k
    → Answers (k + n) 0 fork
    → fork_all n k fork me ≡ (me, me)
unfolding fork_all
fork_all-parent zero k fork me h a = refl
fork_all-parent (suc n) k fork me h (all, last) =
    let (p, e) = all k h (omega arith) (inl refl) in
    rw e (fork_all-parent n (k + 1) fork me (omega arith) ((λ j a b. all j a (omega arith)), last))

-- Each process leaves the loop with its number.
pub fork_all-Answers :
    (n i : ℕ) (fork : ℕ → ℤ)
    → i < n
    → Answers n i fork
    → fork_all (n - 1) 1 fork (pos 0) ≡ (pos i, pos i)
fork_all-Answers n i fork h a = elim (ℕ_discrete i 0) [
  | yes e ↦
      fork_all-parent (n - 1) 1 fork (pos 0) (omega arith)
        (subst (λ m. Answers m 0 fork) (omega arith) (subst (λ k. Answers n k fork) e a))
      ∙ ap (λ x. (pos x, pos x)) (sym e)
  | no ne ↦
      fork_all-child (n - 1) 1 i fork (pos 0) (omega arith) (omega arith) (omega arith)
        (subst (λ m. Answers m i fork) (omega arith) a)
]

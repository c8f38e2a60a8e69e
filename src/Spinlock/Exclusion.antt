-- ===== src/Spinlock/Exclusion.antt =====
-- A spin lock is held by one CPU at a time, and `acquire` and `release` do not panic.
use os_assignment.Prelude.{
  ℕ, ◌≡◌, ◌≢◌, Bool, true, false, refl, sym, ap, ◌∙◌, Option, none, some, arith, update, update-eq,
  update-ne, inl, inr, Bool-cases, ℕ_discrete,
}
use mathlib.Core.Path.{subst}
use os_assignment.Spinlock.{
  Lock, initlock, holding, is_cpu, Pc, outside, spinning, recording, inside, clearing, panicked,
  advance, System, step, Reach, here, next, start,
}

-- Between the swap that wins the lock and the store that clears it.
abbrev pub owns : Pc → Bool
owns recording = true
owns inside = true
owns clearing = true
owns outside = false
owns spinning = false
owns panicked = false

-- What the lock records while CPU `i` stands at `p`.
abbrev pub Records : Pc → Option ℕ → ℕ → Type 0
Records inside o i = is_cpu o i ≡ true
Records panicked o i = ⊥
Records outside o i = is_cpu o i ≡ false
Records spinning o i = is_cpu o i ≡ false
Records recording o i = is_cpu o i ≡ false
Records clearing o i = is_cpu o i ≡ false

pub record Inv (lk : Lock) (pc : ℕ → Pc) : Type 0 where
  pub taken : (i : ℕ) → owns (pc i) ≡ true → lk.locked ≡ true
  pub one : (i j : ℕ) → owns (pc i) ≡ true → owns (pc j) ≡ true → i ≡ j
  pub records : (i : ℕ) → Records (pc i) lk.cpu i

-- CPU `i` takes a step to `q` that leaves the lock at `lk'`.
move-Inv :
    (lk lk' : Lock) (pc : ℕ → Pc) (i : ℕ) (q : Pc)
    → Inv lk pc
    → (owns q ≡ true → lk'.locked ≡ true)
    → ((j : ℕ) → j ≢ i → owns (pc j) ≡ true → (lk'.locked ≡ true) × (owns q ≡ false))
    → Records q lk'.cpu i
    → ((j : ℕ) → j ≢ i → Records (pc j) lk'.cpu j)
    → Inv lk' (update pc i q)
move-Inv lk lk' pc i q v own others mine rest = record {
  taken = λ j h. elim (ℕ_discrete j i) [
    | yes e ↦ own (sym (ap owns (update-eq pc i j q (sym e))) ∙ h)
    | no ne ↦ (others j ne (sym (ap owns (update-ne pc i j q (λ e. ne (sym e)))) ∙ h)).0
  ];
  one = λ j k hj hk. elim (ℕ_discrete j i) [
    | yes e ↦ elim (ℕ_discrete k i) [
      | yes e' ↦ e ∙ sym e'
      | no ne' ↦ absurd (
          clash k ne' (sym (ap owns (update-ne pc i k q (λ e. ne' (sym e)))) ∙ hk)
            (sym (ap owns (update-eq pc i j q (sym e))) ∙ hj))
    ]
    | no ne ↦ elim (ℕ_discrete k i) [
      | yes e' ↦ absurd (
          clash j ne (sym (ap owns (update-ne pc i j q (λ e. ne (sym e)))) ∙ hj)
            (sym (ap owns (update-eq pc i k q (sym e'))) ∙ hk))
      | no ne' ↦
          v.one j k (sym (ap owns (update-ne pc i j q (λ e. ne (sym e)))) ∙ hj)
            (sym (ap owns (update-ne pc i k q (λ e. ne' (sym e)))) ∙ hk)
    ]
  ];
  records = λ j. elim (ℕ_discrete j i) [
    | yes e ↦
        subst (λ p. Records p lk'.cpu j) (sym (update-eq pc i j q (sym e)))
          (subst (λ x. Records q lk'.cpu x) (sym e) mine)
    | no ne ↦
        subst (λ p. Records p lk'.cpu j) (sym (update-ne pc i j q (λ e. ne (sym e)))) (rest j ne)
  ];
}
  where
    clash : (j : ℕ) → j ≢ i → owns (pc j) ≡ true → owns q ≡ true → ⊥
    clash j ne h h' = let e : owns q ≡ false = (others j ne h).1 in cc

-- Another CPU's record is that it is not recorded, unless it is inside.
Records-none : (p : Pc) (j : ℕ) → owns p ≡ false → p ≢ panicked → Records p none j
Records-none outside j h n = refl
Records-none spinning j h n = refl
Records-none panicked j h n = n refl
Records-none recording j h n = refl
Records-none inside j h n = cc
Records-none clearing j h n = refl

not_panicked : (p : Pc) (o : Option ℕ) (j : ℕ) → Records p o j → p ≢ panicked
not_panicked p o j r e = subst (λ x. Records x o j) e r

Records-other : (p : Pc) (i j : ℕ) → j ≢ i → owns p ≡ false → p ≢ panicked → Records p (some i) j
Records-other outside i j ne h n = ground arith
Records-other spinning i j ne h n = ground arith
Records-other panicked i j ne h n = n refl
Records-other recording i j ne h n = ground arith
Records-other inside i j ne h n = cc
Records-other clearing i j ne h n = ground arith

module _ (lk : Lock) (pc : ℕ → Pc) (v : Inv lk pc) (i : ℕ) where
  After : Pc → Type 0
  After p = Inv (advance i lk p).0 (update pc i (advance i lk p).1)

  -- While CPU `i` owns the lock no other CPU does.
  only : owns (pc i) ≡ true → (j : ℕ) → j ≢ i → owns (pc j) ≡ false
  only h j ne = elim (Bool-cases (owns (pc j))) [
    | inl own ↦ absurd (ne (v.one j i own h))
    | inr no_owner ↦ no_owner
  ]

  mine_at : (p : Pc) → pc i ≡ p → Records p lk.cpu i
  mine_at p e = subst (λ x. Records x lk.cpu i) e (v.records i)

  alone : owns (pc i) ≡ true → {P : Type 0} → (j : ℕ) → j ≢ i → owns (pc j) ≡ true → P
  alone h j ne h' = absurd (ne (v.one j i h' h))

  kept : (j : ℕ) → pc j ≢ panicked
  kept j = not_panicked (pc j) lk.cpu j (v.records j)

  advance-After : (p : Pc) → pc i ≡ p → After p
  unfolding After advance holding
  advance-After outside e =
      let off : is_cpu lk.cpu i ≡ false = mine_at outside e in
      let free : holding lk i ≡ false = ground (arith, off) in
      rw free (
        move-Inv lk lk pc i spinning v (λ h. cc) (λ j ne h. (v.taken j h, refl)) off
          (λ j ne. v.records j))
  advance-After spinning e = elim (Bool-cases lk.locked) [
    | inl l ↦ rw l (
        move-Inv lk _ pc i spinning v (λ h. refl) (λ j ne h. (refl, refl)) (mine_at spinning e)
          (λ j ne. v.records j))
    | inr l ↦ rw l (
        move-Inv lk _ pc i recording v (λ h. refl)
          (λ j ne h. absurd (let t : lk.locked ≡ true = v.taken j h in cc)) (mine_at spinning e)
          (λ j ne. v.records j))
  ]
  advance-After recording e =
      move-Inv lk _ pc i inside v (λ h. v.taken i (ap owns e)) (λ j ne h. alone (ap owns e) j ne h)
        (ground arith) (λ j ne. Records-other (pc j) i j ne (only (ap owns e) j ne) (kept j))
  advance-After inside e =
      let on : is_cpu lk.cpu i ≡ true = mine_at inside e in
      let l : lk.locked ≡ true = v.taken i (ap owns e) in
      let mine : holding lk i ≡ true = ground (arith, on, l) in
      rw mine (
        move-Inv lk _ pc i clearing v (λ h. l) (λ j ne h. alone (ap owns e) j ne h) refl
          (λ j ne. Records-none (pc j) j (only (ap owns e) j ne) (kept j)))
  advance-After clearing e =
      move-Inv lk _ pc i outside v (λ h. cc) (λ j ne h. alone (ap owns e) j ne h)
        (mine_at clearing e) (λ j ne. v.records j)
  advance-After panicked e = absurd (mine_at panicked e)

Reach-Inv : {s : System} → Reach start s → Inv s.lock s.pc
unfolding step initlock After
Reach-Inv here = record { taken = λ i h. cc; one = λ i j h h'. cc; records = λ i. refl }
Reach-Inv (next {t} r i) = advance-After t.lock t.pc (Reach-Inv r) i (t.pc i) refl

-- In every state that the CPUs reach from a new lock, two of them that have won the lock and not yet
-- cleared it are one.
pub one_holder :
    {s : System} → Reach start s → (i j : ℕ) → owns (s.pc i) ≡ true → owns (s.pc j) ≡ true → i ≡ j
one_holder r i j h h' = (Reach-Inv r).one i j h h'

-- In every state that the CPUs reach from a new lock, none has met a panic of `acquire` or `release`.
pub no_lock_panic : {s : System} → Reach start s → (i : ℕ) → s.pc i ≢ panicked
no_lock_panic {s} r i = not_panicked (s.pc i) s.lock.cpu i ((Reach-Inv r).records i)

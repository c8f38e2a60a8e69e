-- ===== src/Proc/Reap.antt =====
-- `exit` and `wait`: the children of a process that exits, and what its parent finds.
use mathlib.Core.Path.{subst}
use os_assignment.Prelude.{
  ℕ, zero, suc, ◌+◌, ◌≤◌, ◌<◌, ◌≡◌, ◌≢◌, ◌⊎◌, inl, inr, Bool, true, false, refl, sym, Option, some,
  arith, update, Bool-cases, if◌then◌else◌,
}
use os_assignment.Proc.{Procs, State, zombie, is_parent, is_zombie, nproc, freeproc}
use os_assignment.Proc.Lifecycle.{
  WaitResult, reaped, wait_error, wait_sleeps, wait_scan_from, wait_scan,
}

-- What a scan started at `i` with `n` rounds left ends with.
abbrev pub Scans : Procs → ℕ → ℕ → ℕ → Bool → Bool → Bool → Procs × WaitResult → Type 0
Scans t i n me kids copied dying r =
    ((j : ℕ) × (i ≤ j)
      × (j < i + n)
      × ((t j).parent ≡ some me)
      × ((t j).state ≡ zombie)
      × ((k : ℕ) → i ≤ k → k < j → (t k).parent ≡ some me → (t k).state ≢ zombie)
      × (r ≡ (
          if copied
          then (update t j (freeproc (t j)), reaped (t j).pid (t j).xstate)
          else (t, wait_error))))
    ⊎ (((k : ℕ) → i ≤ k → k < i + n → (t k).parent ≡ some me → (t k).state ≢ zombie)
        × (r.0 ≡ t)
        × (((r.1 ≡ wait_error)
              × ((dying ≡ true)
                  ⊎ ((kids ≡ false) × ((k : ℕ) → i ≤ k → k < i + n → (t k).parent ≢ some me))))
            ⊎ ((r.1 ≡ wait_sleeps)
                × (dying ≡ false)
                × ((kids ≡ true) ⊎ ((j : ℕ) × (i ≤ j) × (j < i + n) × ((t j).parent ≡ some me))))))

is_parent_iff : (o : Option ℕ) (i : ℕ) → is_parent o i ≡ true → o ≡ some i
is_parent_iff o i h = ground arith

not_parent : (o : Option ℕ) (i : ℕ) → is_parent o i ≡ false → o ≢ some i
not_parent o i h e = ground arith

is_zombie_iff : (s : State) → is_zombie s ≡ true → s ≡ zombie
is_zombie_iff s h = ground arith

not_zombie : (s : State) → is_zombie s ≡ false → s ≢ zombie
not_zombie s h e = ground arith

scan_end :
    (i : ℕ) (t : Procs) (me : ℕ) (kids copied dying : Bool)
    → Scans t i 0 me kids copied dying (wait_scan_from 0 i t me kids copied dying)
unfolding wait_scan_from
scan_end i t me true copied true = inr ((λ k p q. absurd (omega arith)), refl, inl (refl, inl refl))
scan_end i t me true copied false =
    inr ((λ k p q. absurd (omega arith)), refl, inr (refl, refl, inl refl))
scan_end i t me false copied true =
    inr ((λ k p q. absurd (omega arith)), refl, inl (refl, inl refl))
scan_end i t me false copied false =
    inr
      ((λ k p q. absurd (omega arith)), refl, inl (refl, inr (refl, λ k p q. absurd (omega arith))))

-- A process that is no child is passed over.
scan_past :
    (n i : ℕ) (t : Procs) (me : ℕ) (kids copied dying : Bool) (r : Procs × WaitResult)
    → (t i).parent ≢ some me
    → Scans t (i + 1) n me kids copied dying r
    → Scans t i (suc n) me kids copied dying r
scan_past n i t me kids copied dying r other (inl (j, lo, hi, own, z, below, e)) =
    inl (j, omega arith, omega arith, own, z, (λ k p q. grind (arith, below, other)), e)
scan_past n i t me kids copied dying r other (inr (none_z, same, inl (e, inl d))) =
    inr ((λ k p q. grind (arith, none_z, other)), same, inl (e, inl d))
scan_past n i t me kids copied dying r other (inr (none_z, same, inl (e, inr (nk, no_child)))) =
    inr (
      (λ k p q. grind (arith, none_z, other)),
      same,
      inl (e, inr (nk, λ k p q. grind (arith, no_child, other))),
    )
scan_past n i t me kids copied dying r other (inr (none_z, same, inr (e, d, inl nk))) =
    inr ((λ k p q. grind (arith, none_z, other)), same, inr (e, d, inl nk))
scan_past n i t me kids copied dying r other
      (inr (none_z, same, inr (e, d, inr (j, lo, hi, own)))) =
    inr (
      (λ k p q. grind (arith, none_z, other)),
      same,
      inr (e, d, inr (j, omega arith, omega arith, own)),
    )

-- A child that is no zombie is remembered.
scan_child :
    (n i : ℕ) (t : Procs) (me : ℕ) (kids copied dying : Bool) (r : Procs × WaitResult)
    → (t i).parent ≡ some me
    → (t i).state ≢ zombie
    → Scans t (i + 1) n me true copied dying r
    → Scans t i (suc n) me kids copied dying r
scan_child n i t me kids copied dying r own_i live (inl (j, lo, hi, own, z, below, e)) =
    inl (j, omega arith, omega arith, own, z, (λ k p q. grind (arith, below, live)), e)
scan_child n i t me kids copied dying r own_i live (inr (none_z, same, inl (e, inl d))) =
    inr ((λ k p q. grind (arith, none_z, live)), same, inl (e, inl d))
scan_child n i t me kids copied dying r own_i live
      (inr (none_z, same, inl (e, inr (nk, no_child)))) =
    cc
scan_child n i t me kids copied dying r own_i live (inr (none_z, same, inr (e, d, _))) = inr (
  (λ k p q. grind (arith, none_z, live)),
  same,
  inr (e, d, inr (i, omega arith, omega arith, own_i)),
)

-- The first zombie among the children is reaped.
scan_found :
    (n i : ℕ) (t : Procs) (me : ℕ) (kids copied dying : Bool)
    → (t i).parent ≡ some me
    → (t i).state ≡ zombie
    → Scans t i (suc n) me kids copied dying (wait_scan_from (suc n) i t me kids copied dying)
unfolding wait_scan_from
scan_found n i t me kids copied dying own z =
    inl (i, omega arith, omega arith, own, z, (λ k p q. absurd (omega arith)), ground arith)

wait_scan_from-Scans :
    (n i : ℕ) (t : Procs) (me : ℕ) (kids copied dying : Bool)
    → Scans t i n me kids copied dying (wait_scan_from n i t me kids copied dying)
unfolding wait_scan_from
wait_scan_from-Scans zero i t me kids copied dying = scan_end i t me kids copied dying
wait_scan_from-Scans (suc n) i t me kids copied dying =
    elim (Bool-cases (is_parent (t i).parent me)) [
      | inr other ↦ subst (Scans t i (suc n) me kids copied dying) (sym (skip other)) (
          scan_past n i t me kids copied dying _ (not_parent (t i).parent me other)
            (wait_scan_from-Scans n (i + 1) t me kids copied dying))
      | inl own ↦ elim (Bool-cases (is_zombie (t i).state)) [
        | inl z ↦
            scan_found n i t me kids copied dying (is_parent_iff (t i).parent me own)
              (is_zombie_iff (t i).state z)
        | inr live ↦ subst (Scans t i (suc n) me kids copied dying) (sym (remember own live)) (
            scan_child n i t me kids copied dying _ (is_parent_iff (t i).parent me own)
              (not_zombie (t i).state live) (wait_scan_from-Scans n (i + 1) t me true copied dying))
      ]
    ]
  where
    skip :
        is_parent (t i).parent me ≡ false
        → wait_scan_from (suc n) i t me kids copied dying
          ≡ wait_scan_from n (i + 1) t me kids copied dying
    skip other = rw other

    remember :
        is_parent (t i).parent me ≡ true
        → is_zombie (t i).state ≡ false
        → wait_scan_from (suc n) i t me kids copied dying
          ≡ wait_scan_from n (i + 1) t me true copied dying
    remember own live = rw (own, live)

-- A round of `wait` reaps the first child that is a zombie, with its pid and its status, and frees
-- its entry; with no such child it changes nothing, and returns -1 just when the caller has no
-- child or is killed, and sleeps otherwise. A failed copy of the status returns -1 and frees nothing.
pub wait_scan-Scans :
    (t : Procs) (me : ℕ) (copied : Bool)
    → Scans t 0 nproc me false copied (t me).killed (wait_scan t me copied)
unfolding wait_scan
wait_scan-Scans t me copied = wait_scan_from-Scans nproc 0 t me false copied (t me).killed

-- ===== src/Vm/Space/Undo.antt =====
-- `uvmdealloc` of pages that `uvmalloc` has mapped, and what `uvmalloc` does when it fails.
use os_assignment.Prelude.{
  ℕ, ◌+◌, ◌-◌, ◌*◌, ◌/◌, ◌%◌, ◌≤◌, ◌<◌, ◌≡◌, ◌≢◌, refl, sym, ap, ◌∙◌, inl, inr, Bool, true, false,
  ◌&&◌, Option, none, some, arith, ltb, leb, if◌then◌else◌, Bool-cases,
}
use os_assignment.Vm.{maxva, is_valid, pte_flags, pte2pa, make_pte, Mem, uvmunmap}
use os_assignment.Vm.Map.Write.{entry, IsTree}
use os_assignment.Vm.Unmap.{IsBare, StuckAt, Unmaps, uvmunmap-Unmaps}
use os_assignment.Vm.Space.{pg_round_up, uvmdealloc, undo}

pub IsTree-IsBare : (m : Mem) (root : ℕ) → IsTree m root → IsBare m root
IsTree-IsBare m root (place, t) = (place, record { at_top = t.at_top; below = t.below; spare = tt })

-- An entry that `uvmalloc` has made: a page that `kfree` takes.
pub data Mine (is_page : ℕ → Bool) (perm e : ℕ) : Type 0 where
  mine : (q : ℕ) → q % 4096 ≡ 0 → is_page q ≡ true → e ≡ make_pte q perm → Mine is_page perm e

pub Mine-valid : {is_page : ℕ → Bool} {perm e : ℕ} → Mine is_page perm e → is_valid e ≡ true
Mine-valid (mine q al p eq) = ap is_valid eq ∙ ground arith

Mine-NotStuck :
    {is_page : ℕ → Bool} {perm e : ℕ}
    → perm % 1024 / 2 ≢ 0
    → Mine is_page perm e
    → StuckAt is_page e true
    → ⊥
Mine-NotStuck {is_page} {perm} {e} some_perm (mine q al p eq) (inl v) =
    (let v' : is_valid e ≡ true = Mine-valid {is_page = is_page} {perm = perm} (mine q al p eq) in
      cc)
Mine-NotStuck {is_page} {perm} {e} some_perm (mine q al p eq) (inr (inl f)) =
    (let f' : pte_flags (make_pte q perm) ≡ 1 = ap pte_flags (sym eq) ∙ f in
      some_perm (omega arith))
Mine-NotStuck {is_page} {perm} {e} some_perm (mine q al p eq) (inr (inr (_, b))) =
    (let same : pte2pa (make_pte q perm) ≡ q = omega arith in
      let b' : is_page q ≡ false =
        ap is_page (sym same) ∙ ap (λ x. is_page (pte2pa x)) (sym eq) ∙ b in
      cc)

-- The pages from `start` to `a` are out of the table, and nothing else has changed.
pub record Undone (m : Mem) (root start a : ℕ) (r : Mem × ℕ) : Type 0 where
  pub zero_size : r.1 ≡ 0
  pub bare : IsBare r.0 root
  pub entries :
      (va : ℕ)
      → va < maxva
      → entry r.0 root va ≡ (if leb start va && ltb va a then 0 else entry m root va)

pub undo-Undone :
    (is_page : ℕ → Bool) (m : Mem) (root start a perm : ℕ)
    → start % 4096 ≡ 0
    → a % 4096 ≡ 0
    → start ≤ a
    → a ≤ maxva
    → perm % 1024 / 2 ≢ 0
    → IsBare m root
    → ((va : ℕ) → start ≤ va → va < a → Mine is_page perm (entry m root va))
    → (r : Mem × ℕ) × (undo is_page m root a start ≡ some r) × Undone m root start a r
unfolding undo uvmdealloc
undo-Undone is_page m root start a perm al_s al_a lo hi some_perm bare ours =
    elim (Bool-cases (leb a start)) [
      | inl same ↦ (
        (m, 0),
        rw (same, undo) refl,
        record { zero_size = refl; bare = bare; entries = λ va hv. ground arith },
      )
      | inr more ↦
          let up_s : pg_round_up start ≡ start = omega arith in
          let up_a : pg_round_up a ≡ a = omega arith in
          let below : ltb start a ≡ true = ground arith in
          let pages : (a - start) / 4096 * 4096 ≡ a - start = omega arith in
          let (m', e, u) = unmapped (uvmunmap is_page m root start ((a - start) / 4096) true) (
            uvmunmap-Unmaps is_page m root start ((a - start) / 4096) true al_s (omega arith)
              bare) in
          (
            (m', 0),
            rw (more, undo, up_s, up_a, below, e) refl,
            record {
              zero_size = refl;
              bare = u.0;
              entries = λ va hv.
                  u.3 va hv
                  ∙ (let end : start + (a - start) / 4096 * 4096 ≡ a = omega arith in rw end refl);
            },
          )
    ]
  where
    unmapped :
        (o : Option Mem)
        → Unmaps is_page m root start ((a - start) / 4096) true o
        → (m' : Mem) × (o ≡ some m')
          × Unmaps is_page m root start ((a - start) / 4096) true (some m')
    unmapped none (va, lo', hi', stuck) =
        absurd (Mine-NotStuck some_perm (ours va lo' (omega arith)) stuck)
    unmapped (some m') u = (m', refl, u)

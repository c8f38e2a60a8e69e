-- ===== src/Vm/Map/Round.antt =====
-- A round of the loop of `mappages` of kernel/vm.c.
use mathlib.Core.Path.{subst}
use os_assignment.Prelude.{
  ℕ, ◌/◌, ◌<◌, ◌≡◌, refl, sym, ap, ◌∙◌, ◌⊎◌, inl, inr, Bool, true, false, Option, none, some, [],
  arith, leb, ◌==◌, if◌then◌else◌, Bool-cases,
}
use os_assignment.Vm.{maxva, px, is_valid, make_pte, Mem, walk_indices, walk, set_pte, map_one}
use os_assignment.Vm.Tables.{Place, IsTable, down, lookup}
use os_assignment.Vm.Tables.Walk.{Walks, walk_indices-Walks}
use os_assignment.Vm.Map.Write.{
  set_pte-IsTable, lookup-set_pte, entry, same_page, lookup-walked, IsTree,
}

-- What a round of `mappages` does at an address in range.
abbrev pub MapsOne : Mem → ℕ → ℕ → ℕ → ℕ → Option (Mem × Bool) → Type 0
MapsOne m root a pa perm none = is_valid (entry m root a) ≡ true
MapsOne m root a pa perm (some (m', true)) =
    IsTree m' root
    × (is_valid (entry m root a) ≡ false)
    × ((va : ℕ)
        → va < maxva
        → entry m' root va ≡ (if va / 4096 == a / 4096 then make_pte pa perm else entry m root va))
MapsOne m root a pa perm (some (m', false)) =
    IsTree m' root × (m'.free ≡ []) × ((va : ℕ) → entry m' root va ≡ entry m root va)

write :
    (m m' : Mem) (root a pa perm x q : ℕ)
    → a < maxva
    → (place : ℕ → Place) → IsTable m' root place
    → ((j2 j1 j0 : ℕ) → lookup m' root j2 j1 j0 ≡ lookup m root j2 j1 j0)
    → down m' root (px 2 a) ≡ some x
    → down m' x (px 1 a) ≡ some q
    → MapsOne m root a pa perm (
        if is_valid (m'.words q (px 0 a))
        then none
        else some (set_pte m' (q, px 0 a) (make_pte pa perm), true))
unfolding entry
write m m' root a pa perm x q h place table same to_mid to_low =
    let word : lookup m root (px 2 a) (px 1 a) (px 0 a) ≡ m'.words q (px 0 a) =
      sym (same (px 2 a) (px 1 a) (px 0 a))
      ∙ lookup-walked m' root (px 2 a) (px 1 a) (px 0 a) x q to_mid to_low in
    elim (Bool-cases (is_valid (m'.words q (px 0 a)))) [
      | inl v ↦ rw v (ap is_valid word ∙ v)
      | inr v ↦ rw v (
        (
          place,
          set_pte-IsTable m' root (px 2 a) (px 1 a) (px 0 a) (make_pte pa perm) x q place table
              to_mid to_low,
        ),
        ap is_valid word ∙ v,
        λ va hv.
            lookup-set_pte m' root (px 2 a) (px 1 a) (px 0 a) (make_pte pa perm) x q place table
              to_mid to_low (px 2 va) (px 1 va) (px 0 va)
            ∙ ap (λ b. if b then make_pte pa perm else lookup m' root (px 2 va) (px 1 va) (px 0 va))
                (same_page va a hv h)
            ∙ ap (λ z. if va / 4096 == a / 4096 then make_pte pa perm else z)
                (same (px 2 va) (px 1 va) (px 0 va)),
      )
    ]

pub map_one-MapsOne :
    (m : Mem) (root a pa perm : ℕ)
    → a < maxva
    → IsTree m root
    → MapsOne m root a pa perm (map_one m root a pa perm)
unfolding map_one walk entry
map_one-MapsOne m root a pa perm h (place, table) =
    let low : leb maxva a ≡ false = ground arith in
    rw (low, map_one)
      (go (walk_indices m root (px 2 a) (px 1 a) (px 0 a) true)
        (walk_indices-Walks m root (px 2 a) (px 1 a) (px 0 a) place true table))
  where
    go :
        (r : Mem × Option (ℕ × ℕ))
        → Walks m root (px 2 a) (px 1 a) (px 0 a) true r
        → MapsOne m root a pa perm (elim r.1 [
          | none ↦ some (r.0, false)
          | some (p, i) ↦
              if is_valid (r.0.words p i)
              then none
              else some (set_pte r.0 (p, i) (make_pte pa perm), true)
        ])
    go (m', none) wk =
        ((wk.new, wk.table), no_page (wk.fails refl).1, λ va. wk.same (px 2 va) (px 1 va) (px 0 va))
      where
        no_page : (true ≡ false) ⊎ (m'.free ≡ []) → m'.free ≡ []
        no_page (inl e) = cc
        no_page (inr e) = e
    go (m', some (q, k)) wk =
        let (k-eq, (x, to_mid, to_low)) = wk.found q k refl in
        subst
          (λ i. MapsOne m root a pa perm (
            if is_valid (m'.words q i)
            then none
            else some (set_pte m' (q, i) (make_pte pa perm), true)))
          (sym k-eq) (write m m' root a pa perm x q h wk.new wk.table wk.same to_mid to_low)

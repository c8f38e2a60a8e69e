-- ===== src/Vm/Map/Write.antt =====
-- The entry of an address in the page tables of kernel/vm.c, and a write of one entry in a page table whose pages form a tree.
use mathlib.Core.Path.{subst}
use os_assignment.Prelude.{
  ℕ, ◌/◌, ◌<◌, ◌≡◌, ◌≢◌, sym, ap, ◌∙◌, ◌⊎◌, inl, inr, true, ◌&&◌, none, some, arith, ◌==◌,
  if◌then◌else◌, Option-cases, ℕ_discrete,
}
use os_assignment.Vm.{maxva, px, is_valid, pte2pa, Mem, set_pte}
use os_assignment.Vm.Tables.{
  Place, mid, low, child, IsInner, IsTable, down, in_low, in_mid, lookup, down-some, set_word-other,
  as_page, pair_cases,
}

module _ (m : Mem) (root i2 i1 i0 w x q : ℕ) (place : ℕ → Place) (table : IsTable m root place)
    (to_mid : down m root i2 ≡ some x) (to_low : down m x i1 ≡ some q) where
  place-root : IsInner (place root)
  place-root = subst IsInner (sym table.at_top) tt

  place-mid : (j y : ℕ) → down m root j ≡ some y → place y ≡ mid j
  place-mid j y e =
      let (v, is) = down-some m root j y e in
      ap place is ∙ table.below root j place-root v ∙ ap (λ z. child z j) table.at_top

  place-low : (j k y z : ℕ) → down m root j ≡ some y → down m y k ≡ some z → place z ≡ low j k
  place-low j k y z e e' =
      let (v, is) = down-some m y k z e' in
      let at : place y ≡ mid j = place-mid j y e in
      ap place is ∙ table.below y k (subst IsInner (sym at) tt) v ∙ ap (λ p. child p k) at

  not_low : (r : ℕ) → IsInner (place r) → r ≢ q
  not_low r h e = subst IsInner (ap place e ∙ place-low i2 i1 x q to_mid to_low) h

  words_kept : (r k : ℕ) → r ≢ q → (set_pte m (q, i0) w).words r k ≡ m.words r k
  words_kept r k ne = set_word-other m.words q i0 r k w (inl ne)

  pub set_pte-IsTable : IsTable (set_pte m (q, i0) w) root place
  set_pte-IsTable = record {
    at_top = table.at_top;
    below = λ p i h v.
        let same : (set_pte m (q, i0) w).words p i ≡ m.words p i = words_kept p i (not_low p h) in
        ap (λ z. place (pte2pa z)) same ∙ table.below p i h (subst (λ z. is_valid z ≡ true) same v);
    spare = table.spare;
  }

  low_entry :
      (j2 j1 j0 y z : ℕ)
      → down m root j2 ≡ some y
      → down m y j1 ≡ some z
      → (set_pte m (q, i0) w).words z j0
        ≡ (if j2 == i2 && j1 == i1 && j0 == i0 then w else m.words z j0)
  low_entry j2 j1 j0 y z e e' = elim (ℕ_discrete z q) [
    | yes same ↦
        let both : low j2 j1 ≡ low i2 i1 =
          sym (place-low j2 j1 y z e e') ∙ ap place same ∙ place-low i2 i1 x q to_mid to_low in
        let eq2 : j2 ≡ i2 = cc in let eq1 : j1 ≡ i1 = cc in ground arith
    | no ne ↦ words_kept z j0 ne ∙ other_entry j2 j1 j0 y z e e' ne
  ]
    where
      other_entry :
          (j2 j1 j0 y z : ℕ)
          → down m root j2 ≡ some y
          → down m y j1 ≡ some z
          → z ≢ q
          → m.words z j0 ≡ (if j2 == i2 && j1 == i1 && j0 == i0 then w else m.words z j0)
      other_entry j2 j1 j0 y z e e' ne = elim (pair_cases j2 i2 j1 i1) [
        | inl (eq2, eq1) ↦ absurd (
            ne (
              let ey : some y ≡ some x = sym e ∙ ap (down m root) eq2 ∙ to_mid in
              let y-eq : y ≡ x = cc in
              let ez : some z ≡ some q =
                sym e' ∙ ap (λ a. down m a j1) y-eq ∙ ap (down m x) eq1 ∙ to_low in
              cc))
        | inr differ ↦ ground arith
      ]

  -- A write through the place that `walk` has found changes this entry only.
  pub lookup-set_pte :
      (j2 j1 j0 : ℕ)
      → lookup (set_pte m (q, i0) w) root j2 j1 j0
        ≡ (if j2 == i2 && j1 == i1 && j0 == i0 then w else lookup m root j2 j1 j0)
  unfolding lookup
  lookup-set_pte j2 j1 j0 =
      ap (λ z. in_mid (set_pte m (q, i0) w) (as_page z) j1 j0)
        (words_kept root j2 (not_low root place-root))
      ∙ at_mid (Option-cases (down m root j2))
    where
      at_low :
          (y : ℕ)
          → down m root j2 ≡ some y
          → (down m y j1 ≡ none) ⊎ ((z : ℕ) × (down m y j1 ≡ some z))
          → in_low (set_pte m (q, i0) w) (down m y j1) j0
            ≡ (if j2 == i2 && j1 == i1 && j0 == i0 then w else in_low m (down m y j1) j0)
      at_low y e (inl e') =
          ap (λ o. in_low (set_pte m (q, i0) w) o j0) e'
          ∙ sym (
              ap (λ o. if j2 == i2 && j1 == i1 && j0 == i0 then w else in_low m o j0) e' ∙ not_here)
        where
          differ : (j2 ≢ i2) ⊎ (j1 ≢ i1)
          differ = elim (pair_cases j2 i2 j1 i1) [
            | inl (eq2, eq1) ↦ absurd (
                let ey : some y ≡ some x = sym e ∙ ap (down m root) eq2 ∙ to_mid in
                let y-eq : y ≡ x = cc in
                let ez : none ≡ some q =
                  sym e' ∙ ap (λ a. down m a j1) y-eq ∙ ap (down m x) eq1 ∙ to_low in
                cc)
            | inr d ↦ d
          ]

          not_here : (if j2 == i2 && j1 == i1 && j0 == i0 then w else 0) ≡ 0
          not_here = elim differ [ inl ne ↦ ground arith | inr ne ↦ ground arith ]
      at_low y e (inr (z, e')) =
          ap (λ o. in_low (set_pte m (q, i0) w) o j0) e'
          ∙ low_entry j2 j1 j0 y z e e'
          ∙ sym (ap (λ o. if j2 == i2 && j1 == i1 && j0 == i0 then w else in_low m o j0) e')

      at_mid :
          (down m root j2 ≡ none) ⊎ ((y : ℕ) × (down m root j2 ≡ some y))
          → in_mid (set_pte m (q, i0) w) (down m root j2) j1 j0
            ≡ (if j2 == i2 && j1 == i1 && j0 == i0 then w else in_mid m (down m root j2) j1 j0)
      at_mid (inl e) =
          ap (λ o. in_mid (set_pte m (q, i0) w) o j1 j0) e
          ∙ sym (
              ap (λ o. if j2 == i2 && j1 == i1 && j0 == i0 then w else in_mid m o j1 j0) e
              ∙ not_here)
        where
          differ : j2 ≢ i2
          differ eq = let both : none ≡ some x = sym e ∙ ap (down m root) eq ∙ to_mid in cc

          not_here : (if j2 == i2 && j1 == i1 && j0 == i0 then w else 0) ≡ 0
          not_here = ground (arith, differ)
      at_mid (inr (y, e)) =
          ap (λ o. in_mid (set_pte m (q, i0) w) o j1 j0) e
          ∙ ap (λ z. in_low (set_pte m (q, i0) w) (as_page z) j0)
              (words_kept y j1 (not_low y (subst IsInner (sym (place-mid j2 y e)) tt)))
          ∙ at_low y e (Option-cases (down m y j1))
          ∙ sym (ap (λ o. if j2 == i2 && j1 == i1 && j0 == i0 then w else in_mid m o j1 j0) e)

-- The entry of an address.
unfoldable pub entry : Mem → ℕ → ℕ → ℕ
entry m root va = lookup m root (px 2 va) (px 1 va) (px 0 va)

pub same_page :
    (va a : ℕ)
    → va < maxva
    → a < maxva
    → (px 2 va == px 2 a && px 1 va == px 1 a && px 0 va == px 0 a) ≡ (va / 4096 == a / 4096)
unfolding px
same_page va a h h' = ground arith

pub lookup-walked :
    (m : Mem) (root i2 i1 i0 x q : ℕ)
    → down m root i2 ≡ some x
    → down m x i1 ≡ some q
    → lookup m root i2 i1 i0 ≡ m.words q i0
unfolding lookup
lookup-walked m root i2 i1 i0 x q e e' = ap (λ o. in_mid m o i1 i0) e ∙ ap (λ o. in_low m o i0) e'

-- A page table whose pages form a tree.
abbrev pub IsTree : Mem → ℕ → Type 0
IsTree m root = (place : ℕ → Place) × IsTable m root place

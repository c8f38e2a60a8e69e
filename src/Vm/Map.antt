-- ===== src/Vm/Map.antt =====
-- Page tables as maps from addresses to entries: what `mappages` of kernel/vm.c writes, and that it
-- writes nothing else.
pub mod Round
pub mod Write
use mathlib.Core.Path.{subst}
use os_assignment.Prelude.{
  ℕ, zero, suc, ◌+◌, ◌-◌, ◌*◌, ◌/◌, ◌%◌, ◌^◌, ◌≤◌, ◌<◌, ◌≡◌, ◌≢◌, refl, sym, ap, ◌∙◌, ◌⊎◌, inl, inr,
  Bool, true, false, ◌&&◌, Option, none, some, [], arith, ltb, leb, ◌==◌, if◌then◌else◌, Bool-cases,
  Option-cases, ℕ_discrete,
}
use os_assignment.Prelude.Int.{ℤ, pos, negsuc, minus_one}
use os_assignment.Kalloc.{pgsize}
use os_assignment.Vm.{
  maxva, pg_round_down, px, is_valid, pte2pa, make_pte, Mem, walk_indices, walk, set_pte, map_one,
  map_from, mappages,
}
use os_assignment.Vm.Tables.{
  Place, mid, low, child, IsInner, IsTable, down, in_low, in_mid, lookup, down-some, set_word-other,
  as_page, pair_cases,
}
use os_assignment.Vm.Tables.Walk.{Walks, walk_indices-Walks}
use os_assignment.Vm.Map.Write.{
  set_pte-IsTable, lookup-set_pte, entry, same_page, lookup-walked, IsTree,
}
use os_assignment.Vm.Map.Round.{MapsOne, map_one-MapsOne}

-- What `mappages` does with `n + 1` pages from `a` on. A panic: a page of the range has an entry. A
-- return of 0: none had one, and these pages, and no others, have the new entries. A return of -1:
-- no page is free for a table, and no address outside of the range has changed.
abbrev pub Maps : Mem → ℕ → ℕ → ℕ → ℕ → ℕ → Option (Mem × ℤ) → Type 0
Maps m root a n pa perm none =
    (va : ℕ) × (a ≤ va) × (va < a + (n + 1) * 4096) × (is_valid (entry m root va) ≡ true)
Maps m root a n pa perm (some (m', pos _)) =
    IsTree m' root
    × ((va : ℕ) → a ≤ va → va < a + (n + 1) * 4096 → is_valid (entry m root va) ≡ false)
    × ((va : ℕ)
        → va < maxva
        → entry m' root va ≡ (
            if leb a va && ltb va (a + (n + 1) * 4096)
            then make_pte (pa + (va - a) / 4096 * 4096) perm
            else entry m root va))
Maps m root a n pa perm (some (m', negsuc _)) =
    (k : ℕ) × (k ≤ n)
    × IsTree m' root
    × (m'.free ≡ [])
    × ((va : ℕ)
        → va < maxva
        → entry m' root va ≡ (
            if leb a va && ltb va (a + k * 4096)
            then make_pte (pa + (va - a) / 4096 * 4096) perm
            else entry m root va))

pub entry-page :
    (m : Mem) (root va a : ℕ)
    → va < maxva
    → a < maxva
    → va / 4096 ≡ a / 4096
    → entry m root va ≡ entry m root a
unfolding entry px
entry-page m root va a h h' e =
    let e2 : va / 2 ^ 30 % 512 ≡ a / 2 ^ 30 % 512 = omega arith in
    let e1 : va / 2 ^ 21 % 512 ≡ a / 2 ^ 21 % 512 = omega arith in
    let e0 : va / 2 ^ 12 % 512 ≡ a / 2 ^ 12 % 512 = omega arith in rw (e2, e1, e0) refl

first_page :
    (m : Mem) (root a n : ℕ)
    → a % 4096 ≡ 0
    → n ≡ 0
    → a < maxva
    → is_valid (entry m root a) ≡ false
    → (va : ℕ) → a ≤ va
    → va < a + (n + 1) * 4096
    → is_valid (entry m root va) ≡ false
first_page m root a n al z h free_a va lo hi =
    ap is_valid (entry-page m root va a (omega arith) h (omega arith)) ∙ free_a

one_page :
    (va a n pa perm w : ℕ)
    → a % 4096 ≡ 0
    → n ≡ 0
    → (if va / 4096 == a / 4096 then make_pte pa perm else w) ≡ (
        if leb a va && ltb va (a + (n + 1) * 4096)
        then make_pte (pa + (va - a) / 4096 * 4096) perm
        else w)
one_page va a n pa perm w al z = ground arith

more_pages :
    (va a n pa perm w : ℕ)
    → a % 4096 ≡ 0
    → 0 < n
    → (if leb (a + 4096) va && ltb va (a + 4096 + (n - 1 + 1) * 4096)
        then make_pte (pa + 4096 + (va - (a + 4096)) / 4096 * 4096) perm
        else (if va / 4096 == a / 4096 then make_pte pa perm else w))
      ≡ (if leb a va && ltb va (a + (n + 1) * 4096)
          then make_pte (pa + (va - a) / 4096 * 4096) perm
          else w)
more_pages va a n pa perm w al h = ground arith

next_pages :
    (va a k pa perm w : ℕ)
    → a % 4096 ≡ 0
    → (if leb (a + 4096) va && ltb va (a + 4096 + k * 4096)
        then make_pte (pa + 4096 + (va - (a + 4096)) / 4096 * 4096) perm
        else (if va / 4096 == a / 4096 then make_pte pa perm else w))
      ≡ (if leb a va && ltb va (a + suc k * 4096)
          then make_pte (pa + (va - a) / 4096 * 4096) perm
          else w)
next_pages va a k pa perm w al = ground arith

-- The first page, and then the others.
Maps-step :
    (m m' : Mem) (root a n last pa perm : ℕ)
    → a % 4096 ≡ 0
    → last ≡ a + n * 4096
    → last < maxva
    → 0 < n
    → is_valid (entry m root a) ≡ false
    → ((va : ℕ)
        → va < maxva
        → entry m' root va ≡ (if va / 4096 == a / 4096 then make_pte pa perm else entry m root va))
    → (r : Option (Mem × ℤ)) → Maps m' root (a + 4096) (n - 1) (pa + 4096) perm r
    → Maps m root a n pa perm r
Maps-step m m' root a n last pa perm al el hl h free_a written none (va, lo, hi, v) = (
  va,
  omega arith,
  omega arith,
  sym (
        ap is_valid (
          written va (omega arith)
          ∙ (let other : (va / 4096 == a / 4096) ≡ false = ground arith in rw other refl)))
      ∙ v,
)
Maps-step m m' root a n last pa perm al el hl h free_a written (some (m2, pos z)) (tree, free, w) =
    (
      tree,
      λ va lo hi. elim (ℕ_discrete (va / 4096) (a / 4096)) [
        | yes e ↦ ap is_valid (entry-page m root va a (omega arith) (omega arith) e) ∙ free_a
        | no ne ↦
            let other : (va / 4096 == a / 4096) ≡ false = ground arith in
            sym (ap is_valid (written va (omega arith) ∙ rw other refl))
            ∙ free va (omega arith) (omega arith)
      ],
      λ va hv.
          w va hv
          ∙ ap
              (λ x.
                if leb (a + 4096) va && ltb va (a + 4096 + (n - 1 + 1) * 4096)
                then make_pte (pa + 4096 + (va - (a + 4096)) / 4096 * 4096) perm
                else x)
              (written va hv)
          ∙ more_pages va a n pa perm (entry m root va) al h,
    )
Maps-step m m' root a n last pa perm al el hl h free_a written (some (m2, negsuc z))
      (k, le, tree, empty, w) =
    (
      suc k,
      omega arith,
      tree,
      empty,
      λ va hv.
          w va hv
          ∙ ap
              (λ x.
                if leb (a + 4096) va && ltb va (a + 4096 + k * 4096)
                then make_pte (pa + 4096 + (va - (a + 4096)) / 4096 * 4096) perm
                else x)
              (written va hv)
          ∙ next_pages va a k pa perm (entry m root va) al,
    )

map_from-Maps :
    (f n : ℕ) (m : Mem) (root a last pa perm : ℕ)
    → n < f
    → a % 4096 ≡ 0
    → last ≡ a + n * 4096
    → last < maxva
    → IsTree m root
    → Maps m root a n pa perm (map_from f m root a last pa perm)
unfolding map_from
map_from-Maps zero n m root a last pa perm lt al el hl tree = absurd (omega arith)
map_from-Maps (suc f) n m root a last pa perm lt al el hl tree =
    go (map_one m root a pa perm) (map_one-MapsOne m root a pa perm (omega arith) tree)
      (λ m' k. map_from-Maps f k m' root (a + 4096) last (pa + 4096) perm)
  where
    go :
        (r : Option (Mem × Bool))
        → MapsOne m root a pa perm r
        → ((m' : Mem) (k : ℕ)
            → k < f
            → (a + 4096) % 4096 ≡ 0
            → last ≡ a + 4096 + k * 4096
            → last < maxva
            → IsTree m' root
            → Maps m' root
                (a + 4096)
                k
                (pa + 4096)
                perm
                (map_from f m' root (a + 4096) last (pa + 4096) perm))
        → Maps m root a n pa perm (elim r [
          | none ↦ none
          | some (m', good) ↦ elim good [
            | false ↦ some (m', minus_one)
            | true ↦ elim (a == last) [
              | true ↦ some (m', pos 0)
              | false ↦ map_from f m' root (a + pgsize) last (pa + pgsize) perm
            ]
          ]
        ])
    go none one ih = (a, omega arith, omega arith, one)
    go (some (m', false)) (tree', empty, same) ih = (
      0,
      omega arith,
      tree',
      empty,
      λ va h.
          same va
          ∙ (let c : (leb a va && ltb va (a + 0 * 4096)) ≡ false = ground arith in rw c refl),
    )
    go (some (m', true)) (tree', free_a, written) ih = elim (Bool-cases (a == last)) [
      | inl done ↦ rw (done) (
        tree',
        first_page m root a n al (ground arith) (omega arith) free_a,
        λ va h. written va h ∙ one_page va a n pa perm (entry m root va) al (ground arith),
      )
      | inr more ↦ rw (more) (
          Maps-step m m' root a n last pa perm al el hl (ground arith) free_a written _
            (ih m' (n - 1) (ground arith) (omega arith) (ground arith) hl tree'))
    ]

-- `mappages` of a range below `MAXVA` does not run out of rounds. It panics only where a page of the
-- range has an entry already. If it returns 0, all pages of the range had none and have the new
-- entries, and all other addresses have the entry that they had; if it returns -1, no page is free,
-- and a first part of the pages, less than all, has the new entries. The pages of the table stay a
-- tree.
pub mappages-Maps :
    (m : Mem) (root va size pa perm : ℕ)
    → 0 < size
    → va + size ≤ maxva
    → IsTree m root
    → Maps m root
        (pg_round_down va)
        ((va + size - 1) / 4096 - va / 4096)
        pa
        perm
        (mappages m root va size pa perm)
unfolding mappages
mappages-Maps m root va size pa perm some_size fits tree =
    let sized : (size == 0) ≡ false = ground arith in
    let no_wrap : (va + size - 1) % 2 ^ 64 ≡ va + size - 1 = omega arith in
    rw (sized, mappages, no_wrap)
      (map_from-Maps (2 ^ 26 + 1) ((va + size - 1) / 4096 - va / 4096) m root (pg_round_down va)
        (pg_round_down (va + size - 1)) pa perm (omega arith) (omega arith) (omega arith)
        (omega arith) tree)

-- ===== src/Vm.antt =====
-- kernel/vm.c: Sv39 page tables.
-- A page-table page is read as 512 words; `words p i` is `((uint64*)p)[i]`. The bytes of the pages
-- that a process maps are `bytes`; no page is read both ways. `free` is the list of free pages of
-- kernel/kalloc.c: `kalloc` takes its first page, `kfree` puts one in front. `none` is a panic.
pub mod Tables
pub mod Map
pub mod Unmap
pub mod Space
pub mod Copy
mod Tests
use os_assignment.Prelude.{
  ℕ, zero, suc, ◌+◌, ◌-◌, ◌*◌, ◌/◌, ◌%◌, ◌^◌, Bool, true, false, not, ◌&&◌, ◌||◌, Option, none,
  some, List, [], ◌∷◌, ltb, leb, ◌==◌, if◌then◌else◌,
}
use os_assignment.Prelude.Int.{ℤ, pos, minus_one}
use os_assignment.Kalloc.{pgsize}
use os_assignment.Strings.{memmove}

abbrev pub maxva : ℕ
maxva = 2 ^ 38

-- PGROUNDDOWN
abbrev pub pg_round_down : ℕ → ℕ
pg_round_down a = a / pgsize * pgsize

-- PX
unfoldable pub px : ℕ → ℕ → ℕ
px level va = va / 2 ^ (12 + 9 * level) % 512

-- `pte & PTE_V`, `pte & PTE_U`, PTE_FLAGS, PTE2PA, PA2PTE
abbrev pub is_valid : ℕ → Bool
is_valid pte = pte % 2 == 1

abbrev pub is_user : ℕ → Bool
is_user pte = pte / 16 % 2 == 1

abbrev pub pte_flags : ℕ → ℕ
pte_flags pte = pte % 1024

abbrev pub pte2pa : ℕ → ℕ
pte2pa pte = pte / 1024 * 4096

abbrev pub pa2pte : ℕ → ℕ
pa2pte pa = pa / 4096 * 1024

-- `PA2PTE(pa) | perm | PTE_V`, for permissions among the ten flag bits.
abbrev pub make_pte : ℕ → ℕ → ℕ
make_pte pa perm = pa2pte pa + (perm % 1024 / 2 * 2 + 1)

pub record Mem : Type 0 where
  pub words : ℕ → ℕ → ℕ
  pub bytes : ℕ → ℕ
  pub free : List ℕ

abbrev pub set_word : (ℕ → ℕ → ℕ) → ℕ → ℕ → ℕ → ℕ → ℕ → ℕ
set_word words p i w p' i' = if p' == p && i' == i then w else words p' i'

-- `memset(p, 0, PGSIZE)`
abbrev pub zero_page : (ℕ → ℕ → ℕ) → ℕ → ℕ → ℕ → ℕ
zero_page words q p i = if p == q then 0 else words p i

-- A level of `walk`: the next page, if there is one.
unfoldable pub walk_level : Mem → ℕ → ℕ → Bool → Mem × Option ℕ
walk_level m p i alloc =
    if is_valid (m.words p i)
    then (m, some (pte2pa (m.words p i)))
    else if not alloc
    then (m, none)
    else elim m.free [
      | [] ↦ (m, none)
      | q ∷ rest ↦ (
        record m { words = set_word (zero_page m.words q) p i (pa2pte q + 1); free = rest },
        some q,
      )
    ]

-- The loop of `walk` and its end, for the indices of an address: the place of the PTE.
unfoldable pub walk_indices : Mem → ℕ → ℕ → ℕ → ℕ → Bool → Mem × Option (ℕ × ℕ)
unfolding walk_level
walk_indices m root i2 i1 i0 alloc =
    let r = walk_level m root i2 alloc in
    elim r.1 [
      | none ↦ (r.0, none)
      | some p ↦
          let r' = walk_level r.0 p i1 alloc in
          elim r'.1 [ none ↦ (r'.0, none) | some q ↦ (r'.0, some (q, i0)) ]
    ]

-- `none` beside the memory is the null pointer.
unfoldable pub walk : Mem → ℕ → ℕ → Bool → Option (Mem × Option (ℕ × ℕ))
unfolding walk_indices
walk m root va alloc =
    if leb maxva va then none else some (walk_indices m root (px 2 va) (px 1 va) (px 0 va) alloc)

-- The physical address in a PTE that `walk` has found, for `walkaddr`.
abbrev pub user_pa : ℕ → Option ℕ
user_pa pte =
    if not (is_valid pte) then none else if not (is_user pte) then none else some (pte2pa pte)

-- `none` is 0: the code that calls it takes physical page 0 for no page, too.
unfoldable pub walkaddr : Mem → ℕ → ℕ → Option ℕ
unfolding walk
walkaddr m root va = if leb maxva va then none else elim (walk m root va false) [
  | none ↦ none
  | some (m', o) ↦ elim o [ none ↦ none | some (p, i) ↦ user_pa (m.words p i) ]
]

abbrev pub set_pte : Mem → ℕ × ℕ → ℕ → Mem
set_pte m (p, i) w = record m { words = set_word m.words p i w }

-- A round of the loop of `mappages`: `none` is a panic, `none` inside is the return of -1.
unfoldable pub map_one : Mem → ℕ → ℕ → ℕ → ℕ → Option (Mem × Bool)
unfolding walk
map_one m root a pa perm = elim (walk m root a true) [
  | none ↦ none
  | some (m', o) ↦ elim o [
    | none ↦ some (m', false)
    | some (p, i) ↦
        if is_valid (m'.words p i) then none else some (set_pte m' (p, i) (make_pte pa perm), true)
  ]
]

-- The loop of `mappages`, with fuel. The loop ends by a panic of `walk` at the latest when `a` is
-- `MAXVA`, so that `2 ^ 26 + 1` rounds are enough.
unfoldable pub map_from : ℕ → Mem → ℕ → ℕ → ℕ → ℕ → ℕ → Option (Mem × ℤ)
unfolding map_one
map_from zero m root a last pa perm = none
map_from (suc f) m root a last pa perm = elim (map_one m root a pa perm) [
  | none ↦ none
  | some (m', good) ↦ elim good [
    | false ↦ some (m', minus_one)
    | true ↦ elim (a == last) [
      | true ↦ some (m', pos 0)
      | false ↦ map_from f m' root (a + pgsize) last (pa + pgsize) perm
    ]
  ]
]

unfoldable pub mappages : Mem → ℕ → ℕ → ℕ → ℕ → ℕ → Option (Mem × ℤ)
unfolding map_from
mappages m root va size pa perm =
    if size == 0
    then none
    else map_from (2 ^ 26 + 1) m root (pg_round_down va) (pg_round_down ((va + size - 1) % 2 ^ 64))
        pa perm

-- A round of the loop of `uvmunmap`. `kfree` of an address that is no page is a panic too; `end` is
-- the end of the kernel.
unfoldable pub unmap_one : (ℕ → Bool) → Mem → ℕ → ℕ → Bool → Option Mem
unfolding walk
unmap_one is_page m root a do_free = elim (walk m root a false) [
  | none ↦ none
  | some (m', o) ↦ elim o [
    | none ↦ none
    | some (p, i) ↦
        let pte = m.words p i in
        let cleared = set_pte m (p, i) 0 in
        if not (is_valid pte)
        then none
        else if pte_flags pte == 1
        then none
        else if not do_free
        then some cleared
        else if not (is_page (pte2pa pte))
        then none
        else some (record cleared { free = pte2pa pte ∷ m.free })
  ]
]

-- The loop, with `n` pages left.
unfoldable pub unmap_from : (ℕ → Bool) → ℕ → Mem → ℕ → ℕ → Bool → Option Mem
unfolding unmap_one
unmap_from is_page zero m root a do_free = some m
unmap_from is_page (suc n) m root a do_free = elim (unmap_one is_page m root a do_free) [
  | none ↦ none
  | some m' ↦ unmap_from is_page n m' root (a + pgsize) do_free
]

unfoldable pub uvmunmap : (ℕ → Bool) → Mem → ℕ → ℕ → ℕ → Bool → Option Mem
unfolding unmap_from
uvmunmap is_page m root va npages do_free =
    if not (va % pgsize == 0) then none else unmap_from is_page npages m root va do_free

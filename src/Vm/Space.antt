-- ===== src/Vm/Space.antt =====
-- kernel/vm.c: growing and shrinking an address space.
-- Sizes are at most `MAXVA`, so that the number of pages fits an int.
pub mod Spare
pub mod Undo
pub mod Alloc
use os_assignment.Prelude.{
  ℕ, zero, suc, ◌+◌, ◌-◌, ◌*◌, ◌/◌, ◌%◌, ◌^◌, Bool, true, false, not, ◌&&◌, Option, none, some,
  List, [], ◌∷◌, ltb, leb, ◌==◌, if◌then◌else◌,
}
use os_assignment.Prelude.Int.{ℤ, pos, negsuc}
use os_assignment.Kalloc.{pgsize}
use os_assignment.Vm.{Mem, mappages, uvmunmap}

-- PGROUNDUP
abbrev pub pg_round_up : ℕ → ℕ
pg_round_up a = (a + (pgsize - 1)) % 2 ^ 64 / pgsize * pgsize

-- `PTE_R|PTE_U|xperm`
abbrev pub user_perm : ℕ → ℕ
user_perm xperm = xperm / 32 * 32 + 16 + xperm % 16 / 4 * 4 + 2 + xperm % 2

-- `memset(mem, 0, PGSIZE)` of a page that `kalloc` has taken.
abbrev pub fresh_page : Mem → ℕ → List ℕ → Mem
fresh_page m q rest = record m {
  bytes = λ a. if leb q a && ltb a (q + pgsize) then 0 else m.bytes a;
  free = rest;
}

-- `kfree`; `none` is its panic.
abbrev pub give_back : (ℕ → Bool) → Mem → ℕ → Option Mem
give_back is_page m q = if is_page q then some (record m { free = q ∷ m.free }) else none

-- The memory and the new size.
unfoldable pub uvmdealloc : (ℕ → Bool) → Mem → ℕ → ℕ → ℕ → Option (Mem × ℕ)
uvmdealloc is_page m root oldsz newsz =
    if leb oldsz newsz
    then some (m, oldsz)
    else if ltb (pg_round_up newsz) (pg_round_up oldsz)
    then elim (uvmunmap is_page m root (pg_round_up newsz)
        ((pg_round_up oldsz - pg_round_up newsz) / pgsize) true) [
          | none ↦ none
          | some m' ↦ some (m', newsz)
        ]
    else some (m, newsz)

-- The failures of `uvmalloc` give back the pages up to `a`, and return 0.
unfoldable pub undo : (ℕ → Bool) → Mem → ℕ → ℕ → ℕ → Option (Mem × ℕ)
unfolding uvmdealloc
undo is_page m root a start = elim (uvmdealloc is_page m root a start) [
  | none ↦ none
  | some (m', size) ↦ some (m', 0)
]

-- The loop of `uvmalloc`, with fuel: a page for each round. `none` is a panic.
unfoldable pub uvmalloc_from : (ℕ → Bool) → ℕ → Mem → ℕ → ℕ → ℕ → ℕ → ℕ → Option (Mem × ℕ)
unfolding undo
uvmalloc_from is_page zero m root start a newsz perm = none
uvmalloc_from is_page (suc f) m root start a newsz perm = elim (ltb a newsz) [
  | false ↦ some (m, newsz)
  | true ↦ elim m.free [
    | [] ↦ undo is_page m root a start
    | q ∷ rest ↦ elim (mappages (fresh_page m q rest) root a pgsize q perm) [
      | none ↦ none
      | some (m', r) ↦ elim r [
        | pos _ ↦ uvmalloc_from is_page f m' root start (a + pgsize) newsz perm
        | negsuc _ ↦ elim (give_back is_page m' q) [
          | none ↦ none
          | some m'' ↦ undo is_page m'' root a start
        ]
      ]
    ]
  ]
]

unfoldable pub uvmalloc : (ℕ → Bool) → Mem → ℕ → ℕ → ℕ → ℕ → Option (Mem × ℕ)
unfolding uvmalloc_from
uvmalloc is_page m root oldsz newsz xperm =
    if ltb newsz oldsz
    then some (m, oldsz)
    else uvmalloc_from is_page (newsz / pgsize + 2) m root (pg_round_up oldsz) (pg_round_up oldsz)
        newsz (user_perm xperm)

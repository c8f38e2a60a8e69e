-- ===== src/Kalloc.antt =====
-- kernel/kalloc.c: the allocator of physical pages.
-- The free list, which the code threads through the free pages, is a list of their addresses here;
-- Kalloc/Links has the links. Each function holds `kmem.lock` while it touches the list. The memory is that of `Strings`: `kfree`
-- and `kalloc` fill a page with junk. The page that ends the kernel's text, `end`, is a parameter.
pub mod Pages
pub mod Links
mod Tests
use os_assignment.Prelude.{
  ℕ, zero, suc, ◌+◌, ◌-◌, ◌*◌, ◌/◌, ◌%◌, Bool, true, false, not, ◌&&◌, ◌||◌, Option, none, some,
  List, [], ◌∷◌, ltb, leb, ◌==◌, if◌then◌else◌,
}
use os_assignment.Strings.{Memory, memset}

abbrev pub pgsize : ℕ
pgsize = 4096

abbrev pub phystop : ℕ
phystop = 0x88000000

-- The memory and `kmem.freelist`.
pub record Kmem : Type 0 where
  pub memory : Memory
  pub freelist : List ℕ

-- PGROUNDUP
abbrev pub pg_round_up : ℕ → ℕ
pg_round_up sz = (sz + pgsize - 1) / pgsize * pgsize

module _ (end : ℕ) where
  -- The test at the head of `kfree`, negated.
  abbrev pub is_page : ℕ → Bool
  is_page pa = pa % pgsize == 0 && leb end pa && ltb pa phystop

  -- `none` is the panic.
  unfoldable pub kfree : Kmem → ℕ → Option Kmem
  kfree k pa =
      if is_page pa
      then some (record { memory = memset k.memory pa 1 pgsize; freelist = pa ∷ k.freelist })
      else none

  -- The loop of `freerange` from page `p` on, with fuel.
  unfoldable pub free_from : ℕ → Kmem → ℕ → ℕ → Option Kmem
  unfolding kfree
  free_from zero k p pa_end = none
  free_from (suc f) k p pa_end = elim (leb (p + pgsize) pa_end) [
    | false ↦ some k
    | true ↦ elim (kfree k p) [ none ↦ none | some k' ↦ free_from f k' (p + pgsize) pa_end ]
  ]

  -- More fuel than there are pages.
  unfoldable pub freerange : Kmem → ℕ → ℕ → Option Kmem
  unfolding free_from
  freerange k pa_start pa_end = free_from (suc (pa_end / pgsize)) k (pg_round_up pa_start) pa_end

  unfoldable pub kinit : Memory → Option Kmem
  unfolding freerange
  kinit m = freerange (record { memory = m; freelist = [] }) end phystop

-- `none` beside the state is the null pointer.
take_page : Memory → List ℕ → Kmem × Option ℕ
take_page m [] = (record { memory = m; freelist = [] }, none)
take_page m (r ∷ rest) = (record { memory = memset m r 5 pgsize; freelist = rest }, some r)

unfoldable pub kalloc : Kmem → Kmem × Option ℕ
unfolding take_page
kalloc k = take_page k.memory k.freelist

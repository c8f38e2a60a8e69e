-- ===== src/Kalloc/Links.antt =====
-- The free list of kernel/kalloc.c as the code keeps it, threaded through the free pages: the first 8
-- bytes of each hold the address of the next, in the byte order of RISC-V.
pub mod Stack
use os_assignment.Prelude.{
  ℕ, zero, suc, ◌+◌, ◌*◌, ◌/◌, ◌%◌, Option, none, some, ◌==◌, if◌then◌else◌, update,
}
use os_assignment.Strings.{Memory, memset}
use os_assignment.Kalloc.{pgsize, is_page}

-- The memory and `kmem.freelist`, 0 for the null pointer.
pub record Links : Type 0 where
  pub memory : Memory
  pub freelist : ℕ

-- `n` bytes from `p` on, read and written as a number (the pointers have 8), the lowest first.
unfoldable pub load_bytes : Memory → ℕ → ℕ → ℕ
load_bytes m p zero = 0
load_bytes m p (suc n) = m p + 256 * load_bytes m (p + 1) n

unfoldable pub store_bytes : Memory → ℕ → ℕ → ℕ → Memory
store_bytes m p zero v = m
store_bytes m p (suc n) v = store_bytes (update m p (v % 256)) (p + 1) n (v / 256)

-- `kfree`; `none` is the panic, `end` the end of the kernel.
unfoldable pub kfree_link : ℕ → Links → ℕ → Option Links
unfolding store_bytes
kfree_link end k pa =
    if is_page end pa
    then some (record {
      memory = store_bytes (memset k.memory pa 1 pgsize) pa 8 k.freelist;
      freelist = pa;
    })
    else none

-- `kalloc`; the page is 0 for the null pointer.
unfoldable pub kalloc_link : Links → Links × ℕ
unfolding load_bytes
kalloc_link k = if k.freelist == 0 then (k, 0) else (
  record {
    memory = memset k.memory k.freelist 5 pgsize;
    freelist = load_bytes k.memory k.freelist 8;
  },
  k.freelist,
)

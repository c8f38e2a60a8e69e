-- ===== src/Kalloc/Tests.antt =====
-- The page allocator with two pages between the kernel and the top of the memory.
use os_assignment.Prelude.{ℕ, refl, [], ◌∷◌, arith}
use os_assignment.Strings.{Memory}
use os_assignment.Kalloc.{phystop, pg_round_up, kinit}
use os_assignment.Kalloc.Pages.{Freed, kinit-Freed}
use os_assignment.Kalloc.Links.{Links, load_bytes, kfree_link, kalloc_link}
use os_assignment.Kalloc.Links.Stack.{Pushed, Popped, free_list_lem}

-- The kernel ends a byte after a page boundary.
abbrev kernel_end : ℕ
kernel_end = 0x87ffd001

abbrev zeros : Memory
zeros k = 0

kinit-Freed_example :
    Freed kernel_end
      (pg_round_up kernel_end)
      phystop
      (record { memory = zeros; freelist = [] })
      (kinit kernel_end zeros)
kinit-Freed_example = kinit-Freed kernel_end zeros

-- One free page, whose link is null in a memory of zeros.
abbrev one_link : Links
one_link = record { memory = zeros; freelist = 0x87ffe000 }

free_list_lem_example :
    Pushed kernel_end one_link 0x87fff000
      (0x87ffe000 ∷ [])
      (kfree_link kernel_end one_link 0x87fff000)
    × Popped kernel_end one_link (0x87ffe000 ∷ []) (kalloc_link one_link)
unfolding load_bytes
free_list_lem_example =
    free_list_lem kernel_end one_link 0x87fff000 (0x87ffe000 ∷ []) (omega arith)
      ((refl, refl), ((refl, omega arith, omega arith), tt, tt)) ((λ e. omega (arith, e)), tt)

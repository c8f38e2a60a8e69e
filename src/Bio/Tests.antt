-- ===== src/Bio/Tests.antt =====
-- A buffer cache of two buffers, one of them in use.
use os_assignment.Prelude.{true, [], ◌∷◌, arith}
use os_assignment.Bio.{Buf, holds, bget}
use os_assignment.Bio.Unique.{copies, Unique, Gets, UniqueIn, bget-Gets}

abbrev held_buf : Buf
held_buf = record { id = 0; valid = true; dev = 1; blockno = 5; refcnt = 1; contents = 9 }

abbrev free_buf : Buf
free_buf = record { id = 1; valid = true; dev = 1; blockno = 6; refcnt = 0; contents = 8 }

two_bufs-Unique : Unique (held_buf ∷ free_buf ∷ [])
unfolding Unique copies holds
two_bufs-Unique d n h = ground arith

-- Block 7 is not cached, so that the free buffer is recycled.
bget-Gets_example :
    Gets (held_buf ∷ free_buf ∷ []) 1 7 (bget (held_buf ∷ free_buf ∷ []) 1 7)
    × UniqueIn (bget (held_buf ∷ free_buf ∷ []) 1 7)
bget-Gets_example = bget-Gets (held_buf ∷ free_buf ∷ []) 1 7 two_bufs-Unique

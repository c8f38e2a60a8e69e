-- ===== src/Log.antt =====
-- kernel/log.c: the write-ahead log.
-- A block holds a value of any type `B`, but for the header block of the log, which is a list of
-- block numbers (`n` is its length). `cache` is what `bread` returns: the block as it stands in the
-- buffer cache. Each function gives the cache after it and the writes that it makes to the disk, in
-- order; after a crash the disk has seen a first part of them.
pub mod Recovery
pub mod Space
pub mod Short
pub mod Crash
mod Tests
use os_assignment.Prelude.{
  ℕ, zero, suc, ◌+◌, ◌-◌, ◌*◌, Bool, true, false, not, ◌&&◌, ◌||◌, Option, none, some, List, [],
  ◌∷◌, ◌++◌, ltb, leb, ◌==◌, if◌then◌else◌, update, length,
}

abbrev pub maxopblocks : ℕ
maxopblocks = 10

abbrev pub logsize : ℕ
logsize = 30

-- A block write of `bwrite`, and a write of the header block.
pub data Write {ℓ} (B : Type ℓ) : Type ℓ where
  block_write : ℕ → B → Write B
  head_write : List ℕ → Write B

-- The disk: the blocks, and the header of the log.
pub record Disk {ℓ} (B : Type ℓ) : Type ℓ where
  pub block : ℕ → B
  pub head : List ℕ

abbrev pub is_empty : List ℕ → Bool
is_empty [] = true
is_empty (_ ∷ _) = false

-- A cache and the writes made so far.
pub record Io {ℓ} (B : Type ℓ) : Type ℓ where
  pub cache : ℕ → B
  pub writes : List (Write B)

module _ {ℓ} {B : Type ℓ} where
  unfoldable pub apply : Disk B → Write B → Disk B
  apply d (block_write n b) = record d { block = update d.block n b }
  apply d (head_write lh) = record d { head = lh }

  unfoldable pub apply_all : Disk B → List (Write B) → Disk B
  apply_all d [] = d
  apply_all d (w ∷ ws) = apply_all (apply d w) ws

  -- The loop of `install_trans` from entry `tail` on: log block to its home, and the home written.
  unfoldable pub install_trans : ℕ → (ℕ → B) → ℕ → List ℕ → Io B
  install_trans start cache tail [] = record { cache = cache; writes = [] }
  install_trans start cache tail (b ∷ lh) =
      let rest = install_trans start (update cache b (cache (start + tail + 1))) (tail + 1) lh in
      record { cache = rest.cache; writes = block_write b (cache (start + tail + 1)) ∷ rest.writes }

  -- The loop of `write_log` from entry `tail` on: cached block to the log, and the log written.
  unfoldable pub write_log : ℕ → (ℕ → B) → ℕ → List ℕ → Io B
  write_log start cache tail [] = record { cache = cache; writes = [] }
  write_log start cache tail (b ∷ lh) =
      let rest = write_log start (update cache (start + tail + 1) (cache b)) (tail + 1) lh in
      record { cache = rest.cache; writes = block_write (start + tail + 1) (cache b) ∷ rest.writes }

  -- `commit`: the log, the header, the homes, and an empty header.
  unfoldable pub commit : ℕ → (ℕ → B) → List ℕ → Io B
  commit start cache lh =
      let logged = write_log start cache 0 lh in
      let installed = install_trans start logged.cache 0 lh in
      if is_empty lh then record { cache = cache; writes = [] } else record {
        cache = installed.cache;
        writes = logged.writes ++ head_write lh ∷ installed.writes ++ head_write [] ∷ [];
      }

  -- `recover_from_log`, from `read_head` on, with nothing cached.
  unfoldable pub recover_from_log : ℕ → Disk B → Disk B
  recover_from_log start d =
      apply (apply_all d (install_trans start d.block 0 d.head).writes) (head_write [])

-- `struct log`, without its lock and its device.
pub record Log : Type 0 where
  pub size : ℕ
  pub outstanding : ℕ
  pub committing : Bool
  pub lh : List ℕ

-- The size that mkfs gives the log, in the super block.
abbrev pub nlog : ℕ
nlog = logsize

-- `initlog` for a log of `size` blocks, when `recover_from_log` has emptied it; what it does not
-- assign is 0.
abbrev pub initlog : ℕ → Log
initlog size = record { size = size; outstanding = 0; committing = false; lh = [] }

-- A round of the loop of `begin_op`: `none` is a `sleep`.
unfoldable pub begin_op : Log → Option Log
begin_op g =
    if g.committing
    then none
    else if ltb logsize (length g.lh + (g.outstanding + 1) * maxopblocks)
    then none
    else some (record g { outstanding = g.outstanding + 1 })

-- The first section of `end_op`: whether it commits; `none` is the panic. It is called within an
-- operation, so that `outstanding` is not 0.
unfoldable pub end_op : Log → Option (Log × Bool)
end_op g =
    let g' = record g { outstanding = g.outstanding - 1 } in
    if g.committing
    then none
    else if g'.outstanding == 0
    then some (record g' { committing = true }, true)
    else some (g', false)

-- The last section of `end_op`, when `commit` is over.
unfoldable pub end_commit : Log → Log
end_commit g = record g { committing = false; lh = [] }

-- `log.lh.block[i] == b` for some `i`.
unfoldable pub absorbs : List ℕ → ℕ → Bool
absorbs [] b = false
absorbs (x ∷ lh) b = x == b || absorbs lh b

-- The log after `log_write` of block `b`, and whether the block is pinned; `none` is a panic.
unfoldable pub log_write : Log → ℕ → Option (Log × Bool)
log_write g b =
    if leb logsize (length g.lh) || leb (g.size - 1) (length g.lh)
    then none
    else if ltb g.outstanding 1
    then none
    else if absorbs g.lh b
    then some (g, false)
    else some (record g { lh = g.lh ++ b ∷ [] }, true)

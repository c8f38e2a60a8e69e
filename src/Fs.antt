-- ===== src/Fs.antt =====
-- kernel/fs.c: the blocks of a file, the table of inodes, and the elements of a path.
-- `used b` is the bit of block `b` in the free map, and `words b i` word `i` of block `b`, as the
-- buffer cache holds them within a transaction. The search of `balloc` over the blocks of the free
-- map and the bits in each is one search over the block numbers.
pub mod Blocks
pub mod Truncate
pub mod Path
pub mod Inodes
mod Tests
use os_assignment.Prelude.{
  ℕ, zero, suc, ◌+◌, ◌-◌, Bool, true, false, not, ◌&&◌, ◌||◌, Option, none, some, ltb, leb, ◌==◌,
  if◌then◌else◌, update,
}

abbrev pub ndirect : ℕ
ndirect = 12

abbrev pub nindirect : ℕ
nindirect = 256

pub record Disk : Type 0 where
  pub size : ℕ
  pub used : ℕ → Bool
  pub words : ℕ → ℕ → ℕ

-- `bzero`
abbrev pub zeroed : (ℕ → ℕ → ℕ) → ℕ → ℕ → ℕ → ℕ
zeroed words b b' i = if b' == b then 0 else words b' i

-- The search of `balloc` from block `b` on, with `n` blocks left.
unfoldable pub find_free : ℕ → ℕ → (ℕ → Bool) → Option ℕ
find_free zero b used = none
find_free (suc n) b used = let rest = find_free n (b + 1) used in if used b then rest else some b

-- The block is 0 if there is none.
unfoldable pub balloc : Disk → Disk × ℕ
balloc d = elim (find_free d.size 0 d.used) [
  | none ↦ (d, 0)
  | some b ↦ (record d { used = update d.used b true; words = zeroed d.words b }, b)
]

-- `none` is the panic.
unfoldable pub bfree : Disk → ℕ → Option Disk
bfree d b = if not (d.used b) then none else some (record d { used = update d.used b false })

-- A write of word `i` of block `b`.
abbrev pub set_word : Disk → ℕ → ℕ → ℕ → Disk
set_word d b i w = record d { words = λ b' i'. if b' == b && i' == i then w else d.words b' i' }

-- The parts of `bmap`: an entry of the inode, an entry of the indirect block. `addrs` is
-- `ip->addrs`, the last component the address that is found or allocated, or 0.
unfoldable pub direct_entry : Disk → (ℕ → ℕ) → ℕ → Disk × (ℕ → ℕ) × ℕ
direct_entry d addrs i =
    if not (addrs i == 0)
    then (d, addrs, addrs i)
    else (let r = balloc d in if r.1 == 0 then (r.0, addrs, 0) else (r.0, update addrs i r.1, r.1))

unfoldable pub indirect_entry : Disk → ℕ → ℕ → Disk × ℕ
indirect_entry d b i =
    if not (d.words b i == 0)
    then (d, d.words b i)
    else (let r = balloc d in if r.1 == 0 then (r.0, 0) else (set_word r.0 b i r.1, r.1))

-- `none` is the panic.
unfoldable pub bmap : Disk → (ℕ → ℕ) → ℕ → Option (Disk × (ℕ → ℕ) × ℕ)
unfolding direct_entry indirect_entry
bmap d addrs bn =
    if ltb bn ndirect
    then some (direct_entry d addrs bn)
    else if ltb (bn - ndirect) nindirect
    then (let r = direct_entry d addrs ndirect in
        if r.2 == 0
        then some (r.0, r.1, 0)
        else (let r' = indirect_entry r.0 r.2 (bn - ndirect) in some (r'.0, r.1, r'.1)))
    else none

-- A loop of `itrunc` over the entries `f i`, `n` of them left.
unfoldable pub free_entries : ℕ → ℕ → (ℕ → ℕ) → Disk → Option Disk
unfolding bfree
free_entries zero i f d = some d
free_entries (suc n) i f d = elim (f i == 0) [
  | true ↦ free_entries n (i + 1) f d
  | false ↦ elim (bfree d (f i)) [ none ↦ none | some d' ↦ free_entries n (i + 1) f d' ]
]

-- The indirect block, and then the block itself.
unfoldable pub free_indirect : ℕ → Disk → Option Disk
unfolding free_entries bfree
free_indirect b d =
    if b == 0
    then some d
    else elim (free_entries nindirect 0 (d.words b) d) [ none ↦ none | some d' ↦ bfree d' b ]

-- `itrunc`, which leaves an inode of size 0 with all entries 0; `none` is a panic of `bfree`.
unfoldable pub itrunc : Disk → (ℕ → ℕ) → Option (Disk × (ℕ → ℕ))
unfolding free_entries free_indirect
itrunc d addrs = elim (free_entries ndirect 0 addrs d) [
  | none ↦ none
  | some d' ↦ elim (free_indirect (addrs ndirect) d') [
    | none ↦ none
    | some d'' ↦ some (d'', λ i. if leb i ndirect then 0 else addrs i)
  ]
]

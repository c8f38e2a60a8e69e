-- ===== src/Fs/Tests.antt =====
-- A disk of 100 blocks of which 10 are in use, and a file with one block.
use os_assignment.Prelude.{
  [], ◌∷◌, ℕ, ◌+◌, ◌≡◌, ◌≤◌, ◌<◌, refl, true, none, some, arith, ltb, ◌==◌, if◌then◌else◌,
}
use os_assignment.Fs.{ndirect, nindirect, Disk, balloc, find_free, bmap, itrunc}
use os_assignment.Fs.Blocks.{BmapAt, bmap_lem}
use os_assignment.Fs.Blocks.Slots.{slot, nslots, IsFile}
use os_assignment.Fs.Path.{
  skip_slashes, element, skipelem, names_from, parts, names_of, names_from-names_of,
}
use os_assignment.Fs.Inodes.{Dinode, Itable, Inodes, iget, iput}
use os_assignment.Fs.Inodes.Get.{IsUnique, Gets, iget-Gets}
use os_assignment.Fs.Inodes.Put.{Removed, iput-Removed}
use os_assignment.Fs.Truncate.{itrunc-Clears}
use os_assignment.Fs.Truncate.Loop.{Clears}

abbrev small_disk : Disk
small_disk = record { size = 100; used = λ b. ltb b 10; words = λ b i. 0 }

abbrev one_block : ℕ → ℕ
one_block i = if i == 0 then 7 else 0

one_block-slot : (s : ℕ) → slot small_disk one_block s ≡ (if s == 0 then 7 else 0)
unfolding slot
one_block-slot s = ground arith

one_block-IsFile : IsFile small_disk one_block
one_block-IsFile = record {
  boot = refl;
  in_use = λ s hs ne. ground (arith, one_block-slot s);
  in_range = λ s hs ne. ground (arith, one_block-slot s);
  apart = λ s t hs ht ne e. ground (arith, one_block-slot s, one_block-slot t);
}

first_free : (balloc small_disk).1 ≡ 10
unfolding balloc find_free
first_free = refl

bmap_lem_example :
    (260 < ndirect + nindirect
      → (r : Disk × (ℕ → ℕ) × ℕ) × (bmap small_disk one_block 260 ≡ some r)
        × BmapAt small_disk one_block 260 r)
    × (ndirect + nindirect ≤ 260 → bmap small_disk one_block 260 ≡ none)
bmap_lem_example = bmap_lem small_disk one_block 260 one_block-IsFile

itrunc-Clears_example :
    (d' : Disk) × (addrs' : ℕ → ℕ) × (itrunc small_disk one_block ≡ some (d', addrs'))
    × Clears (slot small_disk one_block) (λ s. true) small_disk d'
    × IsFile d' addrs'
    × ((s : ℕ) → s < nslots → slot d' addrs' s ≡ 0)
itrunc-Clears_example = itrunc-Clears small_disk one_block one_block-IsFile

-- `///a//bb`
names_from-names_of_example :
    names_from 9 (b'/' ∷ b'/' ∷ b'/' ∷ b'a' ∷ b'/' ∷ b'/' ∷ b'b' ∷ b'b' ∷ [])
    ≡ some (names_of (parts (b'/' ∷ b'/' ∷ b'/' ∷ b'a' ∷ b'/' ∷ b'/' ∷ b'b' ∷ b'b' ∷ [])))
names_from-names_of_example =
    names_from-names_of 9 (b'/' ∷ b'/' ∷ b'/' ∷ b'a' ∷ b'/' ∷ b'/' ∷ b'b' ∷ b'b' ∷ []) (omega arith)

two_elements :
    names_from 9 (b'/' ∷ b'/' ∷ b'/' ∷ b'a' ∷ b'/' ∷ b'/' ∷ b'b' ∷ b'b' ∷ [])
    ≡ some ((b'a' ∷ []) ∷ (b'b' ∷ b'b' ∷ []) ∷ [])
unfolding names_from skipelem element skip_slashes
two_elements = refl

-- A table with one reference, to an inode without links whose blocks are those above.
abbrev one_core : Dinode
one_core = record { kind = 2; major = 0; minor = 0; nlink = 0; size = 5; addrs = one_block }

abbrev one_inode : Itable
one_inode i = record {
  dev = 1;
  inum = 3;
  ref = if i == 0 then 1 else 0;
  valid = true;
  core = one_core;
}

abbrev one_state : Inodes
one_state = record { disk = small_disk; dinodes = λ k. one_core; table = one_inode }

one_inode-IsUnique : IsUnique one_inode
unfolding IsUnique
one_inode-IsUnique i j hi hj ri rj ed en = ground arith

iget-Gets_example : Gets one_inode 1 7 (iget one_inode 1 7)
iget-Gets_example = iget-Gets one_inode 1 7 one_inode-IsUnique

iput-Removed_example : (s' : Inodes) × (iput one_state 0 ≡ some s') × Removed one_state 0 s'
iput-Removed_example = iput-Removed one_state 0 refl refl refl one_block-IsFile

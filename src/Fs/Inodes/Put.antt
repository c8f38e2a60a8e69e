-- ===== src/Fs/Inodes/Put.antt =====
-- `iput` of kernel/fs.c: dropping references, and the last one of a file without links.
use os_assignment.Prelude.{ℕ, ◌≡◌, ◌≢◌, refl, true, ◌&&◌, some, arith, ◌==◌, update}
use os_assignment.Fs.{Disk}
use os_assignment.Fs.Blocks.Slots.{slot, IsFile}
use os_assignment.Fs.Truncate.{itrunc-Clears}
use os_assignment.Fs.Truncate.Loop.{Clears}
use os_assignment.Fs.Inodes.{Inode, Inodes, iupdate, truncate, erase, unref, iput}

-- What is left of a file whose last reference is gone.
pub record Removed (s : Inodes) (i : ℕ) (s' : Inodes) : Type 0 where
  pub blocks : Clears (slot s.disk (s.table i).core.addrs) (λ k. true) s.disk s'.disk
  pub no_reference : (s'.table i).ref ≡ 0
  pub free_inode : (s'.dinodes (s.table i).inum).kind ≡ 0
  pub empty_file : (s'.dinodes (s.table i).inum).size ≡ 0
  pub other_inodes : (k : ℕ) → k ≢ (s.table i).inum → s'.dinodes k ≡ s.dinodes k
  pub other_entries : (k : ℕ) → k ≢ i → s'.table k ≡ s.table k

-- The inode after `itrunc`, and the state that `iput` ends in.
abbrev emptied : Inodes → ℕ → (ℕ → ℕ) → Inode
emptied s i addrs = record (s.table i) {
  core = record ((s.table i).core) { addrs = addrs; size = 0 };
}

abbrev removed : Inodes → ℕ → Disk → (ℕ → ℕ) → Inodes
removed s i d addrs =
    unref
      (erase (iupdate (record s { disk = d; table = update s.table i (emptied s i addrs) }) i) i) i

-- `iput` of the only reference to a valid inode without links, whose blocks are those of a file: it
-- does not panic, gives back all the blocks and no others, and leaves the inode on the disk free.
pub iput-Removed :
    (s : Inodes) (i : ℕ)
    → (s.table i).ref ≡ 1
    → (s.table i).valid ≡ true
    → (s.table i).core.nlink ≡ 0
    → IsFile s.disk (s.table i).core.addrs
    → (s' : Inodes) × (iput s i ≡ some s') × Removed s i s'
unfolding iput truncate erase unref iupdate
iput-Removed s i one valid no_link file =
    let last : ((s.table i).ref == 1 && (s.table i).valid && (s.table i).core.nlink == 0) ≡ true =
      ground arith in
    let (d, addrs, e, c, left, all) = itrunc-Clears s.disk (s.table i).core.addrs file in
    (
      removed s i d addrs,
      rw (last, iput, e) refl,
      record {
        blocks = c;
        no_reference = ground (arith, one);
        free_inode = ground arith;
        empty_file = ground arith;
        other_inodes = λ k ne. ground arith;
        other_entries = λ k ne. ground arith;
      },
    )

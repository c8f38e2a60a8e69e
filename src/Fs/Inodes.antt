-- ===== src/Fs/Inodes.antt =====
-- The table of inodes in memory, kernel/fs.c, and the inodes on the disk.
-- A call runs under `itable.lock`, or with the sleep lock of its inode; both are left out. The
-- inodes on the disk are those of the one device that there is.
pub mod Get
pub mod Put
use os_assignment.Prelude.{
  ℕ, zero, suc, ◌+◌, ◌-◌, Bool, true, false, not, ◌&&◌, ◌||◌, Option, none, some, ltb, leb, ◌==◌,
  if◌then◌else◌, update,
}
use os_assignment.Fs.{Disk, itrunc}

abbrev pub ninode : ℕ
ninode = 50

-- The part of an inode that is on the disk, too.
pub record Dinode : Type 0 where
  pub kind : ℕ
  pub major : ℕ
  pub minor : ℕ
  pub nlink : ℕ
  pub size : ℕ
  pub addrs : ℕ → ℕ

pub record Inode : Type 0 where
  pub dev : ℕ
  pub inum : ℕ
  pub ref : ℕ
  pub valid : Bool
  pub core : Dinode

abbrev pub Itable : Type 0
Itable = ℕ → Inode

pub record Inodes : Type 0 where
  pub disk : Disk
  pub dinodes : ℕ → Dinode
  pub table : Itable

-- What the loop of `iget` ends with: the entry of the inode, or the first empty one.
pub data Scanned : Type 0 where
  hit : ℕ → Scanned
  miss : Option ℕ → Scanned

abbrev pub is_entry : Inode → ℕ → ℕ → Bool
is_entry ip dev inum = ltb 0 ip.ref && ip.dev == dev && ip.inum == inum

abbrev pub first_empty : Option ℕ → ℕ → Inode → Option ℕ
first_empty (some e) i ip = some e
first_empty none i ip = if ip.ref == 0 then some i else none

-- The loop from entry `i` on, with `n` entries left.
unfoldable pub scan : ℕ → ℕ → Itable → ℕ → ℕ → Option ℕ → Scanned
scan zero i t dev inum empty = miss empty
scan (suc n) i t dev inum empty =
    let rest = scan n (i + 1) t dev inum (first_empty empty i (t i)) in
    if is_entry (t i) dev inum then hit i else rest

abbrev pub recycled : Inode → ℕ → ℕ → Inode
recycled ip dev inum = record ip { dev = dev; inum = inum; ref = 1; valid = false }

-- The table and the entry; `none` is the panic.
unfoldable pub iget : Itable → ℕ → ℕ → Option (Itable × ℕ)
unfolding scan
iget t dev inum = elim (scan ninode 0 t dev inum none) [
  | hit i ↦ some (update t i (record (t i) { ref = (t i).ref + 1 }), i)
  | miss empty ↦ elim empty [
    | none ↦ none
    | some i ↦ some (update t i (recycled (t i) dev inum), i)
  ]
]

unfoldable pub idup : Itable → ℕ → Itable
idup t i = update t i (record (t i) { ref = (t i).ref + 1 })

-- `none` is a panic.
unfoldable pub ilock : Inodes → ℕ → Option Inodes
ilock s i =
    let ip = s.table i in
    let loaded = record ip { core = s.dinodes ip.inum; valid = true } in
    if ltb ip.ref 1
    then none
    else if ip.valid
    then some s
    else if (s.dinodes ip.inum).kind == 0
    then none
    else some (record s { table = update s.table i loaded })

unfoldable pub iupdate : Inodes → ℕ → Inodes
iupdate s i = record s { dinodes = update s.dinodes (s.table i).inum (s.table i).core }

-- `itrunc`, with the inode that it leaves in memory and on the disk.
unfoldable pub truncate : Inodes → ℕ → Option Inodes
unfolding iupdate
truncate s i = elim (itrunc s.disk (s.table i).core.addrs) [
  | none ↦ none
  | some (d, addrs) ↦
      let ip = record (s.table i) {
        core = record ((s.table i).core) { addrs = addrs; size = 0 };
      } in
      some (iupdate (record s { disk = d; table = update s.table i ip }) i)
]

-- `ip->type = 0; iupdate(ip); ip->valid = 0;`
unfoldable pub erase : Inodes → ℕ → Inodes
unfolding iupdate
erase s i =
    let typeless = record (s.table i) { core = record ((s.table i).core) { kind = 0 } } in
    let s' = iupdate (record s { table = update s.table i typeless }) i in
    record s' { table = update s'.table i (record (s'.table i) { valid = false }) }

unfoldable pub unref : Inodes → ℕ → Inodes
unref s i = record s { table = update s.table i (record (s.table i) { ref = (s.table i).ref - 1 }) }

-- The count stays at 0 in the model where the code would go below; no caller drops a reference that
-- it does not hold.
unfoldable pub iput : Inodes → ℕ → Option Inodes
unfolding truncate erase unref
iput s i =
    let ip = s.table i in
    if ip.ref == 1 && ip.valid && ip.core.nlink == 0
    then elim (truncate s i) [ none ↦ none | some s' ↦ some (unref (erase s' i) i) ]
    else some (unref s i)

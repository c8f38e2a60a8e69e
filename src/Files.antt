-- ===== src/Files.antt =====
-- kernel/file.c: the table of open files, whose entries count their references.
-- Each function here is the section between `acquire(&ftable.lock)` and `release(&ftable.lock)`;
-- `none` is a panic. What the last `fileclose` does after its section is a value of `Teardown`.
pub mod Alloc
pub mod Counts
mod Tests
use os_assignment.Prelude.{
  ℕ, zero, suc, ◌+◌, ◌-◌, ◌<◌, Bool, true, false, Option, none, some, ltb, ◌==◌, if◌then◌else◌,
  update,
}

abbrev pub nfile : ℕ
nfile = 100

pub data FileType : Type 0 where
  fd_none fd_pipe fd_inode fd_device : FileType

-- `struct file`; `pipe` and `ip` name a pipe and an inode.
pub record File : Type 0 where
  pub type : FileType
  pub ref : ℕ
  pub readable : Bool
  pub writable : Bool
  pub pipe : ℕ
  pub ip : ℕ
  pub off : ℕ
  pub major : ℕ

abbrev pub FileTable : Type 0
FileTable = ℕ → File

-- The loop of `filealloc`, from index `i` on, with `n` rounds left.
pub alloc_file_from : ℕ → ℕ → FileTable → FileTable × Option ℕ
alloc_file_from zero i t = (t, none)
alloc_file_from (suc n) i t =
    let rest = alloc_file_from n (i + 1) t in
    if (t i).ref == 0 then (update t i (record (t i) { ref = 1 }), some i) else rest

-- `none` beside the table is the null pointer.
pub filealloc : FileTable → FileTable × Option ℕ
filealloc t = alloc_file_from nfile 0 t

unfoldable pub filedup : FileTable → ℕ → Option FileTable
filedup t f =
    if ltb (t f).ref 1 then none else some (update t f (record (t f) { ref = (t f).ref + 1 }))

-- What is left to do after the section: nothing, `pipeclose(ff.pipe, ff.writable)`, or
-- `iput(ff.ip)` in a transaction.
pub data Teardown : Type 0 where
  nothing : Teardown
  close_pipe : ℕ → Bool → Teardown
  put_inode : ℕ → Teardown

pub teardown : FileType → File → Teardown
teardown fd_none ff = nothing
teardown fd_pipe ff = close_pipe ff.pipe ff.writable
teardown fd_inode ff = put_inode ff.ip
teardown fd_device ff = put_inode ff.ip

unfoldable pub fileclose : FileTable → ℕ → Option (FileTable × Teardown)
fileclose t f =
    if ltb (t f).ref 1
    then none
    else if ltb 0 ((t f).ref - 1)
    then some (update t f (record (t f) { ref = (t f).ref - 1 }), nothing)
    else some (update t f (record (t f) { ref = 0; type = fd_none }), teardown (t f).type (t f))

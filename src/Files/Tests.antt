-- ===== src/Files/Tests.antt =====
-- The file table with one open file.
use os_assignment.Prelude.{◌≡◌, refl, some, false, update}
use os_assignment.Files.{FileTable, File, fd_none, fd_inode, teardown}
use os_assignment.Files.Counts.{close_times, quiet_then, Closed, close_times_lem}

abbrev closed_file : File
closed_file = record {
  type = fd_none;
  ref = 0;
  readable = false;
  writable = false;
  pipe = 0;
  ip = 0;
  off = 0;
  major = 0;
}

abbrev opened_file : File
opened_file = record closed_file { type = fd_inode; ref = 3; ip = 9 }

abbrev one_file : FileTable
one_file = update (λ k. closed_file) 0 opened_file

close_times_lem_example :
    (t' : FileTable) × (close_times 3 one_file 0
      ≡ some (t', quiet_then 2 (teardown fd_inode opened_file)))
    × Closed one_file t' 0
close_times_lem_example = close_times_lem 2 one_file 0 refl

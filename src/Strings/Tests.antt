-- ===== src/Strings/Tests.antt =====
-- The string functions at a small memory.
use os_assignment.Prelude.{◌≡◌, if◌then◌else◌, ◌==◌}
use os_assignment.Strings.{Memory, memmove, user_memmove}
use os_assignment.Strings.Move.{moved, memmove_lem, user_memmove_lem}

-- "42" at address 0, then NUL bytes.
abbrev memory : Memory
memory k = if k == 0 then b'4' else if k == 1 then b'2' else 0

-- The two ranges overlap.
memmove_lem_example : memmove memory 1 0 2 2 ≡ moved memory 1 0 2 2
memmove_lem_example = memmove_lem memory 1 0 2 2

user_memmove_lem_example :
    (user_memmove memory 1 0 2 2 ≡ moved memory 1 0 2 2)
    × (user_memmove memory 1 0 2 2 ≡ memmove memory 1 0 2 2)
user_memmove_lem_example = user_memmove_lem memory 1 0 2 2

-- ===== src/Console.antt =====
-- kernel/console.c: the console's input, edited by `consoleintr` and read by `consoleread`.
-- `procdump` is left out; an echo is a character, or 256 for `BACKSPACE`.
pub mod Line
pub mod Read
mod Tests
use os_assignment.Prelude.{
  ℕ, zero, suc, ◌+◌, ◌-◌, ◌%◌, ◌^◌, Bool, true, false, not, ◌&&◌, ◌||◌, List, [], ◌∷◌, ltb, ◌==◌,
  if◌then◌else◌, update,
}
use os_assignment.Pipe.{add_uint}

abbrev pub input_buf_size : ℕ
input_buf_size = 128

-- `cons`, without its lock.
pub record Cons : Type 0 where
  pub buf : ℕ → ℕ
  pub r : ℕ
  pub w : ℕ
  pub e : ℕ

-- `uint` subtraction
abbrev pub sub_uint : ℕ → ℕ → ℕ
sub_uint a b = (2 ^ 32 + a - b) % 2 ^ 32

-- What an interrupt does: the console, the echo, and whether it wakes the readers.
pub record Typed : Type 0 where
  pub cons : Cons
  pub echo : List ℕ
  pub wakes : Bool

unfoldable pub erase : Cons → Cons
erase c = record c { e = sub_uint c.e 1 }

-- The loop of the kill-line character, with fuel.
unfoldable pub kill_line : ℕ → Cons → Cons × List ℕ
unfolding erase
kill_line zero c = (c, [])
kill_line (suc f) c =
    let rest = kill_line f (erase c) in
    if c.e == c.w || c.buf (sub_uint c.e 1 % input_buf_size) == 10
    then (c, [])
    else (rest.0, 256 ∷ rest.1)

-- `(c == '\r') ? '\n' : c`
abbrev pub newline : ℕ → ℕ
newline ch = if ch == 13 then 10 else ch

unfoldable pub store : Cons → ℕ → Cons
store c ch = record c { buf = update c.buf (c.e % input_buf_size) ch; e = add_uint c.e 1 }

-- The end of the default case: whether the line is over.
unfoldable pub stored : Cons → ℕ → Typed
stored c ch =
    if ch == 10 || ch == 4 || sub_uint c.e c.r == input_buf_size
    then record { cons = record c { w = c.e }; echo = ch ∷ []; wakes = true }
    else record { cons = c; echo = ch ∷ []; wakes = false }

-- `C('P')` is 16, `C('U')` 21, `C('H')` 8. The fuel is what there is to erase.
unfoldable pub consoleintr : Cons → ℕ → Typed
unfolding erase kill_line store stored
consoleintr c ch =
    let killed = kill_line (sub_uint c.e c.w) c in
    if ch == 16
    then record { cons = c; echo = []; wakes = false }
    else if ch == 21
    then record { cons = killed.0; echo = killed.1; wakes = false }
    else if ch == 8 || ch == 127
    then (if c.e == c.w
        then record { cons = c; echo = []; wakes = false }
        else record { cons = erase c; echo = 256 ∷ []; wakes = false })
    else if not (ch == 0) && ltb (sub_uint c.e c.r) input_buf_size
    then stored (store c (newline ch)) (newline ch)
    else record { cons = c; echo = []; wakes = false }

-- How a section of `consoleread` ends, with the bytes that it has copied: it returns their number,
-- or -1, or sleeps.
pub data Stop : Type 0 where
  returned : Stop
  read_killed : Stop
  read_sleeps : Stop

-- The loop with `n` bytes left of `target`; `copies n` says whether `either_copyout` succeeds there.
unfoldable pub consoleread_from : Cons → ℕ → ℕ → Bool → (ℕ → Bool) → Cons × List ℕ × Stop
consoleread_from c zero target killed copies = (c, [], returned)
consoleread_from c (suc n) target killed copies =
    let ch = c.buf (c.r % input_buf_size) in
    let c' = record c { r = add_uint c.r 1 } in
    let rest = consoleread_from c' n target killed copies in
    if c.r == c.w
    then (c, [], if killed then read_killed else read_sleeps)
    else if ch == 4
    then (if ltb (suc n) target then c else c', [], returned)
    else if not (copies (suc n))
    then (c', [], returned)
    else if ch == 10
    then (c', ch ∷ [], returned)
    else (rest.0, ch ∷ rest.1, rest.2)

unfoldable pub consoleread : Cons → ℕ → Bool → (ℕ → Bool) → Cons × List ℕ × Stop
unfolding consoleread_from
consoleread c n killed copies = consoleread_from c n n killed copies

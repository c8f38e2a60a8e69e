-- ===== src/Pipe.antt =====
-- kernel/pipe.c: a pipe of 512 bytes with 32-bit counters that run freely.
-- `pipewrite` and `piperead` run under the pipe's lock up to their return or their next `sleep`;
-- one such section is one function here. The bytes that a writer copies in are a list, in which
-- `none` is a `copyin` that fails; `copies i` says whether the `copyout` of byte `i` succeeds.
pub mod Valid
pub mod Fifo
mod Tests
use os_assignment.Prelude.{
  ℕ, zero, suc, ◌+◌, ◌-◌, ◌%◌, ◌^◌, Bool, true, false, not, ◌&&◌, ◌||◌, Option, none, some, List,
  [], ◌∷◌, ◌++◌, ◌==◌, if◌then◌else◌, update,
}

abbrev pub pipesize : ℕ
pipesize = 512

-- `struct pipe`, without its lock; `buf` is `data`.
pub record Pipe : Type 0 where
  pub buf : ℕ → ℕ
  pub nread : ℕ
  pub nwrite : ℕ
  pub readopen : Bool
  pub writeopen : Bool

-- `uint` addition
abbrev pub add_uint : ℕ → ℕ → ℕ
add_uint a b = (a + b) % 2 ^ 32

-- The pipe that `pipealloc` sets up in a page that holds `buf`.
unfoldable pub new_pipe : (ℕ → ℕ) → Pipe
new_pipe buf = record { buf = buf; nread = 0; nwrite = 0; readopen = true; writeopen = true }

-- The pipe after `pipeclose`, and whether its page is freed.
unfoldable pub pipeclose : Pipe → Bool → Pipe × Bool
pipeclose p writable =
    let p' = if writable then record p { writeopen = false } else record p { readopen = false } in
    (p', not p'.readopen && not p'.writeopen)

-- `pi->data[pi->nwrite++ % PIPESIZE] = ch`
unfoldable pub put : Pipe → ℕ → Pipe
put p ch = record p { buf = update p.buf (p.nwrite % pipesize) ch; nwrite = add_uint p.nwrite 1 }

-- `pi->nread++`
unfoldable pub skip : Pipe → Pipe
skip p = record p { nread = add_uint p.nread 1 }

-- How a section of `pipewrite` ends: it returns a count, or -1, or sleeps with bytes left.
pub data WriteEnd : Type 0 where
  wrote : ℕ → WriteEnd
  broken : WriteEnd
  write_sleeps : ℕ → List (Option ℕ) → WriteEnd

-- The loop of `pipewrite` from byte `i` on.
unfoldable pub write_from : Pipe → Bool → List (Option ℕ) → ℕ → Pipe × WriteEnd
write_from p killed [] i = (p, wrote i)
write_from p killed (none ∷ src) i =
    if not p.readopen || killed
    then (p, broken)
    else if p.nwrite == add_uint p.nread pipesize
    then (p, write_sleeps i (none ∷ src))
    else (p, wrote i)
write_from p killed (some ch ∷ src) i =
    let rest = write_from (put p ch) killed src (i + 1) in
    if not p.readopen || killed
    then (p, broken)
    else if p.nwrite == add_uint p.nread pipesize
    then (p, write_sleeps i (some ch ∷ src))
    else rest

-- How a section of `piperead` ends.
pub data ReadEnd : Type 0 where
  got : List ℕ → ReadEnd
  read_killed : ReadEnd
  read_sleeps : ReadEnd

-- The loop that copies, from byte `i` on with `n` bytes wanted: the bytes delivered. A byte whose
-- `copyout` fails is taken from the pipe and not delivered.
unfoldable pub read_from : Pipe → ℕ → ℕ → (ℕ → Bool) → Pipe × List ℕ
read_from p zero i copies = (p, [])
read_from p (suc n) i copies =
    let rest = read_from (skip p) n (i + 1) copies in
    if p.nread == p.nwrite
    then (p, [])
    else if not (copies i)
    then (skip p, [])
    else (rest.0, p.buf (p.nread % pipesize) ∷ rest.1)

unfoldable pub piperead : Pipe → Bool → ℕ → (ℕ → Bool) → Pipe × ReadEnd
unfolding read_from skip
piperead p killed n copies =
    if p.nread == p.nwrite && p.writeopen
    then (if killed then (p, read_killed) else (p, read_sleeps))
    else (let r = read_from p n 0 copies in (r.0, got r.1))

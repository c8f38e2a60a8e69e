-- ===== src/Pipe/Valid.antt =====
-- The invariant of a pipe: its counters are 32-bit numbers at most 512 apart.
use os_assignment.Prelude.{
  ℕ, suc, ◌+◌, ◌-◌, ◌%◌, ◌^◌, ◌≤◌, ◌<◌, ◌≡◌, ◌≢◌, refl, ap, ◌∙◌, List, [], ◌∷◌, ◌++◌, arith,
}
use os_assignment.Ring.{window, window-mod, window-push, window-pop}
use os_assignment.Pipe.{Pipe, pipesize, add_uint, new_pipe, put, skip}

-- `nwrite - nread` as the machine computes it.
abbrev pub count : Pipe → ℕ
count p = (2 ^ 32 + p.nwrite - p.nread) % 2 ^ 32

pub record IsValid (p : Pipe) : Type 0 where
  pub read_small : p.nread < 2 ^ 32
  pub write_small : p.nwrite < 2 ^ 32
  pub fits : count p ≤ pipesize

-- The bytes in the pipe, oldest first.
abbrev pub contents : Pipe → List ℕ
contents p = window pipesize p.buf p.nread (count p)

pub new_pipe-IsValid : (buf : ℕ → ℕ) → IsValid (new_pipe buf) × (contents (new_pipe buf) ≡ [])
unfolding new_pipe
new_pipe-IsValid buf = (omega arith, refl)

-- The test for a full pipe, and the one for an empty pipe.
pub full_test : (p : Pipe) → IsValid p → p.nwrite ≢ add_uint p.nread pipesize → count p < pipesize
full_test p v ne = omega arith

pub empty_test : (p : Pipe) → IsValid p → p.nread ≢ p.nwrite → 0 < count p
empty_test p v ne = omega arith

-- A byte put into a pipe that is not full stands behind all others.
pub put_lem :
    (p : Pipe) (ch : ℕ)
    → IsValid p
    → count p < pipesize
    → IsValid (put p ch) × (contents (put p ch) ≡ contents p ++ (ch ∷ []))
unfolding put
put_lem p ch v h = (
  record { read_small = v.read_small; write_small = omega arith; fits = omega arith },
  ap (λ n. window pipesize (put p ch).buf p.nread n) more
      ∙ window-push pipesize p.buf ch (count p) p.nread (p.nwrite % pipesize) h (omega arith),
)
  where
    more : count (put p ch) ≡ suc (count p)
    more = omega arith

-- The byte that a reader takes is the oldest one.
pub skip_lem :
    (p : Pipe)
    → IsValid p
    → 0 < count p
    → IsValid (skip p) × (contents p ≡ p.buf (p.nread % pipesize) ∷ contents (skip p))
unfolding skip
skip_lem p v h = (
  record { read_small = omega arith; write_small = v.write_small; fits = omega arith },
  window-pop pipesize p.buf (count p) p.nread h
      ∙ ap (λ l. p.buf (p.nread % pipesize) ∷ l)
          (window-mod pipesize p.buf (count p - 1) (p.nread + 1) (add_uint p.nread 1) (omega arith)
            ∙ ap (window pipesize p.buf (add_uint p.nread 1)) less),
)
  where
    less : count p - 1 ≡ count (skip p)
    less = omega arith

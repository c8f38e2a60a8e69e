-- ===== src/Pipe/Tests.antt =====
-- A pipe whose counters are about to wrap around.
use os_assignment.Prelude.{
  ℕ, ◌≡◌, ◌⊎◌, refl, some, true, false, if◌then◌else◌, List, [], ◌∷◌, arith,
}
use os_assignment.Pipe.{Pipe, write_from, piperead, read_killed, read_sleeps, got}
use os_assignment.Pipe.Valid.{IsValid, contents}
use os_assignment.Pipe.Fifo.{Wrote, write_from-Wrote, Read, piperead_lem}

-- It holds the byte 65.
abbrev late_pipe : Pipe
late_pipe = record {
  buf = λ k. 65;
  nread = 4294967295;
  nwrite = 0;
  readopen = true;
  writeopen = true;
}

late_pipe-IsValid : IsValid late_pipe
late_pipe-IsValid = record {
  read_small = omega arith;
  write_small = omega arith;
  fits = omega arith;
}

write_from-Wrote_example :
    Wrote late_pipe false
      (some 66 ∷ some 67 ∷ [])
      0
      (write_from late_pipe false (some 66 ∷ some 67 ∷ []) 0)
write_from-Wrote_example =
    write_from-Wrote (some 66 ∷ some 67 ∷ []) late_pipe false 0 late_pipe-IsValid

piperead_lem_example :
    ((contents late_pipe ≡ [])
      × (late_pipe.writeopen ≡ true)
      × (piperead late_pipe false 4 (λ k. true)
          ≡ (late_pipe, if false then read_killed else read_sleeps)))
    ⊎ ((q : Pipe) × (out : List ℕ) × (piperead late_pipe false 4 (λ k. true) ≡ (q, got out))
        × Read late_pipe 4 (q, out))
piperead_lem_example = piperead_lem late_pipe false 4 (λ k. true) late_pipe-IsValid (λ k. refl)

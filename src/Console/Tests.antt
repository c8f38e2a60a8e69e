-- ===== src/Console/Tests.antt =====
-- A console that holds a line of one character and a character that is still edited.
use os_assignment.Prelude.{true, false, arith, ◌==◌, if◌then◌else◌}
use os_assignment.Console.{Cons, consoleintr, consoleread}
use os_assignment.Console.Line.{IsValid, Seen, consoleintr-IsValid}
use os_assignment.Console.Read.{Reads, consoleread_lem}

-- The cursors are about to wrap around.
abbrev cons : Cons
cons = record { buf = λ k. if k == 127 then 10 else 65; r = 4294967294; w = 0; e = 1 }

cons-IsValid : IsValid cons
cons-IsValid = record {
  r_small = omega arith;
  w_small = omega arith;
  e_small = omega arith;
  ordered = omega arith;
  fits = omega arith;
}

-- A carriage return ends the line.
consoleintr-IsValid_example :
    IsValid (consoleintr cons 13).cons × Seen cons 13 (consoleintr cons 13)
consoleintr-IsValid_example = consoleintr-IsValid cons 13 cons-IsValid

consoleread_lem_example : Reads cons 10 10 (λ k. true) (consoleread cons 10 false (λ k. true))
consoleread_lem_example = consoleread_lem cons 10 false (λ k. true) cons-IsValid

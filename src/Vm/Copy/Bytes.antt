-- ===== src/Vm/Copy/Bytes.antt =====
-- `copyin` and `copyout` of kernel/vm.c, page by page, and the copies byte by byte.
use os_assignment.Prelude.{
  ℕ, zero, suc, ◌+◌, ◌-◌, ◌%◌, Bool, true, false, Option, none, some, List, [], ◌∷◌, ◌++◌, ltb,
  ◌==◌, if◌then◌else◌, update, length, take, drop,
}
use os_assignment.Kalloc.{pgsize}
use os_assignment.Vm.{pg_round_down, Mem, walkaddr}

-- `walkaddr` as its callers read it: physical page 0 is no page.
unfoldable pub page_of : Mem → ℕ → ℕ → Option ℕ
page_of m root va = elim (walkaddr m root (pg_round_down va)) [
  | none ↦ none
  | some pa ↦ if pa == 0 then none else some pa
]

-- The bytes that `memmove` reads, and a memory that it has written.
unfoldable pub read_at : (ℕ → ℕ) → ℕ → ℕ → List ℕ
read_at bytes p zero = []
read_at bytes p (suc n) = bytes p ∷ read_at bytes (p + 1) n

unfoldable pub write_at : (ℕ → ℕ) → ℕ → List ℕ → ℕ → ℕ
write_at bytes p [] = bytes
write_at bytes p (x ∷ xs) = write_at (update bytes p x) (p + 1) xs

-- `n = PGSIZE - (va - va0); if (n > len) n = len;`
abbrev pub chunk : ℕ → ℕ → ℕ
chunk va len =
    if ltb len (pgsize - (va - pg_round_down va)) then len else pgsize - (va - pg_round_down va)

abbrev pub prepend : List ℕ → Option (List ℕ) → Option (List ℕ)
prepend xs none = none
prepend xs (some ys) = some (xs ++ ys)

-- The loop of `copyin`, with fuel: each round copies a byte at least. The bytes that it copies, or
-- `none` for -1.
unfoldable pub copyin_from : ℕ → Mem → ℕ → ℕ → ℕ → Option (List ℕ)
copyin_from zero m root srcva len = if len == 0 then some [] else none
copyin_from (suc f) m root srcva len = elim (len == 0) [
  | true ↦ some []
  | false ↦ elim (page_of m root srcva) [
    | none ↦ none
    | some pa0 ↦
        prepend (read_at m.bytes (pa0 + (srcva - pg_round_down srcva)) (chunk srcva len))
          (copyin_from f m root (pg_round_down srcva + pgsize) (len - chunk srcva len))
  ]
]

unfoldable pub copyin : Mem → ℕ → ℕ → ℕ → Option (List ℕ)
unfolding copyin_from
copyin m root srcva len = copyin_from len m root srcva len

-- The loop of `copyout`, with fuel, and whether it returns 0. `src` is what is left to copy.
unfoldable pub copyout_from : ℕ → Mem → ℕ → ℕ → List ℕ → Mem × Bool
copyout_from zero m root dstva src = (m, length src == 0)
copyout_from (suc f) m root dstva src = elim (length src == 0) [
  | true ↦ (m, true)
  | false ↦ elim (page_of m root dstva) [
    | none ↦ (m, false)
    | some pa0 ↦
        copyout_from f
          (record m {
            bytes =
                write_at m.bytes (pa0 + (dstva - pg_round_down dstva))
                  (take (chunk dstva (length src)) src);
          })
          root (pg_round_down dstva + pgsize) (drop (chunk dstva (length src)) src)
  ]
]

unfoldable pub copyout : Mem → ℕ → ℕ → List ℕ → Mem × Bool
unfolding copyout_from
copyout m root dstva src = copyout_from (length src) m root dstva src

-- The byte of a user address: its page, and the offset in it.
unfoldable pub address : Mem → ℕ → ℕ → Option ℕ
address m root va = elim (page_of m root va) [ none ↦ none | some pa ↦ some (pa + va % 4096) ]

-- Copies byte by byte, up to the first address that has no page.
unfoldable pub bytes_in : Mem → ℕ → ℕ → ℕ → Option (List ℕ)
bytes_in m root va zero = some []
bytes_in m root va (suc n) = elim (address m root va) [
  | none ↦ none
  | some p ↦ prepend (m.bytes p ∷ []) (bytes_in m root (va + 1) n)
]

unfoldable pub bytes_out : Mem → ℕ → ℕ → List ℕ → Mem × Bool
bytes_out m root va [] = (m, true)
bytes_out m root va (x ∷ xs) = elim (address m root va) [
  | none ↦ (m, false)
  | some p ↦ bytes_out (record m { bytes = update m.bytes p x }) root (va + 1) xs
]

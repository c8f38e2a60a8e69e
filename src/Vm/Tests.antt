-- ===== src/Vm/Tests.antt =====
-- An empty page table with two free pages, and one with a page at address 0.
use mathlib.Core.Path.{subst}
use os_assignment.Prelude.{
  false, ◌≤◌, ◌<◌, some, ℕ, ◌≡◌, refl, true, [], ◌∷◌, arith, ◌==◌, if◌then◌else◌, ap, ℕ_discrete,
}
use os_assignment.Vm.{is_valid, pte2pa, Mem, mappages, uvmunmap}
use os_assignment.Vm.Tables.{lookup, Place, outside, top, mid, low, child, IsInner}
use os_assignment.Vm.Map.{Maps, mappages-Maps}
use os_assignment.Vm.Map.Write.{entry, IsTree}
use os_assignment.Vm.Unmap.{IsBare, Unmaps, uvmunmap-Unmaps}
use os_assignment.Vm.Space.{pg_round_up, user_perm, uvmalloc}
use os_assignment.Vm.Space.Spare.{AllPages}
use os_assignment.Vm.Space.Alloc.{uvmalloc-Allocs}
use os_assignment.Vm.Space.Alloc.Rounds.{Allocs}
use os_assignment.Vm.Copy.{copyout-bytes_out}
use os_assignment.Vm.Copy.Str.{copyinstr, string_in, copyinstr-string_in}
use os_assignment.Vm.Copy.In.{copyin-bytes_in}
use os_assignment.Vm.Copy.Bytes.{copyin, copyout, bytes_in, bytes_out}

abbrev blank : Mem
blank = record { words = λ p i. 0; bytes = λ a. 0; free = 8192 ∷ 12288 ∷ [] }

blank-IsTree : IsTree blank 4096
blank-IsTree = (
  λ p. if p == 4096 then top else outside,
  record {
    at_top = refl;
    below = λ p i h v. ground arith;
    spare = (refl, refl, (omega arith, tt), (refl, refl, tt, tt));
  },
)

mappages-Maps_example : Maps blank 4096 0 0 16384 22 (mappages blank 4096 0 4096 16384 22)
mappages-Maps_example =
    mappages-Maps blank 4096 0 4096 16384 22 (omega arith) (omega arith) blank-IsTree

abbrev one_words : ℕ → ℕ → ℕ
one_words p i =
    if i == 0
    then (if p == 4096 then 2049 else if p == 8192 then 3073 else if p == 12288 then 4119 else 0)
    else 0

abbrev one_mapped : Mem
one_mapped = record { words = one_words; bytes = λ a. a; free = [] }

abbrev one_place : ℕ → Place
one_place p =
    if p == 4096 then top else if p == 8192 then mid 0 else if p == 12288 then low 0 0 else outside

one_below :
    (p i : ℕ)
    → IsInner (one_place p)
    → is_valid (one_words p i) ≡ true
    → one_place (pte2pa (one_words p i)) ≡ child (one_place p) i
one_below p i h v = elim (ℕ_discrete i 0) [
  | no ne ↦ ground arith
  | yes z ↦ elim (ℕ_discrete p 4096) [
    | yes first ↦ rw (z, first) refl
    | no ne ↦ elim (ℕ_discrete p 8192) [
      | yes second ↦ rw (z, second) refl
      | no ne' ↦ elim (ℕ_discrete p 12288) [
        | yes third ↦ absurd (subst IsInner (ap one_place third) h)
        | no ne'' ↦ (let e : one_place p ≡ outside = ground arith in absurd (subst IsInner e h))
      ]
    ]
  ]
]

one_mapped-IsBare : IsBare one_mapped 4096
one_mapped-IsBare =
    (one_place, record { at_top = refl; below = λ p i h v. one_below p i h v; spare = tt })

uvmunmap-Unmaps_example :
    Unmaps (λ pa. true) one_mapped 4096 0 1 true (uvmunmap (λ pa. true) one_mapped 4096 0 1 true)
uvmunmap-Unmaps_example =
    uvmunmap-Unmaps (λ pa. true) one_mapped 4096 0 1 true (omega arith) (omega arith)
      one_mapped-IsBare

copyin-bytes_in_example : copyin one_mapped 4096 4090 12 ≡ bytes_in one_mapped 4096 4090 12
copyin-bytes_in_example = copyin-bytes_in one_mapped 4096 4090 12

copyout-bytes_out_example :
    copyout one_mapped 4096 4094 (b'a' ∷ b'b' ∷ b'c' ∷ [])
    ≡ bytes_out one_mapped 4096 4094 (b'a' ∷ b'b' ∷ b'c' ∷ [])
copyout-bytes_out_example = copyout-bytes_out one_mapped 4096 4094 (b'a' ∷ b'b' ∷ b'c' ∷ [])

blank-pages : AllPages (λ pa. true) blank.free
unfolding AllPages
blank-pages = (refl, (refl, tt))

blank-entry : (va : ℕ) → is_valid (entry blank 4096 va) ≡ false
unfolding entry lookup
blank-entry va = refl

-- Growing the empty address space by a page.
uvmalloc-Allocs_example :
    (0 ≤ 4096
      → (r : Mem × ℕ) × (uvmalloc (λ pa. true) blank 4096 0 4096 4 ≡ some r)
        × Allocs (λ pa. true) blank 4096 (pg_round_up 0) (pg_round_up 4096) 4096 (user_perm 4) r)
    × (4096 < 0 → uvmalloc (λ pa. true) blank 4096 0 4096 4 ≡ some (blank, 0))
uvmalloc-Allocs_example =
    uvmalloc-Allocs (λ pa. true) blank 4096 0 4096 4 (omega arith) blank-IsTree blank-pages
      (λ va lo hi. blank-entry va)

copyinstr-string_in_example : copyinstr one_mapped 4096 1 300 ≡ string_in one_mapped 4096 1 300
copyinstr-string_in_example = copyinstr-string_in one_mapped 4096 1 300

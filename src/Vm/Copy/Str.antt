-- ===== src/Vm/Copy/Str.antt =====
-- `copyinstr` of kernel/vm.c delivers the string that a copy byte by byte delivers.
use os_assignment.Prelude.{
  ℕ, zero, suc, ◌+◌, ◌-◌, ◌%◌, ◌≤◌, ◌<◌, ◌≡◌, refl, sym, ap, ◌∙◌, inl, inr, Bool, true, false,
  Option, none, some, List, [], ◌∷◌, arith, ltb, ◌==◌, if◌then◌else◌, Bool-cases, Option-cases,
}
use os_assignment.Kalloc.{pgsize}
use os_assignment.Vm.{pg_round_down, Mem}
use os_assignment.Vm.Copy.Bytes.{page_of, chunk, prepend, address}
use os_assignment.Vm.Copy.In.{page_of-same, address-in, address-out, chunk_bounds}

-- The inner loop, over `n` bytes: what it copies, and `got_null`.
unfoldable pub until_nul : (ℕ → ℕ) → ℕ → ℕ → List ℕ × Bool
until_nul bytes p zero = ([], false)
until_nul bytes p (suc n) =
    let rest = until_nul bytes (p + 1) n in
    if bytes p == 0 then (0 ∷ [], true) else (bytes p ∷ rest.0, rest.1)

-- The outer loop stops at a NUL.
abbrev pub unless_nul : List ℕ × Bool → Option (List ℕ) → Option (List ℕ)
unless_nul (xs, true) o = some xs
unless_nul (xs, false) o = prepend xs o

-- The loop of `copyinstr`, with fuel: each round passes a byte at least. The bytes that it copies,
-- or `none` for -1.
unfoldable pub copyinstr_from : ℕ → Mem → ℕ → ℕ → ℕ → Option (List ℕ)
unfolding until_nul
copyinstr_from zero m root srcva max = none
copyinstr_from (suc f) m root srcva max = elim (max == 0) [
  | true ↦ none
  | false ↦ elim (page_of m root srcva) [
    | none ↦ none
    | some pa0 ↦
        unless_nul (until_nul m.bytes (pa0 + (srcva - pg_round_down srcva)) (chunk srcva max))
          (copyinstr_from f m root (pg_round_down srcva + pgsize) (max - chunk srcva max))
  ]
]

unfoldable pub copyinstr : Mem → ℕ → ℕ → ℕ → Option (List ℕ)
unfolding copyinstr_from
copyinstr m root srcva max = copyinstr_from max m root srcva max

-- Copies byte by byte, up to the NUL.
unfoldable pub string_in : Mem → ℕ → ℕ → ℕ → Option (List ℕ)
string_in m root va zero = none
string_in m root va (suc n) = elim (address m root va) [
  | none ↦ none
  | some p ↦
      if m.bytes p == 0
      then some (0 ∷ [])
      else prepend (m.bytes p ∷ []) (string_in m root (va + 1) n)
]

string_in-nul :
    (m : Mem) (root va n p : ℕ)
    → address m root va ≡ some p
    → (m.bytes p == 0) ≡ true
    → string_in m root va (suc n) ≡ some (0 ∷ [])
unfolding string_in
string_in-nul m root va n p e z = rw (e, z, string_in) refl

string_in-byte :
    (m : Mem) (root va n p : ℕ)
    → address m root va ≡ some p
    → (m.bytes p == 0) ≡ false
    → string_in m root va (suc n) ≡ prepend (m.bytes p ∷ []) (string_in m root (va + 1) n)
unfolding string_in
string_in-byte m root va n p e nz = rw (e, nz, string_in) refl

until_nul-nul : (b : ℕ → ℕ) (p k : ℕ) → (b p == 0) ≡ true → until_nul b p (suc k) ≡ (0 ∷ [], true)
unfolding until_nul
until_nul-nul b p k z = rw (z, until_nul) refl

until_nul-byte :
    (b : ℕ → ℕ) (p k : ℕ)
    → (b p == 0) ≡ false
    → until_nul b p (suc k) ≡ (b p ∷ (until_nul b (p + 1) k).0, (until_nul b (p + 1) k).1)
unfolding until_nul
until_nul-byte b p k nz = rw (nz, until_nul) refl

unless_nul-prepend :
    (x : ℕ) (r : List ℕ × Bool) (o : Option (List ℕ))
    → prepend (x ∷ []) (unless_nul r o) ≡ unless_nul (x ∷ r.0, r.1) o
unless_nul-prepend x (xs, true) o = refl
unless_nul-prepend x (xs, false) none = refl
unless_nul-prepend x (xs, false) (some ys) = refl

unless_nul-nil : (o : Option (List ℕ)) → unless_nul ([], false) o ≡ o
unless_nul-nil none = refl
unless_nul-nil (some xs) = refl

-- The bytes of a page are read together.
string_in-chunk :
    (k : ℕ) (m : Mem) (root va n pa q : ℕ)
    → (0 < k → page_of m root va ≡ some pa)
    → (0 < k → q ≡ pa + va % 4096)
    → va % 4096 + k ≤ 4096
    → string_in m root va (k + n) ≡ unless_nul (until_nul m.bytes q k) (string_in m root (va + k) n)
unfolding until_nul
string_in-chunk zero m root va n pa q e eq h =
    ap (string_in m root va) (let z : 0 + n ≡ n = omega arith in z)
    ∙ sym
        (unless_nul-nil _ ∙ ap (λ a. string_in m root a n) (let z : va + 0 ≡ va = omega arith in z))
string_in-chunk (suc k) m root va n pa q e eq h =
    ap (string_in m root va) (let z : suc k + n ≡ suc (k + n) = omega arith in z)
    ∙ elim (Bool-cases (m.bytes q == 0)) [
      | inl z ↦
          string_in-nul m root va (k + n) q at z
          ∙ sym (
              ap (λ r. unless_nul r (string_in m root (va + suc k) n))
                (until_nul-nul m.bytes q k z))
      | inr nz ↦
          string_in-byte m root va (k + n) q at nz
          ∙ ap (prepend (m.bytes q ∷ [])) (
              string_in-chunk k m root (va + 1) n pa (q + 1)
                (λ lt. page_of-same m root (va + 1) va (omega arith) ∙ e (omega arith))
                (λ lt. omega (arith, eq (omega arith))) (omega arith)
              ∙ ap (λ a. unless_nul (until_nul m.bytes (q + 1) k) (string_in m root a n))
                  (let z : va + 1 + k ≡ va + suc k = omega arith in z))
          ∙ unless_nul-prepend (m.bytes q) (until_nul m.bytes (q + 1) k)
              (string_in m root (va + suc k) n)
          ∙ sym (
              ap (λ r. unless_nul r (string_in m root (va + suc k) n))
                (until_nul-byte m.bytes q k nz))
    ]
  where
    at : address m root va ≡ some q
    at = address-in m root va pa (e (omega arith)) ∙ ap some (sym (eq (omega arith)))

string_in-stop : (m : Mem) (root va n : ℕ) → page_of m root va ≡ none → string_in m root va n ≡ none
unfolding string_in
string_in-stop m root va zero e = refl
string_in-stop m root va (suc n) e = rw (address-out m root va e, string_in) refl

copyinstr_from-stop :
    (f : ℕ) (m : Mem) (root va max : ℕ)
    → page_of m root va ≡ none
    → copyinstr_from (suc f) m root va max ≡ none
unfolding copyinstr_from
copyinstr_from-stop f m root va max e = ground (arith, e)

copyinstr_from-go :
    (f : ℕ) (m : Mem) (root va max pa : ℕ)
    → 0 < max
    → page_of m root va ≡ some pa
    → copyinstr_from (suc f) m root va max
      ≡ unless_nul
          (until_nul m.bytes (pa + (va - pg_round_down va)) (chunk va max))
          (copyinstr_from f m root (pg_round_down va + pgsize) (max - chunk va max))
unfolding copyinstr_from
copyinstr_from-go f m root va max pa h e =
    (let nz : (max == 0) ≡ false = ground arith in rw (nz, e, copyinstr_from) refl)

-- After a chunk the next byte is the first of the next page, if any is left.
string_in-next :
    (m : Mem) (root va max : ℕ)
    → string_in m root (va + chunk va max) (max - chunk va max)
      ≡ string_in m root (pg_round_down va + pgsize) (max - chunk va max)
unfolding string_in
string_in-next m root va max = elim (Bool-cases (ltb max (pgsize - (va - pg_round_down va)))) [
  | inl last ↦ rw last (let z : max - max ≡ 0 = omega arith in rw z refl)
  | inr full ↦
      rw full
        (ap (λ a. string_in m root a (max - (pgsize - (va - pg_round_down va)))) (omega arith))
]

string_in-page :
    (m : Mem) (root va max pa : ℕ)
    → 0 < max
    → page_of m root va ≡ some pa
    → string_in m root va max
      ≡ unless_nul
          (until_nul m.bytes (pa + (va - pg_round_down va)) (chunk va max))
          (string_in m root (pg_round_down va + pgsize) (max - chunk va max))
string_in-page m root va max pa h e =
    let (some_byte, fits, same) = chunk_bounds va max h in
    let offset : va - pg_round_down va ≡ va % 4096 = omega arith in
    ap (string_in m root va) (let z : max ≡ chunk va max + (max - chunk va max) = omega arith in z)
    ∙ string_in-chunk (chunk va max) m root va (max - chunk va max) pa
        (pa + (va - pg_round_down va)) (λ lt. e) (λ lt. ap (λ x. pa + x) offset) same
    ∙ ap (unless_nul (until_nul m.bytes (pa + (va - pg_round_down va)) (chunk va max)))
        (string_in-next m root va max)

copyinstr_from-string_in :
    (f : ℕ) (m : Mem) (root va max : ℕ)
    → max ≤ f
    → copyinstr_from f m root va max ≡ string_in m root va max
unfolding copyinstr_from string_in
copyinstr_from-string_in zero m root va zero h = refl
copyinstr_from-string_in (suc f) m root va zero h = refl
copyinstr_from-string_in zero m root va (suc max) h = absurd (omega arith)
copyinstr_from-string_in (suc f) m root va (suc max) h = elim (Option-cases (page_of m root va)) [
  | inl e ↦ copyinstr_from-stop f m root va (suc max) e ∙ sym (string_in-stop m root va (suc max) e)
  | inr (pa, e) ↦
      copyinstr_from-go f m root va (suc max) pa (omega arith) e
      ∙ ap (unless_nul (until_nul m.bytes (pa + (va - pg_round_down va)) (chunk va (suc max)))) (
          copyinstr_from-string_in f m root (pg_round_down va + pgsize)
            (suc max - chunk va (suc max))
            (let (some_byte, fits, same) = chunk_bounds va (suc max) (omega arith) in omega arith))
      ∙ sym (string_in-page m root va (suc max) pa (omega arith) e)
]

-- `copyinstr` delivers the bytes up to the first NUL that a copy byte by byte delivers, and fails
-- just where one of their addresses has no page or none of the first `max` bytes is a NUL.
pub copyinstr-string_in :
    (m : Mem) (root srcva max : ℕ) → copyinstr m root srcva max ≡ string_in m root srcva max
unfolding copyinstr
copyinstr-string_in m root srcva max = copyinstr_from-string_in max m root srcva max (omega arith)

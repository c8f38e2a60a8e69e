-- ===== src/Vm/Copy/In.antt =====
-- `copyin` delivers the bytes that a copy byte by byte delivers.
use mathlib.Core.List.{append_assoc}
use os_assignment.Prelude.{
  ℕ, zero, suc, ◌+◌, ◌-◌, ◌*◌, ◌/◌, ◌%◌, ◌≤◌, ◌<◌, ◌≡◌, refl, sym, ap, ◌∙◌, inl, inr, Option, none,
  some, List, [], ◌∷◌, ◌++◌, arith, ltb, ◌==◌, if◌then◌else◌, Bool-cases, Option-cases,
}
use os_assignment.Kalloc.{pgsize}
use os_assignment.Vm.{pg_round_down, Mem, walkaddr}
use os_assignment.Vm.Copy.Bytes.{
  page_of, read_at, chunk, prepend, copyin_from, copyin, address, bytes_in,
}

pub page_of-same :
    (m : Mem) (root va va' : ℕ) → va / 4096 ≡ va' / 4096 → page_of m root va ≡ page_of m root va'
unfolding page_of
page_of-same m root va va' e =
    ap (λ p. elim (walkaddr m root p) [ none ↦ none | some pa ↦ if pa == 0 then none else some pa ])
      (ap (λ x. x * 4096) e)

pub address-in :
    (m : Mem) (root va pa : ℕ)
    → page_of m root va ≡ some pa
    → address m root va ≡ some (pa + va % 4096)
unfolding address
address-in m root va pa e = rw (e, address) refl

pub address-out : (m : Mem) (root va : ℕ) → page_of m root va ≡ none → address m root va ≡ none
unfolding address
address-out m root va e = rw (e, address) refl

prepend-prepend :
    (xs ys : List ℕ) (o : Option (List ℕ)) → prepend xs (prepend ys o) ≡ prepend (xs ++ ys) o
prepend-prepend xs ys none = refl
prepend-prepend xs ys (some zs) = ap some (sym (append_assoc xs ys zs))

prepend-nil : (o : Option (List ℕ)) → prepend [] o ≡ o
prepend-nil none = refl
prepend-nil (some xs) = refl

bytes_in-one :
    (m : Mem) (root va n p : ℕ)
    → address m root va ≡ some p
    → bytes_in m root va (suc n) ≡ prepend (m.bytes p ∷ []) (bytes_in m root (va + 1) n)
unfolding bytes_in
bytes_in-one m root va n p e = rw (e, bytes_in) refl

-- The bytes of a page are read together.
bytes_in-chunk :
    (k : ℕ) (m : Mem) (root va n pa : ℕ)
    → page_of m root va ≡ some pa
    → va % 4096 + k ≤ 4096
    → bytes_in m root va (k + n)
      ≡ prepend (read_at m.bytes (pa + va % 4096) k) (bytes_in m root (va + k) n)
unfolding read_at
bytes_in-chunk zero m root va n pa e h =
    ap (bytes_in m root va) (omega arith)
    ∙ sym (prepend-nil _ ∙ ap (λ a. bytes_in m root a n) (omega arith))
bytes_in-chunk (suc zero) m root va n pa e h =
    ap (bytes_in m root va) (omega arith)
    ∙ bytes_in-one m root va n (pa + va % 4096) (address-in m root va pa e)
bytes_in-chunk (suc (suc k)) m root va n pa e h =
    ap (bytes_in m root va) (let eq : suc (suc k) + n ≡ suc (suc k + n) = omega arith in eq)
    ∙ bytes_in-one m root va (suc k + n) (pa + va % 4096) (address-in m root va pa e)
    ∙ ap (prepend (m.bytes (pa + va % 4096) ∷ [])) (
        bytes_in-chunk (suc k) m root (va + 1) n pa
          (page_of-same m root (va + 1) va (omega arith) ∙ e) (omega arith)
        ∙ ap (λ a. prepend (read_at m.bytes a (suc k)) (bytes_in m root (va + 1 + suc k) n))
            (omega arith)
        ∙ ap (λ a. prepend (read_at m.bytes (pa + va % 4096 + 1) (suc k)) (bytes_in m root a n))
            (omega arith))
    ∙ prepend-prepend (m.bytes (pa + va % 4096) ∷ []) (read_at m.bytes (pa + va % 4096 + 1) (suc k))
        (bytes_in m root (va + suc (suc k)) n)

copyin_from-zero :
    (f : ℕ) (m : Mem) (root va : ℕ) → copyin_from f m root va 0 ≡ bytes_in m root va 0
unfolding copyin_from bytes_in
copyin_from-zero zero m root va = refl
copyin_from-zero (suc f) m root va = refl

copyin_from-stop :
    (f : ℕ) (m : Mem) (root va len : ℕ)
    → 0 < len
    → page_of m root va ≡ none
    → copyin_from (suc f) m root va len ≡ none
unfolding copyin_from
copyin_from-stop f m root va len h e = ground (arith, e)

copyin_from-go :
    (f : ℕ) (m : Mem) (root va len pa : ℕ)
    → 0 < len
    → page_of m root va ≡ some pa
    → copyin_from (suc f) m root va len
      ≡ prepend
          (read_at m.bytes (pa + (va - pg_round_down va)) (chunk va len))
          (copyin_from f m root (pg_round_down va + pgsize) (len - chunk va len))
unfolding copyin_from
copyin_from-go f m root va len pa h e = ground (arith, e)

bytes_in-stop :
    (m : Mem) (root va len : ℕ) → 0 < len → page_of m root va ≡ none → bytes_in m root va len ≡ none
unfolding bytes_in
bytes_in-stop m root va zero h e = absurd (omega arith)
bytes_in-stop m root va (suc len) h e = rw (address-out m root va e, bytes_in) refl

-- After a chunk the next byte is the first of the next page, if any is left.
bytes_in-next :
    (m : Mem) (root va len : ℕ)
    → bytes_in m root (va + chunk va len) (len - chunk va len)
      ≡ bytes_in m root (pg_round_down va + pgsize) (len - chunk va len)
unfolding bytes_in
bytes_in-next m root va len = elim (Bool-cases (ltb len (pgsize - (va - pg_round_down va)))) [
  | inl last ↦ rw last (let z : len - len ≡ 0 = omega arith in rw z refl)
  | inr full ↦
      rw full (ap (λ a. bytes_in m root a (len - (pgsize - (va - pg_round_down va)))) (omega arith))
]

pub chunk_bounds :
    (va len : ℕ)
    → 0 < len
    → (0 < chunk va len) × (chunk va len ≤ len) × (va % 4096 + chunk va len ≤ 4096)
chunk_bounds va len h = ground arith

bytes_in-page :
    (m : Mem) (root va len pa : ℕ)
    → 0 < len
    → page_of m root va ≡ some pa
    → bytes_in m root va len
      ≡ prepend
          (read_at m.bytes (pa + (va - pg_round_down va)) (chunk va len))
          (bytes_in m root (pg_round_down va + pgsize) (len - chunk va len))
bytes_in-page m root va len pa h e =
    let (some_byte, fits, same) = chunk_bounds va len h in
    ap (bytes_in m root va) (omega arith)
    ∙ bytes_in-chunk (chunk va len) m root va (len - chunk va len) pa e same
    ∙ ap (prepend (read_at m.bytes (pa + va % 4096) (chunk va len))) (bytes_in-next m root va len)
    ∙ ap
        (λ a.
          prepend (read_at m.bytes (pa + a) (chunk va len))
            (bytes_in m root (pg_round_down va + pgsize) (len - chunk va len)))
        (omega arith)

copyin_from-bytes_in :
    (f : ℕ) (m : Mem) (root va len : ℕ)
    → len ≤ f
    → copyin_from f m root va len ≡ bytes_in m root va len
copyin_from-bytes_in f m root va zero h = copyin_from-zero f m root va
copyin_from-bytes_in zero m root va (suc len) h = absurd (omega arith)
copyin_from-bytes_in (suc f) m root va (suc len) h = elim (Option-cases (page_of m root va)) [
  | inl e ↦
      copyin_from-stop f m root va (suc len) (omega arith) e
      ∙ sym (bytes_in-stop m root va (suc len) (omega arith) e)
  | inr (pa, e) ↦
      copyin_from-go f m root va (suc len) pa (omega arith) e
      ∙ ap (prepend (read_at m.bytes (pa + (va - pg_round_down va)) (chunk va (suc len)))) (
          copyin_from-bytes_in f m root (pg_round_down va + pgsize) (suc len - chunk va (suc len))
            (let (some_byte, fits, same) = chunk_bounds va (suc len) (omega arith) in omega arith))
      ∙ sym (bytes_in-page m root va (suc len) pa (omega arith) e)
]

-- `copyin` delivers the bytes that a copy byte by byte delivers, and fails just where one of the
-- addresses has no page.
pub copyin-bytes_in :
    (m : Mem) (root srcva len : ℕ) → copyin m root srcva len ≡ bytes_in m root srcva len
unfolding copyin
copyin-bytes_in m root srcva len = copyin_from-bytes_in len m root srcva len (omega arith)

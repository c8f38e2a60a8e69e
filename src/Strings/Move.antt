-- ===== src/Strings/Move.antt =====
-- `memset` and the two `memmove`s: what they leave at every address.
use mathlib.Core.Path.{subst}
use os_assignment.Prelude.{
  ℕ, zero, suc, ◌+◌, ◌-◌, ◌%◌, ◌≤◌, ◌≡◌, ◌⊎◌, arith, ltb, leb, ◌&&◌, if◌then◌else◌, update, dec_lt,
  ℕ_discrete, ◌∙◌, sym,
}
use os_assignment.Strings.{Memory, set_from, memset, copy_up, copy_down, memmove, user_memmove}

-- The memory `m` with the `n` bytes from `src` on copied to `dst`, read at `k`.
abbrev pub moved : Memory → ℕ → ℕ → ℕ → ℕ → ℕ
moved m dst src n k = if leb dst k && ltb k (dst + n) then m (src + (k - dst)) else m k

moved-up :
    (n : ℕ) (m : Memory) (d s k : ℕ)
    → (d ≤ s) ⊎ (s + suc n ≤ d)
    → moved (update m d (m s)) (d + 1) (s + 1) n k ≡ moved m d s (suc n) k
moved-up n m d s k h = elim (dec_lt k d) [
  | yes below ↦ ground arith
  | no above ↦ elim (ℕ_discrete k d) [
    | yes same ↦ let e : s + (k - d) ≡ s = omega arith in rw e (ground arith)
    | no ne ↦ let e : s + 1 + (k - (d + 1)) ≡ s + (k - d) = omega arith in rw e (ground arith)
  ]
]

moved-down :
    (n : ℕ) (m : Memory) (d s k : ℕ)
    → s ≤ d
    → moved (update m (d + n) (m (s + n))) d s n k ≡ moved m d s (suc n) k
moved-down n m d s k h = elim (ℕ_discrete k (d + n)) [
  | yes same ↦ let e : s + (k - d) ≡ s + n = omega arith in rw e (ground arith)
  | no ne ↦ ground arith
]

copy_up_lem :
    (n : ℕ) (m : Memory) (d s k : ℕ) → (d ≤ s) ⊎ (s + n ≤ d) → copy_up n m d s k ≡ moved m d s n k
unfolding copy_up
copy_up_lem zero m d s k h = ground arith
copy_up_lem (suc n) m d s k h =
    copy_up_lem n (update m d (m s)) (d + 1) (s + 1) k (ground arith) ∙ moved-up n m d s k h

copy_down_lem :
    (n : ℕ) (m : Memory) (d s k : ℕ) → s ≤ d → copy_down n m (d + n) (s + n) k ≡ moved m d s n k
unfolding copy_down
copy_down_lem zero m d s k h = ground arith
copy_down_lem (suc n) m d s k h =
    let ed : d + suc n - 1 ≡ d + n = omega arith in
    let es : s + suc n - 1 ≡ s + n = omega arith in
    rw (ed, es) (copy_down_lem n (update m (d + n) (m (s + n))) d s k h ∙ moved-down n m d s k h)

-- kernel/string.c: `memmove` copies the bytes that the source held before, also where the ranges
-- overlap, and changes no other byte.
pub memmove_lem : (m : Memory) (dst src n k : ℕ) → memmove m dst src n k ≡ moved m dst src n k
unfolding memmove
memmove_lem m dst src n k = ground (arith, copy_up_lem n m dst src k, copy_down_lem n m dst src k)

-- user/ulib.c: its `memmove` copies the bytes that the source held before, also where the ranges
-- overlap, and leaves the same memory as the one of kernel/string.c.
pub user_memmove_lem :
    (m : Memory) (dst src n k : ℕ)
    → (user_memmove m dst src n k ≡ moved m dst src n k)
      × (user_memmove m dst src n k ≡ memmove m dst src n k)
unfolding user_memmove
user_memmove_lem m dst src n k =
    let e : user_memmove m dst src n k ≡ moved m dst src n k =
      ground (arith, copy_up_lem n m dst src k, copy_down_lem n m dst src k) in
    (e, e ∙ sym (memmove_lem m dst src n k))

set_from_lem :
    (n i : ℕ) (m : Memory) (dst c k : ℕ)
    → set_from n i m dst c k ≡ (if leb (dst + i) k && ltb k (dst + i + n) then c % 256 else m k)
unfolding set_from
set_from_lem zero i m dst c k = ground arith
set_from_lem (suc n) i m dst c k =
    ground (arith, set_from_lem n (i + 1) (update m (dst + i) (c % 256)) dst c k)

-- `memset` writes its value, cut to a byte, at the `n` addresses from `dst` on and nowhere else.
pub memset_lem :
    (m : Memory) (dst c n k : ℕ)
    → memset m dst c n k ≡ (if leb dst k && ltb k (dst + n) then c % 256 else m k)
unfolding memset
memset_lem m dst c n k =
    let e : dst + 0 ≡ dst = omega arith in
    subst (λ d. memset m dst c n k ≡ (if leb d k && ltb k (d + n) then c % 256 else m k)) e
      (set_from_lem n 0 m dst c k)

-- ===== src/Strings/Copy.antt =====
-- `safestrcpy` and `strncpy`.
use os_assignment.Prelude.{
  ℕ, zero, suc, ◌+◌, ◌≤◌, ◌<◌, ◌≡◌, ◌⊎◌, inl, inr, refl, arith, ◌==◌, if◌then◌else◌, update,
  Bool-cases, ℕ_discrete,
}
use os_assignment.Strings.{Memory, fill_zero, strncpy, safe_loop, safestrcpy}

safe_loop-before : (n : ℕ) (m : Memory) (s t k : ℕ) → k < s → safe_loop n m s t k ≡ m k
unfolding safe_loop
safe_loop-before zero m s t k h = ground arith
safe_loop-before (suc n) m s t k h =
    ground (arith, safe_loop-before n (update m s (m t)) (s + 1) (t + 1) k)

safe_loop-after : (n : ℕ) (m : Memory) (s t k : ℕ) → s + n < k → safe_loop n m s t k ≡ m k
unfolding safe_loop
safe_loop-after zero m s t k h = ground arith
safe_loop-after (suc n) m s t k h =
    ground (arith, safe_loop-after n (update m s (m t)) (s + 1) (t + 1) k)

safe_loop-nul : (n : ℕ) (m : Memory) (s t : ℕ) → (k : ℕ) × (k ≤ n) × (safe_loop n m s t (s + k) ≡ 0)
unfolding safe_loop
safe_loop-nul zero m s t = (0, omega arith, ground arith)
safe_loop-nul (suc n) m s t = elim (ℕ_discrete (m t) 0) [
  | yes z ↦ (0, omega arith, ground arith)
  | no nz ↦
      let (k, le, e) = safe_loop-nul n (update m s (m t)) (s + 1) (t + 1) in
      let e' : s + 1 + k ≡ s + (k + 1) = omega arith in (k + 1, omega arith, ground arith)
]

-- `safestrcpy` into `n > 0` bytes leaves a NUL among them and writes no byte outside of them.
pub safestrcpy_lem :
    (m : Memory) (s t n : ℕ)
    → 0 < n
    → ((k : ℕ) × (k < n) × (safestrcpy m s t n (s + k) ≡ 0))
      × ((k : ℕ) → (k < s) ⊎ (s + n ≤ k) → safestrcpy m s t n k ≡ m k)
unfolding safestrcpy
safestrcpy_lem m s t zero h = absurd (omega arith)
safestrcpy_lem m s t (suc n) h =
    ((let (k, le, e) = safe_loop-nul n m s t in (k, omega arith, e)), outside)
  where
    outside : (k : ℕ) → (k < s) ⊎ (s + suc n ≤ k) → safe_loop n m s t k ≡ m k
    outside k (inl lo) = safe_loop-before n m s t k lo
    outside k (inr hi) = safe_loop-after n m s t k (omega arith)

fill_zero_lem :
    (n : ℕ) (m : Memory) (s k : ℕ)
    → ((k < s) ⊎ (s + n ≤ k) → fill_zero n m s k ≡ m k)
      × (s ≤ k → k < s + n → fill_zero n m s k ≡ 0)
unfolding fill_zero
fill_zero_lem zero m s k = (λ h. refl, λ a b. absurd (omega arith))
fill_zero_lem (suc n) m s k =
    let ih : ((k < s + 1) ⊎ (s + 1 + n ≤ k) → fill_zero n (update m s 0) (s + 1) k ≡ update m s 0 k)
        × (s + 1 ≤ k → k < s + 1 + n → fill_zero n (update m s 0) (s + 1) k ≡ 0) =
      fill_zero_lem n (update m s 0) (s + 1) k in
    (λ h. ground arith, λ a b. ground arith)

-- The bytes that `strncpy` writes: the string, then zeros.
abbrev pub padded : Memory → ℕ → ℕ → ℕ
padded m t zero = m t
padded m t (suc k) = if m t == 0 then 0 else padded m (t + 1) k

padded-update :
    (m : Memory) (s v t k : ℕ) → (s < t) ⊎ (t + k < s) → padded (update m s v) t k ≡ padded m t k
padded-update m s v t zero h = ground arith
padded-update m s v t (suc k) h = ground (arith, padded-update m s v (t + 1) k)

-- One round of the first loop, read at an address.
strncpy-suc :
    (n : ℕ) (m : Memory) (s t k : ℕ)
    → strncpy m s t (suc n) k ≡ (
        if m t == 0
        then fill_zero n (update m s (m t)) (s + 1) k
        else strncpy (update m s (m t)) (s + 1) (t + 1) n k)
unfolding strncpy
strncpy-suc n m s t k = elim (Bool-cases (m t == 0)) [ inl z ↦ rw z | inr nz ↦ rw nz ]

strncpy-zero : (m : Memory) (s t k : ℕ) → strncpy m s t 0 k ≡ m k
unfolding strncpy
strncpy-zero m s t k = refl

strncpy-before : (n : ℕ) (m : Memory) (s t k : ℕ) → k < s → strncpy m s t n k ≡ m k
strncpy-before zero m s t k h = strncpy-zero m s t k
strncpy-before (suc n) m s t k h = ground (
  arith,
  strncpy-suc n m s t k,
  strncpy-before n (update m s (m t)) (s + 1) (t + 1) k,
  (fill_zero_lem n (update m s (m t)) (s + 1) k).0,
)

-- `strncpy` between ranges that do not overlap writes the string and pads it with zeros; a string
-- of `n` bytes or more leaves no NUL.
pub strncpy_lem :
    (n : ℕ) (m : Memory) (s t k : ℕ)
    → (s + n ≤ t) ⊎ (t + n ≤ s)
    → k < n
    → strncpy m s t n (s + k) ≡ padded m t k
strncpy_lem zero m s t k h lt = absurd (omega arith)
strncpy_lem (suc n) m s t zero h lt =
    let e : s + 0 ≡ s = omega arith in
    rw e (
      ground (
        arith,
        strncpy-suc n m s t s,
        strncpy-before n (update m s (m t)) (s + 1) (t + 1) s,
        (fill_zero_lem n (update m s (m t)) (s + 1) s).0,
      ))
strncpy_lem (suc n) m s t (suc k) h lt =
    let e : s + suc k ≡ s + 1 + k = omega arith in
    rw e (
      ground (
        arith,
        strncpy-suc n m s t (s + 1 + k),
        strncpy_lem n (update m s (m t)) (s + 1) (t + 1) k,
        padded-update m s (m t) (t + 1) k,
        (fill_zero_lem n (update m s (m t)) (s + 1) (s + 1 + k)).1,
      ))

-- ===== src/Strings/Compare.antt =====
-- The comparisons: which results mean equality.
use os_assignment.Prelude.{ℕ, zero, suc, ◌+◌, ◌≡◌, ◌≢◌, ◌↔◌, refl, arith, ℕ_discrete}
use os_assignment.Prelude.Int.{pos}
use os_assignment.Strings.{Memory, memcmp, strncmp}

-- The same `n` bytes at both addresses.
abbrev pub SameBytes : Memory → ℕ → ℕ → ℕ → Type 0
SameBytes m p q zero = Unit
SameBytes m p q (suc n) = (m p ≡ m q) × SameBytes m (p + 1) (q + 1) n

-- The same string at both addresses, as far as `n` bytes.
abbrev pub SameString : Memory → ℕ → ℕ → ℕ → Type 0
SameString m p q zero = Unit
SameString m p q (suc n) = (m p ≡ m q) × (m p ≢ 0 → SameString m (p + 1) (q + 1) n)

-- `memcmp` returns 0 just when the two ranges hold the same bytes.
pub memcmp-eq-zero : (m : Memory) (v1 v2 n : ℕ) → (memcmp m v1 v2 n ≡ pos 0) ↔ SameBytes m v1 v2 n
unfolding memcmp
memcmp-eq-zero m v1 v2 zero = (λ _. tt, λ _. refl)
memcmp-eq-zero m v1 v2 (suc n) =
    let ih : (memcmp m (v1 + 1) (v2 + 1) n ≡ pos 0) ↔ SameBytes m (v1 + 1) (v2 + 1) n =
      memcmp-eq-zero m (v1 + 1) (v2 + 1) n in
    elim (ℕ_discrete (m v1) (m v2)) [
      | yes e ↦ (λ h. (e, ih.0 (ground arith)), λ h. ground (arith, ih.1 h.1))
      | no ne ↦ (λ h. absurd (ground arith), λ h. absurd (ne h.0))
    ]

-- `strncmp` returns 0 just when the two strings agree up to their first NUL or `n` bytes.
pub strncmp-eq-zero : (m : Memory) (p q n : ℕ) → (strncmp m p q n ≡ pos 0) ↔ SameString m p q n
unfolding strncmp
strncmp-eq-zero m p q zero = (λ _. tt, λ _. refl)
strncmp-eq-zero m p q (suc n) =
    let ih : (strncmp m (p + 1) (q + 1) n ≡ pos 0) ↔ SameString m (p + 1) (q + 1) n =
      strncmp-eq-zero m (p + 1) (q + 1) n in
    elim (ℕ_discrete (m p) (m q)) [
      | yes e ↦ elim (ℕ_discrete (m p) 0) [
        | yes z ↦ (λ h. (e, λ nz. absurd (nz z)), λ h. ground arith)
        | no nz ↦ (λ h. (e, λ _. ih.0 (ground arith)), λ h. ground (arith, ih.1 (h.1 nz)))
      ]
      | no ne ↦ (λ h. absurd (ground arith), λ h. absurd (ne h.0))
    ]

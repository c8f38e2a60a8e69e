-- ===== src/Strings/Scan.antt =====
-- `strlen`, `strchr` and `atoi`: where the scan of a string stops.
use os_assignment.Prelude.{
  ℕ, zero, suc, ◌+◌, ◌-◌, ◌*◌, ◌<◌, ◌≡◌, ◌≢◌, false, arith, some, List, [], ◌∷◌, length, ◌∙◌, ap,
}
use os_assignment.Strings.{Memory, strlen_from, strlen, is_digit, atoi_from, atoi}

strlen_from_lem :
    (f : ℕ) (m : Memory) (s i n : ℕ)
    → n < f
    → m (s + (i + n)) ≡ 0
    → ((k : ℕ) → k < n → m (s + (i + k)) ≢ 0)
    → strlen_from f m s i ≡ some (i + n)
unfolding strlen_from
strlen_from_lem zero m s i n h z nz = absurd (omega arith)
strlen_from_lem (suc f) m s i zero h z nz =
    let e : i + 0 ≡ i = omega arith in rw e (ground (arith, ap (λ x. m (s + x)) e))
strlen_from_lem (suc f) m s i (suc n) h z nz =
    let e : i + suc n ≡ i + 1 + n = omega arith in
    let e0 : i + 0 ≡ i = omega arith in
    let here : m (s + i) ≢ 0 = λ q. nz 0 (omega arith) (ap (λ x. m (s + x)) e0 ∙ q) in
    rw e (
      ground (
        arith,
        here,
        strlen_from_lem f m s (i + 1) n (omega arith) (ap (λ x. m (s + x)) (omega arith) ∙ z)
            (λ k lt q. nz (suc k) (omega arith) (ap (λ x. m (s + x)) (omega arith) ∙ q)),
      ))

-- `strlen` returns the number of the bytes before the first NUL, when the fuel is above it.
pub strlen_lem :
    (f : ℕ) (m : Memory) (s n : ℕ)
    → n < f
    → m (s + n) ≡ 0
    → ((k : ℕ) → k < n → m (s + k) ≢ 0)
    → strlen f m s ≡ some n
unfolding strlen
strlen_lem f m s n h z nz =
    strlen_from_lem f m s 0 n h (ap (λ x. m (s + x)) (omega arith) ∙ z)
      (λ k lt q. nz k lt (ap (λ x. m (s + x)) (omega arith) ∙ q))
    ∙ ap some (omega arith)

-- The decimal digits at an address, most significant first, before a byte that is no digit.
abbrev pub Digits : Memory → ℕ → List ℕ → Type 0
Digits m s [] = is_digit (m s) ≡ false
Digits m s (d ∷ ds) = (m s ≡ b'0' + d) × (d < 10) × Digits m (s + 1) ds

-- The number that digits stand for, behind those read already.
abbrev pub value : ℕ → List ℕ → ℕ
value n [] = n
value n (d ∷ ds) = value (n * 10 + d) ds

atoi_from_lem :
    (f : ℕ) (m : Memory) (s n : ℕ) (ds : List ℕ)
    → length ds < f
    → Digits m s ds
    → atoi_from f m s n ≡ some (value n ds)
unfolding atoi_from
atoi_from_lem zero m s n ds h q = absurd (omega arith)
atoi_from_lem (suc f) m s n [] h q = ground arith
atoi_from_lem (suc f) m s n (d ∷ ds) h (e, lt, q) =
    let step : n * 10 + m s - b'0' ≡ n * 10 + d = omega arith in
    ground (arith, step, atoi_from_lem f m (s + 1) (n * 10 + d) ds)

-- `atoi` reads the number of the digits at its address, up to the first byte that is no digit, when
-- the fuel is above their count.
pub atoi_lem :
    (f : ℕ) (m : Memory) (s : ℕ) (ds : List ℕ)
    → length ds < f
    → Digits m s ds
    → atoi f m s ≡ some (value 0 ds)
unfolding atoi
atoi_lem f m s ds h q = atoi_from_lem f m s 0 ds h q

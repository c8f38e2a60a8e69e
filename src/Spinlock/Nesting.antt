-- ===== src/Spinlock/Nesting.antt =====
-- `push_off` and `pop_off` are matched: interrupts come back with the last `pop_off`, if they were
-- on before the first `push_off`.
use os_assignment.Prelude.{
  ℕ, zero, suc, ◌+◌, ◌<◌, ◌≡◌, Bool, false, refl, ap, ◌∙◌, Option, none, some, arith,
}
use os_assignment.Spinlock.{Cpu, push_off, pop_off}

unfoldable pub push_times : ℕ → Cpu → Cpu
push_times zero c = c
push_times (suc n) c = push_times n (push_off c)

unfoldable pub pop_times : ℕ → Cpu → Option Cpu
pop_times zero c = some c
pop_times (suc n) c = elim (pop_off c) [ none ↦ none | some c' ↦ pop_times n c' ]

-- The CPU inside of `n` calls, the outermost of which found the interrupt-enable bit `b`.
abbrev nested : ℕ → Bool → Cpu
nested n b = record { noff = n; intena = b; intr = false }

push_nested : (n : ℕ) (b : Bool) → 0 < n → push_off (nested n b) ≡ nested (n + 1) b
unfolding push_off
push_nested n b h = ground arith

push_times-nested : (k n : ℕ) (b : Bool) → 0 < n → push_times k (nested n b) ≡ nested (n + k) b
unfolding push_times
push_times-nested zero n b h = ap (λ m. nested m b) (omega arith)
push_times-nested (suc k) n b h =
    ap (push_times k) (push_nested n b h)
    ∙ push_times-nested k (n + 1) b (omega arith)
    ∙ ap (λ m. nested m b) (omega arith)

pop_nested : (n : ℕ) (b : Bool) → 0 < n → pop_off (nested (suc n) b) ≡ some (nested n b)
unfolding pop_off
pop_nested n b h = ground arith

pop_last : (b : Bool) → pop_off (nested 1 b) ≡ some (record { noff = 0; intena = b; intr = b })
unfolding pop_off
pop_last b = refl

abbrev pop_then : ℕ → Option Cpu → Option Cpu
pop_then n o = elim o [ none ↦ none | some c' ↦ pop_times n c' ]

pop_times-nested :
    (k : ℕ) (b : Bool)
    → pop_times (suc k) (nested (suc k) b) ≡ some (record { noff = 0; intena = b; intr = b })
unfolding pop_times
pop_times-nested zero b = ap (pop_then zero) (pop_last b)
pop_times-nested (suc k) b =
    ap (pop_then (suc k)) (pop_nested (suc k) b (omega arith)) ∙ pop_times-nested k b

push_first : (c : Cpu) → c.noff ≡ 0 → push_off c ≡ nested 1 c.intr
unfolding push_off
push_first c h = ground arith

-- Outside of any `push_off`: as many calls of `pop_off` as of `push_off` do not panic and leave the
-- CPU outside, with the interrupt-enable bit it had; in between the bit is off.
pub push_pop_times :
    (n : ℕ) (c : Cpu)
    → c.noff ≡ 0
    → ((push_times (suc n) c).intr ≡ false)
      × (pop_times (suc n) (push_times (suc n) c)
          ≡ some (record { noff = 0; intena = c.intr; intr = c.intr }))
unfolding push_times
push_pop_times n c h =
    let e : push_times (suc n) c ≡ nested (suc n) c.intr =
      ap (push_times n) (push_first c h)
      ∙ push_times-nested n 1 c.intr (omega arith)
      ∙ ap (λ m. nested m c.intr) (omega arith) in
    (ap (λ x. x.intr) e, ap (pop_times (suc n)) e ∙ pop_times-nested n c.intr)

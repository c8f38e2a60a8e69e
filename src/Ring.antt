-- ===== src/Ring.antt =====
-- Buffers that free-running counters index modulo their size, as in kernel/pipe.c, kernel/uart.c
-- and kernel/console.c: the bytes between two counters, oldest first.
use mathlib.Core.Path.{ap₂}
use native.Mathlib.Nat.{mod-add-mod, mod-eq_of_lt, mod-eq-sub-mod}
use os_assignment.Prelude.{
  ℕ, zero, suc, ◌+◌, ◌-◌, ◌%◌, ◌≤◌, ◌<◌, ◌≡◌, ◌≢◌, refl, sym, ap, ◌∙◌, List, [], ◌∷◌, ◌++◌, arith,
  update, dec_lt, update-eq, update-ne, length,
}

-- The `n` bytes from counter `r` on.
abbrev pub window : ℕ → (ℕ → ℕ) → ℕ → ℕ → List ℕ
window size buf r zero = []
window size buf r (suc n) = buf (r % size) ∷ window size buf (r + 1) n

pub length-window : (size : ℕ) (buf : ℕ → ℕ) (r n : ℕ) → length (window size buf r n) ≡ n
length-window size buf r zero = refl
length-window size buf r (suc n) = ap suc (length-window size buf (r + 1) n)

-- The window depends on its counter modulo the size only.
pub window-mod :
    (size : ℕ) (buf : ℕ → ℕ) (n r s : ℕ)
    → r % size ≡ s % size
    → window size buf r n ≡ window size buf s n
window-mod size buf zero r s e = refl
window-mod size buf (suc n) r s e = ap₂ ◌∷◌ (ap buf e) (window-mod size buf n (r + 1) (s + 1) next)
  where
    next : (r + 1) % size ≡ (s + 1) % size
    next = sym (mod-add-mod r size 1) ∙ ap (λ x. (x + 1) % size) e ∙ mod-add-mod s size 1

less-ne : {size x k : ℕ} → x < size → 0 < k → k < size → (x + k) % size ≢ x
less-ne {size} {x} {k} hx hk lt = elim (dec_lt (x + k) size) [
  | yes p ↦ omega (arith, mod-eq_of_lt p)
  | no p ↦ omega (
    arith,
    mod-eq-sub-mod {n = x + k} {m = size} (omega arith),
    mod-eq_of_lt {n = x + k - size} {m = size} (omega arith),
  )
]

-- Fewer steps than the size do not come back to a place.
add-mod-ne : (size r k : ℕ) → 0 < k → k < size → (r + k) % size ≢ r % size
add-mod-ne size r k hk lt e = less-ne {x = r % size} (omega arith) hk lt (mod-add-mod r size k ∙ e)

-- A byte written past a window does not change it.
pub window-keep :
    (size : ℕ) (buf : ℕ → ℕ) (c n m r i : ℕ)
    → m < size
    → n ≤ m
    → i ≡ (r + m) % size
    → window size (update buf i c) r n ≡ window size buf r n
window-keep size buf c zero m r i h le e = refl
window-keep size buf c (suc n) m r i h le e =
    ap₂ ◌∷◌ (update-ne buf i (r % size) c (λ q. add-mod-ne size r m (omega arith) h (sym e ∙ q))) (
      window-keep size buf c n (m - 1) (r + 1) i (omega arith) (omega arith)
        (e ∙ ap (λ x. x % size) (omega arith)))

-- A byte written just past a window that is not full extends it.
pub window-push :
    (size : ℕ) (buf : ℕ → ℕ) (c n r i : ℕ)
    → n < size
    → i ≡ (r + n) % size
    → window size (update buf i c) r (suc n) ≡ window size buf r n ++ (c ∷ [])
window-push size buf c zero r i h e =
    ap₂ ◌∷◌ (update-eq buf i (r % size) c (e ∙ ap (λ x. x % size) (omega arith))) refl
window-push size buf c (suc n) r i h e =
    ap₂ ◌∷◌
      (update-ne buf i (r % size) c (λ q. add-mod-ne size r (suc n) (omega arith) h (sym e ∙ q)))
      (window-push size buf c n (r + 1) i (omega arith) (e ∙ ap (λ x. x % size) (omega arith)))

-- The oldest byte of a window that is not empty.
pub window-pop :
    (size : ℕ) (buf : ℕ → ℕ) (n r : ℕ)
    → 0 < n
    → window size buf r n ≡ buf (r % size) ∷ window size buf (r + 1) (n - 1)
window-pop size buf zero r h = absurd (omega arith)
window-pop size buf (suc n) r h = ap (λ k. buf (r % size) ∷ window size buf (r + 1) k) (omega arith)

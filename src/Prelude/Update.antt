-- ===== src/Prelude/Update.antt =====
-- Arrays and memories as functions on the indices, written at one index.
use Prim.Native.Nat.{ℕ, zero, suc, ◌+◌}
use mathlib.Core.Bool.{◌&&◌}
use native.Mathlib.Decide.{ℕ_discrete}
use mathlib.Core.Path.{◌≡◌, fun_ext, subst, ◌∙◌}
use mathlib.Core.Logic.{◌≢◌}
use native.Mathlib.Omega.{arith}
use os_assignment.Prelude.Tests.{◌==◌, if◌then◌else◌, ltb, leb}

module _ {ℓ} {A : Type ℓ} where
  abbrev pub update : (ℕ → A) → ℕ → A → ℕ → A
  update f i a j = if i == j then a else f j

  pub update_self : (f : ℕ → A) (i : ℕ) (a : A) → update f i a i ≡ a
  update_self f i a = ground arith

  pub update-ne : (f : ℕ → A) (i j : ℕ) (a : A) → i ≢ j → update f i a j ≡ f j
  update-ne f i j a h = ground arith

  pub update-eq : (f : ℕ → A) (i j : ℕ) (a : A) → i ≡ j → update f i a j ≡ a
  update-eq f i j a h = ground arith

  pub update-update : (f : ℕ → A) (i : ℕ) (a b : A) → update (update f i a) i b ≡ update f i b
  update-update f i a b = fun_ext λ j. ground arith

  -- `for (j = i; j < i + n; j++) f[j] = g(j, f[j])`.
  pub for_each : ℕ → ℕ → (ℕ → A → A) → (ℕ → A) → ℕ → A
  for_each zero i g f = f
  for_each (suc n) i g f = for_each n (i + 1) g (update f i (g i (f i)))

  pub for_each_lem :
      (n i : ℕ) (g : ℕ → A → A) (f : ℕ → A) (k : ℕ)
      → for_each n i g f k ≡ (if leb i k && ltb k (i + n) then g k (f k) else f k)
  unfolding for_each
  for_each_lem zero i g f k = ground arith
  for_each_lem (suc n) i g f k = elim (ℕ_discrete i k) [
    | yes e ↦
        for_each_lem n (i + 1) g (update f i (g i (f i))) k
        ∙ subst
            (λ x.
              (if leb (i + 1) x && ltb x (i + 1 + n)
                then g x (update f i (g i (f i)) x)
                else update f i (g i (f i)) x)
              ≡ (if leb i x && ltb x (i + suc n) then g x (f x) else f x))
            e (ground arith)
    | no ne ↦
        rw (for_each_lem n (i + 1) g (update f i (g i (f i))) k, update-ne f i k (g i (f i)) ne)
          (ground arith)
  ]

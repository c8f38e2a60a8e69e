-- ===== src/Tournament/Levels.antt =====
-- The arithmetic of the tree: the place of a process at a level, and the index of its lock there.
use native.Mathlib.Nat.{pow-suc, pow-le-pow_right, div-div-eq-div-mul, div-one}
use native.Mathlib.Decide.{dec_lt}
use os_assignment.Prelude.{ℕ, zero, suc, ◌+◌, ◌-◌, ◌/◌, ◌%◌, ◌^◌, ◌≤◌, ◌<◌, ◌≡◌, sym, ap, arith}
use os_assignment.Tournament.{role_at, group_at, array_index}

pub pow2-pos : (k : ℕ) → 0 < 2 ^ k
pow2-pos zero = omega arith
pow2-pos (suc k) = omega (arith, pow-suc 2 k, pow2-pos k)

pub pow2-le : (a b : ℕ) → a ≤ b → 2 ^ a ≤ 2 ^ b
pow2-le a b h = pow-le-pow_right (omega arith) h

-- At its leaf a process is alone.
pub group_at-leaf : (levels i : ℕ) → group_at levels i levels ≡ i
unfolding group_at
group_at-leaf levels i = let e : levels - levels ≡ 0 = omega arith in rw e (div-one i)

-- One level up the places are halved, and the role is the bit that is lost.
pub group_at-up :
    (levels i l : ℕ)
    → l < levels
    → (group_at levels i l ≡ group_at levels i (suc l) / 2)
      × (role_at levels i l ≡ group_at levels i (suc l) % 2)
unfolding group_at role_at
group_at-up levels i l h =
    let e : levels - l ≡ suc (levels - suc l) = omega arith in
    let e' : levels - 1 - l ≡ levels - suc l = omega arith in
    (rw (e, pow-suc, ← div-div-eq-div-mul), rw e')

group_at-lt_from :
    (k levels i l : ℕ) → l + k ≡ levels → i < 2 ^ levels → group_at levels i l < 2 ^ l
group_at-lt_from zero levels i l e lt =
    let e' : l ≡ levels = omega arith in rw (e', group_at-leaf levels i) lt
group_at-lt_from (suc k) levels i l e lt = omega (
  arith,
  group_at-up levels i l (omega arith),
  pow-suc 2 l,
  group_at-lt_from k levels i (suc l) (omega arith) lt,
)

-- There are `2 ^ l` places at level `l`.
pub group_at-lt : (levels i l : ℕ) → l ≤ levels → i < 2 ^ levels → group_at levels i l < 2 ^ l
group_at-lt levels i l h lt = group_at-lt_from (levels - l) levels i l (omega arith) lt

-- For a process below `2 ^ levels` and a level of the tree, the index of its lock is within the
-- array of `2 ^ levels - 1` locks.
pub array_index-lt :
    (levels i l : ℕ) → l < levels → i < 2 ^ levels → array_index levels i l < 2 ^ levels - 1
unfolding array_index
array_index-lt levels i l h lt = omega (
  arith,
  group_at-lt levels i l (omega arith) lt,
  pow-suc 2 l,
  pow2-le (suc l) levels h,
  pow2-pos l,
)

index-ne :
    (levels i j l m : ℕ)
    → l < m
    → m ≤ levels
    → i < 2 ^ levels
    → ¬ (array_index levels i l ≡ array_index levels j m)
unfolding array_index
index-ne levels i j l m h hm hi e =
    omega
      (arith, group_at-lt levels i l (omega arith) hi, pow-suc 2 l, pow2-le (suc l) m h, pow2-pos l)

-- Of at most `2 ^ levels` processes, two use the same lock only at one level, and at one place of it.
pub array_index-injective :
    (levels i j l m : ℕ)
    → l ≤ levels
    → m ≤ levels
    → i < 2 ^ levels
    → j < 2 ^ levels
    → array_index levels i l ≡ array_index levels j m
    → (l ≡ m) × (group_at levels i l ≡ group_at levels j m)
unfolding array_index
array_index-injective levels i j l m hl hm hi hj e = elim (dec_lt l m) [
  | yes p ↦ absurd (index-ne levels i j l m p hm hi e)
  | no p ↦ elim (dec_lt m l) [
    | yes q ↦ absurd (index-ne levels j i m l q hl hj (sym e))
    | no q ↦ let same : l ≡ m = omega arith in (same, places same)
  ]
]
  where
    places : l ≡ m → group_at levels i l ≡ group_at levels j m
    places same =
        let e' : 2 ^ l ≡ 2 ^ m = ap (λ k. 2 ^ k) same in omega (arith, pow2-pos l, pow2-pos m)

-- Who has one place and one role at level `l` has one place at the level below.
pub group_at-child :
    (levels i j l : ℕ)
    → l < levels
    → group_at levels i l ≡ group_at levels j l
    → role_at levels i l ≡ role_at levels j l
    → group_at levels i (suc l) ≡ group_at levels j (suc l)
group_at-child levels i j l h eg er =
    omega (arith, group_at-up levels i l h, group_at-up levels j l h)

pub role_at-lt : (levels i l : ℕ) → role_at levels i l < 2
unfolding role_at
role_at-lt levels i l = omega arith

-- Processes at one place of a level have one lock there.
pub array_index-eq :
    (levels i j l : ℕ)
    → group_at levels i l ≡ group_at levels j l
    → array_index levels i l ≡ array_index levels j l
unfolding array_index
array_index-eq levels i j l e = rw e

-- ===== src/Vm/Tables.antt =====
-- The pages of a page table form a tree: each is reached in one way. `lookup` is the abstract view,
-- from the three indices of an address to a PTE; making a missing page for it changes no entry.
pub mod Grow
pub mod Walk
use mathlib.Core.Path.{subst}
use os_assignment.Prelude.{
  ℕ, zero, suc, ◌+◌, ◌-◌, ◌*◌, ◌/◌, ◌%◌, ◌^◌, ◌≤◌, ◌<◌, ◌≡◌, ◌≢◌, refl, sym, ap, ◌∙◌, ◌⊎◌, inl, inr,
  Bool, true, false, not, ◌&&◌, ◌||◌, Option, none, some, List, [], ◌∷◌, arith, ltb, leb, ◌==◌,
  if◌then◌else◌, Bool-cases, ℕ_discrete, update, update-eq, update-ne, Option-cases,
}
use os_assignment.Kalloc.{pgsize}
use os_assignment.Vm.{
  maxva, px, is_valid, pte2pa, pa2pte, Mem, set_word, zero_page, walk_level, walk_indices,
}

-- Where a page stands in the tree: at the top, below entry `i` of the top, below entry `j` of that.
pub data Place : Type 0 where
  outside : Place
  top : Place
  mid : ℕ → Place
  low : ℕ → ℕ → Place

abbrev pub child : Place → ℕ → Place
child top i = mid i
child (mid i) j = low i j
child (low i j) k = outside
child outside k = outside

abbrev pub IsInner : Place → Type 0
IsInner top = Unit
IsInner (mid i) = Unit
IsInner (low i j) = ⊥
IsInner outside = ⊥

-- A page address that a PTE can hold.
abbrev pub IsPage : ℕ → Type 0
IsPage p = p % 4096 ≡ 0

abbrev pub Absent : ℕ → List ℕ → Type 0
Absent q [] = Unit
Absent q (r ∷ l) = (q ≢ r) × Absent q l

-- The free pages are pages outside of the tree, each listed once.
abbrev pub AllFree : (ℕ → Place) → List ℕ → Type 0
AllFree place [] = Unit
AllFree place (q ∷ l) = IsPage q × (place q ≡ outside) × Absent q l × AllFree place l

pub record IsTable (m : Mem) (root : ℕ) (place : ℕ → Place) : Type 0 where
  pub at_top : place root ≡ top
  pub below :
      (p i : ℕ)
      → IsInner (place p)
      → is_valid (m.words p i) ≡ true
      → place (pte2pa (m.words p i)) ≡ child (place p) i
  pub spare : AllFree place m.free

-- The entry for three indices; 0 where a page is missing.
abbrev pub down : Mem → ℕ → ℕ → Option ℕ
down m p i = if is_valid (m.words p i) then some (pte2pa (m.words p i)) else none

abbrev pub in_low : Mem → Option ℕ → ℕ → ℕ
in_low m none i0 = 0
in_low m (some q) i0 = m.words q i0

abbrev pub in_mid : Mem → Option ℕ → ℕ → ℕ → ℕ
in_mid m none i1 i0 = 0
in_mid m (some p) i1 i0 = in_low m (down m p i1) i0

unfoldable pub lookup : Mem → ℕ → ℕ → ℕ → ℕ → ℕ
lookup m root i2 i1 i0 = in_mid m (down m root i2) i1 i0

-- A missing page that `walk` makes: the first free one, all zeros, under entry `i` of page `p`.
abbrev pub grown : Mem → ℕ → ℕ → ℕ → List ℕ → Mem
grown m p i q rest = record m {
  words = set_word (zero_page m.words q) p i (pa2pte q + 1);
  free = rest;
}

pub set_word-same : (words : ℕ → ℕ → ℕ) (p i w : ℕ) → set_word words p i w p i ≡ w
set_word-same words p i w = ground arith

pub set_word-other :
    (words : ℕ → ℕ → ℕ) (p i p' i' w : ℕ)
    → (p' ≢ p) ⊎ (i' ≢ i)
    → set_word words p i w p' i' ≡ words p' i'
set_word-other words p i p' i' w h = ground arith

pub zeroed : (words : ℕ → ℕ → ℕ) (q k : ℕ) → zero_page words q q k ≡ 0
zeroed words q k = ground arith

pub not_zeroed : (words : ℕ → ℕ → ℕ) (q r k : ℕ) → r ≢ q → zero_page words q r k ≡ words r k
not_zeroed words q r k h = ground arith

pub pair_cases : (a b c d : ℕ) → ((a ≡ b) × (c ≡ d)) ⊎ ((a ≢ b) ⊎ (c ≢ d))
pair_cases a b c d = elim (ℕ_discrete a b) [
  | no ne ↦ inr (inl ne)
  | yes e ↦ elim (ℕ_discrete c d) [ yes e' ↦ inl (e, e') | no ne' ↦ inr (inr ne') ]
]

pub child-inside : (x : Place) (k : ℕ) → IsInner x → child x k ≢ outside
child-inside top k h e = cc
child-inside (mid i) k h e = cc
child-inside (low i j) k h e = h
child-inside outside k h e = h

abbrev pub as_page : ℕ → Option ℕ
as_page w = if is_valid w then some (pte2pa w) else none

pub valid_odd : (q : ℕ) → is_valid (pa2pte q + 1) ≡ true
valid_odd q = ground arith

pub down-some :
    (m : Mem) (r k x : ℕ)
    → down m r k ≡ some x
    → (is_valid (m.words r k) ≡ true) × (x ≡ pte2pa (m.words r k))
down-some m r k x e = ground arith

pub AllFree-update :
    (place : ℕ → Place) (q : ℕ) (x : Place) (l : List ℕ)
    → Absent q l
    → AllFree place l
    → AllFree (update place q x) l
AllFree-update place q x [] a f = tt
AllFree-update place q x (r ∷ l) (ne, a) (page, out, abs, f) =
    (page, update-ne place q r x ne ∙ out, abs, AllFree-update place q x l a f)

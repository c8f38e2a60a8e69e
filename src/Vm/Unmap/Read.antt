-- ===== src/Vm/Unmap/Read.antt =====
-- What `walk` finds when it makes no page, and `walkaddr` of kernel/vm.c.
use os_assignment.Prelude.{
  ℕ, ◌<◌, ◌≡◌, refl, sym, ap, ◌∙◌, inl, inr, false, Option, none, some, arith, leb, if◌then◌else◌,
  Bool-cases,
}
use os_assignment.Vm.{maxva, px, is_valid, user_pa, Mem, walk_level, walk_indices, walk, walkaddr}
use os_assignment.Vm.Tables.{down, in_low, in_mid, lookup}
use os_assignment.Vm.Map.Write.{entry}

walk_level-read : (m : Mem) (p i : ℕ) → walk_level m p i false ≡ (m, down m p i)
unfolding walk_level
walk_level-read m p i = elim (Bool-cases (is_valid (m.words p i))) [
  | inl v ↦ rw v refl
  | inr v ↦ rw v refl
]

-- The place that `walk` finds, if no page is missing.
abbrev in_table : Option ℕ → ℕ → Option (ℕ × ℕ)
in_table none i0 = none
in_table (some q) i0 = some (q, i0)

abbrev pub in_tables : Mem → Option ℕ → ℕ → ℕ → Option (ℕ × ℕ)
in_tables m none i1 i0 = none
in_tables m (some p) i1 i0 = in_table (down m p i1) i0

walk_indices-read :
    (m : Mem) (root i2 i1 i0 : ℕ)
    → walk_indices m root i2 i1 i0 false ≡ (m, in_tables m (down m root i2) i1 i0)
unfolding walk_indices
walk_indices-read m root i2 i1 i0 = ground arith

pub walk-read :
    (m : Mem) (root va : ℕ)
    → va < maxva
    → walk m root va false ≡ some (m, in_tables m (down m root (px 2 va)) (px 1 va) (px 0 va))
unfolding walk
walk-read m root va h =
    let low : leb maxva va ≡ false = ground arith in
    rw (low) (ap some (walk_indices-read m root (px 2 va) (px 1 va) (px 0 va)))

-- What the place says of the entry.
abbrev pub Reads : Mem → ℕ → ℕ → ℕ → ℕ → Option (ℕ × ℕ) → Type 0
Reads m root i2 i1 i0 none = lookup m root i2 i1 i0 ≡ 0
Reads m root i2 i1 i0 (some (q, k)) =
    (k ≡ i0)
    × ((x : ℕ) × (down m root i2 ≡ some x) × (down m x i1 ≡ some q))
    × (lookup m root i2 i1 i0 ≡ m.words q k)

pub in_tables-Reads :
    (m : Mem) (root i2 i1 i0 : ℕ) → Reads m root i2 i1 i0 (in_tables m (down m root i2) i1 i0)
unfolding lookup
in_tables-Reads m root i2 i1 i0 = at_mid (down m root i2) refl
  where
    at_low :
        (x : ℕ)
        → down m root i2 ≡ some x
        → (o : Option ℕ) → down m x i1 ≡ o
        → Reads m root i2 i1 i0 (in_table o i0)
    at_low x e none e' = ap (λ o. in_mid m o i1 i0) e ∙ ap (λ o. in_low m o i0) e'
    at_low x e (some q) e' =
        (refl, (x, e, e'), ap (λ o. in_mid m o i1 i0) e ∙ ap (λ o. in_low m o i0) e')

    at_mid : (o : Option ℕ) → down m root i2 ≡ o → Reads m root i2 i1 i0 (in_tables m o i1 i0)
    at_mid none e = ap (λ o. in_mid m o i1 i0) e
    at_mid (some x) e = at_low x e (down m x i1) refl

-- `walkaddr` returns the page in the entry of an address, if the entry is valid and for the user.
pub walkaddr_lem :
    (m : Mem) (root va : ℕ)
    → walkaddr m root va ≡ (if leb maxva va then none else user_pa (entry m root va))
unfolding walkaddr entry
walkaddr_lem m root va = elim (Bool-cases (leb maxva va)) [
  | inl high ↦ rw high refl
  | inr low ↦
      rw (low, walk_indices-read m root (px 2 va) (px 1 va) (px 0 va))
        (go (in_tables m (down m root (px 2 va)) (px 1 va) (px 0 va))
          (in_tables-Reads m root (px 2 va) (px 1 va) (px 0 va)))
]
  where
    go :
        (o : Option (ℕ × ℕ))
        → Reads m root (px 2 va) (px 1 va) (px 0 va) o
        → (elim o [ none ↦ none | some (p, i) ↦ user_pa (m.words p i) ])
          ≡ user_pa (lookup m root (px 2 va) (px 1 va) (px 0 va))
    go none e = sym (ap user_pa e)
    go (some (q, k)) (_, _, e) = sym (ap user_pa e)

-- ===== src/Vm/Space/Spare.antt =====
-- The pages that `walk` and `mappages` take come from the free list, and the rest of the list stays.
use os_assignment.Prelude.{
  ℕ, zero, suc, ◌+◌, ◌-◌, ◌%◌, ◌^◌, ◌≡◌, Bool, true, false, Option, none, some, List, [], ◌∷◌, ◌==◌,
  leb, if◌then◌else◌, Bool-cases, inl, inr,
}
use os_assignment.Prelude.Int.{ℤ, pos, minus_one}
use os_assignment.Kalloc.{pgsize}
use os_assignment.Vm.{
  maxva, px, is_valid, pg_round_down, Mem, walk_level, walk_indices, walk, set_pte, make_pte,
  map_one, map_from, mappages,
}

module _ (is_page : ℕ → Bool) where
  -- Pages that `kfree` takes.
  unfoldable pub AllPages : List ℕ → Type 0
  AllPages [] = Unit
  AllPages (q ∷ l) = (is_page q ≡ true) × AllPages l

  level_rest :
      (w : ℕ → ℕ → ℕ) (b : ℕ → ℕ) (l : List ℕ) (p i : ℕ) (alloc : Bool)
      → is_valid (w p i) ≡ false
      → AllPages l
      → AllPages (walk_level (record { words = w; bytes = b; free = l }) p i alloc).0.free
  unfolding walk_level AllPages
  level_rest w b l p i false nv h = rw nv h
  level_rest w b [] p i true nv h = rw nv h
  level_rest w b (q ∷ l) p i true nv h = rw nv (h.1)

  walk_level-AllPages :
      (m : Mem) (p i : ℕ) (alloc : Bool)
      → AllPages m.free
      → AllPages (walk_level m p i alloc).0.free
  unfolding walk_level
  walk_level-AllPages m p i alloc h = elim (Bool-cases (is_valid (m.words p i))) [
    | inl v ↦ rw v h
    | inr nv ↦ level_rest m.words m.bytes m.free p i alloc nv h
  ]

  walk_indices-AllPages :
      (m : Mem) (root i2 i1 i0 : ℕ) (alloc : Bool)
      → AllPages m.free
      → AllPages (walk_indices m root i2 i1 i0 alloc).0.free
  unfolding walk_indices
  walk_indices-AllPages m root i2 i1 i0 alloc h =
      second (walk_level m root i2 alloc) (walk_level-AllPages m root i2 alloc h)
    where
      third :
          (r : Mem × Option ℕ)
          → AllPages r.0.free
          → AllPages
              (elim r.1 as (λ x. Mem × Option (ℕ × ℕ)) [
                | none ↦ (r.0, none)
                | some q ↦ (r.0, some (q, i0))
              ]).0.free
      third (m', none) k = k
      third (m', some q) k = k

      second :
          (r : Mem × Option ℕ)
          → AllPages r.0.free
          → AllPages
              (elim r.1 as (λ x. Mem × Option (ℕ × ℕ)) [
                | none ↦ (r.0, none)
                | some p ↦
                    let r' = walk_level r.0 p i1 alloc in
                    elim r'.1 [ none ↦ (r'.0, none) | some q ↦ (r'.0, some (q, i0)) ]
              ]).0.free
      second (m', none) k = k
      second (m', some p) k = third (walk_level m' p i1 alloc) (walk_level-AllPages m' p i1 alloc k)

  unfoldable pub AllPagesIn : {A : Type 0} → Option (Mem × A) → Type 0
  AllPagesIn none = Unit
  AllPagesIn (some r) = AllPages r.0.free

  map_one-AllPages :
      (m : Mem) (root a pa perm : ℕ) → AllPages m.free → AllPagesIn (map_one m root a pa perm)
  unfolding map_one walk AllPagesIn
  map_one-AllPages m root a pa perm h = elim (Bool-cases (leb maxva a)) [
    | inl high ↦ rw (high, map_one) tt
    | inr low ↦
        rw (low, map_one)
          (go (walk_indices m root (px 2 a) (px 1 a) (px 0 a) true)
            (walk_indices-AllPages m root (px 2 a) (px 1 a) (px 0 a) true h))
  ]
    where
      go :
          (r : Mem × Option (ℕ × ℕ))
          → AllPages r.0.free
          → AllPagesIn (elim r.1 as (λ x. Option (Mem × Bool)) [
            | none ↦ some (r.0, false)
            | some (p, i) ↦
                if is_valid (r.0.words p i)
                then none
                else some (set_pte r.0 (p, i) (make_pte pa perm), true)
          ])
      go (m', none) k = k
      go (m', some (p, i)) k = elim (Bool-cases (is_valid (m'.words p i))) [
        | inl v ↦ rw v tt
        | inr nv ↦ rw nv k
      ]

  map_from-AllPages :
      (f : ℕ) (m : Mem) (root a last pa perm : ℕ)
      → AllPages m.free
      → AllPagesIn (map_from f m root a last pa perm)
  unfolding map_from AllPagesIn
  map_from-AllPages zero m root a last pa perm h = tt
  map_from-AllPages (suc f) m root a last pa perm h =
      go (map_one m root a pa perm) (map_one-AllPages m root a pa perm h)
        (λ m' k. map_from-AllPages f m' root (a + pgsize) last (pa + pgsize) perm k)
    where
      go :
          (r : Option (Mem × Bool))
          → AllPagesIn r
          → ((m' : Mem)
              → AllPages m'.free
              → AllPagesIn (map_from f m' root (a + pgsize) last (pa + pgsize) perm))
          → AllPagesIn (elim r as (λ x. Option (Mem × ℤ)) [
            | none ↦ none
            | some (m', good) ↦ elim good [
              | false ↦ some (m', minus_one)
              | true ↦ elim (a == last) [
                | true ↦ some (m', pos 0)
                | false ↦ map_from f m' root (a + pgsize) last (pa + pgsize) perm
              ]
            ]
          ])
      go none k ih = tt
      go (some (m', false)) k ih = k
      go (some (m', true)) k ih = elim (Bool-cases (a == last)) [
        | inl e ↦ rw e k
        | inr ne ↦ rw ne (ih m' k)
      ]

  pub mappages-AllPages :
      (m : Mem) (root va size pa perm : ℕ)
      → AllPages m.free
      → AllPagesIn (mappages m root va size pa perm)
  unfolding mappages AllPagesIn
  mappages-AllPages m root va size pa perm h = elim (Bool-cases (size == 0)) [
    | inl z ↦ rw (z, mappages) tt
    | inr nz ↦
        rw (nz, mappages)
          (map_from-AllPages (2 ^ 26 + 1) m root (pg_round_down va)
            (pg_round_down ((va + size - 1) % 2 ^ 64)) pa perm h)
  ]

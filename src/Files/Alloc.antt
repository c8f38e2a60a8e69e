-- ===== src/Files/Alloc.antt =====
-- `filealloc`: which entry it takes.
use os_assignment.Prelude.{
  ℕ, zero, suc, ◌+◌, ◌≤◌, ◌<◌, ◌≡◌, ◌≢◌, ◌⊎◌, inl, inr, refl, none, some, arith, update, ℕ_discrete,
  Option,
}
use os_assignment.Files.{FileTable, nfile, alloc_file_from, filealloc}

-- What the loop started at `i` with `n` rounds left finds.
abbrev pub Takes : FileTable → ℕ → ℕ → FileTable × Option ℕ → Type 0
Takes t i n r =
    ((f : ℕ) × (i ≤ f)
      × (f < i + n)
      × ((t f).ref ≡ 0)
      × ((k : ℕ) → i ≤ k → k < f → (t k).ref ≢ 0)
      × (r ≡ (update t f (record (t f) { ref = 1 }), some f)))
    ⊎ (((k : ℕ) → i ≤ k → k < i + n → (t k).ref ≢ 0) × (r ≡ (t, none)))

alloc_file_from-Takes : (n i : ℕ) (t : FileTable) → Takes t i n (alloc_file_from n i t)
unfolding alloc_file_from
alloc_file_from-Takes zero i t = inr ((λ k p q. absurd (omega arith)), refl)
alloc_file_from-Takes (suc n) i t = elim (ℕ_discrete (t i).ref 0) [
  | yes free ↦
      inl (i, omega arith, omega arith, free, (λ k p q. absurd (omega arith)), ground arith)
  | no busy ↦ elim (alloc_file_from-Takes n (i + 1) t) [
    | inl (f, lo, hi, free, below, e) ↦
        inl (f, omega arith, omega arith, free, (λ k p q. grind (arith, below, busy)), ground arith)
    | inr (full, e) ↦ inr ((λ k p q. grind (arith, full, busy)), ground arith)
  ]
]

-- `filealloc` takes the first entry with no reference, and fails just when all entries have one.
pub filealloc-Takes : (t : FileTable) → Takes t 0 nfile (filealloc t)
unfolding filealloc
filealloc-Takes t = alloc_file_from-Takes nfile 0 t

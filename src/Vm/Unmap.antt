-- ===== src/Vm/Unmap.antt =====
-- `uvmunmap` of kernel/vm.c: taking entries out of a page table.
pub mod Read
use mathlib.Core.Path.{subst}
use os_assignment.Prelude.{
  ℕ, zero, suc, ◌+◌, ◌*◌, ◌/◌, ◌%◌, ◌≤◌, ◌<◌, ◌≡◌, refl, sym, ap, ◌∙◌, ◌⊎◌, inl, inr, Bool, true,
  false, not, ◌&&◌, Option, none, some, List, [], ◌∷◌, arith, ltb, leb, ◌==◌, if◌then◌else◌,
  Bool-cases, ℕ_discrete, length,
}
use os_assignment.Kalloc.{pgsize}
use os_assignment.Vm.{
  maxva, px, is_valid, pte_flags, pte2pa, user_pa, Mem, set_word, walk_level, walk_indices, walk,
  walkaddr, set_pte, unmap_one, unmap_from, uvmunmap,
}
use os_assignment.Vm.Tables.{down, in_low, in_mid, lookup}
use os_assignment.Vm.Map.{entry-page}
use os_assignment.Vm.Map.Write.{entry, same_page, lookup-set_pte, set_pte-IsTable, IsTree}
use os_assignment.Vm.Unmap.Read.{in_tables, walk-read, Reads, in_tables-Reads}

-- A page table whose pages form a tree, whatever pages are free.
abbrev pub IsBare : Mem → ℕ → Type 0
IsBare m root = IsTree (record m { free = [] }) root

-- A page that `uvmunmap` cannot take out.
abbrev pub StuckAt : (ℕ → Bool) → ℕ → Bool → Type 0
StuckAt is_page e do_free =
    (is_valid e ≡ false) ⊎ (pte_flags e ≡ 1) ⊎ ((do_free ≡ true) × (is_page (pte2pa e) ≡ false))

abbrev pub Stuck : (ℕ → Bool) → Mem → ℕ → ℕ → Bool → Type 0
Stuck is_page m root va do_free = StuckAt is_page (entry m root va) do_free

abbrev Unmapped : (ℕ → Bool) → Mem → ℕ → ℕ → Bool → Option Mem → Type 0
Unmapped is_page m root a do_free none = Stuck is_page m root a do_free
Unmapped is_page m root a do_free (some m') =
    IsBare m' root
    × (is_valid (entry m root a) ≡ true)
    × (m'.free ≡ (if do_free then pte2pa (entry m root a) ∷ m.free else m.free))
    × ((va : ℕ)
        → va < maxva
        → entry m' root va ≡ (if va / 4096 == a / 4096 then 0 else entry m root va))

cleared_entries :
    (m : Mem) (root a x q k : ℕ) (l : List ℕ)
    → a < maxva
    → IsBare m root
    → k ≡ px 0 a
    → down m root (px 2 a) ≡ some x
    → down m x (px 1 a) ≡ some q
    → IsBare (record { words = set_word m.words q k 0; bytes = m.bytes; free = l }) root
      × ((va : ℕ)
          → va < maxva
          → entry (record { words = set_word m.words q k 0; bytes = m.bytes; free = l }) root va
            ≡ (if va / 4096 == a / 4096 then 0 else entry m root va))
unfolding entry lookup
cleared_entries m root a x q k l h (place, table) k-eq to_mid to_low =
    subst
      (λ i.
        IsBare (record { words = set_word m.words q i 0; bytes = m.bytes; free = l }) root
        × ((va : ℕ)
            → va < maxva
            → entry (record { words = set_word m.words q i 0; bytes = m.bytes; free = l }) root va
              ≡ (if va / 4096 == a / 4096 then 0 else entry m root va)))
      (sym k-eq)
      (
        (
          place,
          set_pte-IsTable (record m { free = [] }) root (px 2 a) (px 1 a) (px 0 a) 0 x q place table
              to_mid to_low,
        ),
        λ va hv.
            lookup-set_pte (record m { free = [] }) root (px 2 a) (px 1 a) (px 0 a) 0 x q place
              table to_mid to_low (px 2 va) (px 1 va) (px 0 va)
            ∙ ap (λ b. if b then 0 else lookup m root (px 2 va) (px 1 va) (px 0 va))
                (same_page va a hv h),
      )

unmap_one-Unmapped :
    (is_page : ℕ → Bool) (m : Mem) (root a : ℕ) (do_free : Bool)
    → a < maxva
    → IsBare m root
    → Unmapped is_page m root a do_free (unmap_one is_page m root a do_free)
unfolding unmap_one entry
unmap_one-Unmapped is_page m root a do_free h tree =
    rw (walk-read m root a h, unmap_one)
      (go (in_tables m (down m root (px 2 a)) (px 1 a) (px 0 a))
        (in_tables-Reads m root (px 2 a) (px 1 a) (px 0 a)))
  where
    go :
        (o : Option (ℕ × ℕ))
        → Reads m root (px 2 a) (px 1 a) (px 0 a) o
        → Unmapped is_page m root a do_free (elim o [
          | none ↦ none
          | some (p, i) ↦
              let pte = m.words p i in
              let cleared = set_pte m (p, i) 0 in
              if not (is_valid pte)
              then none
              else if pte_flags pte == 1
              then none
              else if not do_free
              then some cleared
              else if not (is_page (pte2pa pte))
              then none
              else some (record cleared { free = pte2pa pte ∷ m.free })
        ])
    go none e = inl (ap is_valid e)
    go (some (q, k)) (k-eq, (x, to_mid, to_low), word) =
        let clear = λ (l : List ℕ). cleared_entries m root a x q k l h tree k-eq to_mid to_low in
        elim (Bool-cases (is_valid (m.words q k))) [
          | inr v ↦ rw v (inl (ap is_valid word ∙ v))
          | inl v ↦ elim (Bool-cases (pte_flags (m.words q k) == 1)) [
            | inl f ↦ rw (v, f) (inr (inl (ap pte_flags word ∙ ground arith)))
            | inr f ↦ elim (Bool-cases do_free) [
              | inr keep ↦
                  rw (v, f, keep) ((clear m.free).0, ap is_valid word ∙ v, refl, (clear m.free).1)
              | inl gone ↦ elim (Bool-cases (is_page (pte2pa (m.words q k)))) [
                | inr bad ↦
                    rw (v, f, gone, bad) (inr (inr (refl, ap (λ w. is_page (pte2pa w)) word ∙ bad)))
                | inl page ↦
                    rw (v, f, gone, page)
                      (
                        (clear (pte2pa (m.words q k) ∷ m.free)).0,
                        ap is_valid word ∙ v,
                        sym (ap (λ w. pte2pa w ∷ m.free) word),
                        (clear (pte2pa (m.words q k) ∷ m.free)).1,
                      )
              ]
            ]
          ]
        ]

-- What `uvmunmap` does with `n` pages from `a` on. A panic: a page of the range has no entry, or none
-- that can be taken out. Otherwise all had one, these have none now, no other entry has changed, and
-- as many pages are freed as asked for.
abbrev pub Unmaps : (ℕ → Bool) → Mem → ℕ → ℕ → ℕ → Bool → Option Mem → Type 0
Unmaps is_page m root a n do_free none =
    (va : ℕ) × (a ≤ va) × (va < a + n * 4096) × Stuck is_page m root va do_free
Unmaps is_page m root a n do_free (some m') =
    IsBare m' root
    × ((va : ℕ) → a ≤ va → va < a + n * 4096 → is_valid (entry m root va) ≡ true)
    × (length m'.free ≡ length m.free + (if do_free then n else 0))
    × ((va : ℕ)
        → va < maxva
        → entry m' root va ≡ (if leb a va && ltb va (a + n * 4096) then 0 else entry m root va))

free_count :
    (do_free : Bool) (l l1 l2 : List ℕ) (n p : ℕ)
    → l1 ≡ (if do_free then p ∷ l else l)
    → length l2 ≡ length l1 + (if do_free then n else 0)
    → length l2 ≡ length l + (if do_free then suc n else 0)
free_count true l l1 l2 n p e e' = omega (arith, ap (length {0}) e)
free_count false l l1 l2 n p e e' = omega (arith, ap (length {0}) e)

more_cleared :
    (va a n w : ℕ)
    → a % 4096 ≡ 0
    → (if leb (a + 4096) va && ltb va (a + 4096 + n * 4096)
        then 0
        else (if va / 4096 == a / 4096 then 0 else w))
      ≡ (if leb a va && ltb va (a + suc n * 4096) then 0 else w)
more_cleared va a n w al = ground arith

unmap-step :
    (is_page : ℕ → Bool) (m m1 : Mem) (root a n : ℕ) (do_free : Bool)
    → a % 4096 ≡ 0
    → a + suc n * 4096 ≤ maxva
    → Unmapped is_page m root a do_free (some m1)
    → (r : Option Mem) → Unmaps is_page m1 root (a + 4096) n do_free r
    → Unmaps is_page m root a (suc n) do_free r
unmap-step is_page m m1 root a n do_free al fit (bare, valid, freed, w) none (va, lo, hi, stuck) = (
  va,
  omega arith,
  omega arith,
  subst (λ e. StuckAt is_page e do_free) (w va (omega arith) ∙ elsewhere) stuck,
)
  where
    elsewhere : (if va / 4096 == a / 4096 then 0 else entry m root va) ≡ entry m root va
    elsewhere = let other : (va / 4096 == a / 4096) ≡ false = ground arith in rw other refl
unmap-step is_page m m1 root a n do_free al fit (bare, valid, freed, w) (some m2)
      (bare2, valid2, freed2, w2) =
    (
      bare2,
      λ va lo hi. elim (ℕ_discrete (va / 4096) (a / 4096)) [
        | yes e ↦ ap is_valid (entry-page m root va a (omega arith) (omega arith) e) ∙ valid
        | no ne ↦
            let other : (va / 4096 == a / 4096) ≡ false = ground arith in
            sym (ap is_valid (w va (omega arith) ∙ rw other refl))
            ∙ valid2 va (omega arith) (omega arith)
      ],
      free_count do_free m.free m1.free m2.free n _ freed freed2,
      λ va hv.
          w2 va hv
          ∙ ap (λ z. if leb (a + 4096) va && ltb va (a + 4096 + n * 4096) then 0 else z) (w va hv)
          ∙ more_cleared va a n (entry m root va) al,
    )

unmap_from-Unmaps :
    (is_page : ℕ → Bool) (n : ℕ) (m : Mem) (root a : ℕ) (do_free : Bool)
    → a % 4096 ≡ 0
    → a + n * 4096 ≤ maxva
    → IsBare m root
    → Unmaps is_page m root a n do_free (unmap_from is_page n m root a do_free)
unfolding unmap_from
unmap_from-Unmaps is_page zero m root a do_free al fit bare =
    (bare, λ va lo hi. absurd (omega arith), ground arith, λ va hv. ground arith)
unmap_from-Unmaps is_page (suc n) m root a do_free al fit bare =
    go (unmap_one is_page m root a do_free)
      (unmap_one-Unmapped is_page m root a do_free (omega arith) bare)
      (λ m1. unmap_from-Unmaps is_page n m1 root (a + 4096) do_free (omega arith) (omega arith))
  where
    go :
        (r : Option Mem)
        → Unmapped is_page m root a do_free r
        → ((m1 : Mem)
            → IsBare m1 root
            → Unmaps is_page m1 root
                (a + 4096)
                n
                do_free
                (unmap_from is_page n m1 root (a + 4096) do_free))
        → Unmaps is_page m root a
            (suc n)
            do_free
            (elim r [ none ↦ none | some m' ↦ unmap_from is_page n m' root (a + pgsize) do_free ])
    go none stuck ih = (a, omega arith, omega arith, stuck)
    go (some m1) one ih =
        unmap-step is_page m m1 root a n do_free al fit one
          (unmap_from is_page n m1 root (a + 4096) do_free) (ih m1 one.0)

-- `uvmunmap` of aligned pages below `MAXVA` panics only where a page of the range has no entry, an
-- entry with no permissions, or a physical address that cannot be freed. Otherwise each of them had
-- a valid entry and has none now, every other address keeps its entry, and just when asked to, it
-- frees as many pages as it unmaps.
pub uvmunmap-Unmaps :
    (is_page : ℕ → Bool) (m : Mem) (root va npages : ℕ) (do_free : Bool)
    → va % 4096 ≡ 0
    → va + npages * 4096 ≤ maxva
    → IsBare m root
    → Unmaps is_page m root va npages do_free (uvmunmap is_page m root va npages do_free)
unfolding uvmunmap
uvmunmap-Unmaps is_page m root va npages do_free al fit bare =
    let aligned : (va % pgsize == 0) ≡ true = ground arith in
    rw (aligned, uvmunmap) (unmap_from-Unmaps is_page npages m root va do_free al fit bare)

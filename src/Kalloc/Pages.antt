-- ===== src/Kalloc/Pages.antt =====
-- The free list that `kinit` makes holds pages, each at most once.
use os_assignment.Prelude.{
  ℕ, zero, suc, ◌+◌, ◌-◌, ◌*◌, ◌/◌, ◌%◌, ◌≤◌, ◌<◌, ◌≡◌, ◌≢◌, true, false, refl, Option, some, List,
  [], ◌∷◌, arith, length, Bool-cases, inl, inr, leb,
}
use os_assignment.Strings.{Memory, memset}
use os_assignment.Kalloc.{
  Kmem, pgsize, phystop, pg_round_up, is_page, kfree, free_from, freerange, kinit,
}

-- `pa` is on no entry of the list.
abbrev pub Free : ℕ → List ℕ → Type 0
Free pa [] = Unit
Free pa (q ∷ l) = (q ≢ pa) × Free pa l

-- A list of different pages between `end` and the top of the memory.
abbrev pub PagesOk : ℕ → List ℕ → Type 0
PagesOk end [] = Unit
PagesOk end (pa ∷ l) = (is_page end pa ≡ true) × Free pa l × PagesOk end l

-- Pages that lie below an address.
abbrev Below : ℕ → List ℕ → Type 0
Below p [] = Unit
Below p (q ∷ l) = (q < p) × Below p l

Below-Free : (p : ℕ) (l : List ℕ) → Below p l → Free p l
Below-Free p [] h = tt
Below-Free p (q ∷ l) (hq, h) = ((λ e. omega (arith, e)), Below-Free p l h)

Below-le : (p p' : ℕ) (l : List ℕ) → p ≤ p' → Below p l → Below p' l
Below-le p p' [] le h = tt
Below-le p p' (q ∷ l) le (hq, h) = (omega arith, Below-le p p' l le h)

-- What `freerange` ends with: no panic, and every page from `p` to the end on the list.
pub record Freed (end p pa_end : ℕ) (k : Kmem) (r : Option Kmem) : Type 0 where
  pub last : Kmem
  pub succeeds : r ≡ some last
  pub ok : PagesOk end last.freelist
  pub grown : length last.freelist ≡ length k.freelist + (pa_end - p) / pgsize

free_from-stop :
    (f end : ℕ) (k : Kmem) (p pa_end : ℕ)
    → leb (p + pgsize) pa_end ≡ false
    → free_from end (suc f) k p pa_end ≡ some k
unfolding free_from
free_from-stop f end k p pa_end h = ground arith

free_from-next :
    (f end : ℕ) (k : Kmem) (p pa_end : ℕ)
    → leb (p + pgsize) pa_end ≡ true
    → is_page end p ≡ true
    → free_from end (suc f) k p pa_end
      ≡ free_from end f
          (record { memory = memset k.memory p 1 pgsize; freelist = p ∷ k.freelist })
          (p + pgsize)
          pa_end
unfolding free_from kfree
free_from-next f end k p pa_end h g = ground arith

is_page-of : (end p : ℕ) → p % pgsize ≡ 0 → end ≤ p → p < phystop → is_page end p ≡ true
is_page-of end p al lo hi = ground arith

free_from-Freed :
    (f end : ℕ) (k : Kmem) (p pa_end : ℕ)
    → pa_end - p < f * pgsize
    → p % pgsize ≡ 0
    → end ≤ p
    → pa_end ≤ phystop
    → PagesOk end k.freelist
    → Below p k.freelist
    → Freed end p pa_end k (free_from end f k p pa_end)
free_from-Freed zero end k p pa_end fuel al lo hi h below = absurd (omega arith)
free_from-Freed (suc f) end k p pa_end fuel al lo hi h below =
    elim (Bool-cases (leb (p + pgsize) pa_end)) [
      | inr stop ↦
          rw (free_from-stop f end k p pa_end stop)
            (record { last = k; succeeds = refl; ok = h; grown = ground arith })
      | inl more ↦
          let room : p + pgsize ≤ pa_end = ground arith in
          let page : is_page end p ≡ true = is_page-of end p al lo (omega arith) in
          let k' : Kmem = record {
            memory = memset k.memory p 1 pgsize;
            freelist = p ∷ k.freelist;
          } in
          let ih : Freed end (p + pgsize) pa_end k' (free_from end f k' (p + pgsize) pa_end) =
            free_from-Freed f end k' (p + pgsize) pa_end (omega arith) (omega arith) (omega arith)
              hi (page, Below-Free p k.freelist below, h)
              (omega arith, Below-le p (p + pgsize) k.freelist (omega arith) below) in
          rw (free_from-next f end k p pa_end more page) (record {
            last = ih.last;
            succeeds = ih.succeeds;
            ok = ih.ok;
            grown = omega (arith, ih.grown);
          })
    ]

-- `kinit` does not panic. It puts the pages from the end of the kernel, rounded up, to the top of
-- the memory on the list: as many as fit, each once.
pub kinit-Freed :
    (end : ℕ) (m : Memory)
    → Freed end (pg_round_up end) phystop (record { memory = m; freelist = [] }) (kinit end m)
unfolding kinit freerange
kinit-Freed end m =
    free_from-Freed (suc (phystop / pgsize)) end (record { memory = m; freelist = [] })
      (pg_round_up end) phystop (omega arith) (omega arith) (omega arith) (omega arith) tt tt

-- ===== src/Vm/Space/Alloc.antt =====
-- `uvmalloc` maps every new page, or fails and takes back what it has mapped.
pub mod Rounds
use mathlib.Core.Path.{subst}
use os_assignment.Prelude.{
  ℕ, zero, suc, ◌+◌, ◌-◌, ◌*◌, ◌/◌, ◌%◌, ◌≤◌, ◌<◌, ◌≡◌, ◌≢◌, refl, sym, ap, ◌∙◌, ◌⊎◌, inl, inr,
  Bool, true, false, ◌&&◌, Option, none, some, List, [], ◌∷◌, arith, ltb, leb, if◌then◌else◌,
  Bool-cases,
}
use os_assignment.Prelude.Int.{ℤ, pos, negsuc}
use os_assignment.Kalloc.{pgsize}
use os_assignment.Vm.{maxva, is_valid, pg_round_down, make_pte, Mem, mappages}
use os_assignment.Vm.Tables.{lookup, AllFree}
use os_assignment.Vm.Map.{Maps, mappages-Maps}
use os_assignment.Vm.Map.Write.{entry, IsTree}
use os_assignment.Vm.Unmap.{IsBare}
use os_assignment.Vm.Space.{
  pg_round_up, user_perm, fresh_page, give_back, undo, uvmalloc_from, uvmalloc,
}
use os_assignment.Vm.Space.Spare.{AllPages, AllPagesIn, mappages-AllPages}
use os_assignment.Vm.Space.Undo.{IsTree-IsBare, Mine, mine, Undone, undo-Undone}
use os_assignment.Vm.Space.Alloc.Rounds.{
  Allocs, grew, took_back, Loop, undone_lem, one_page-Maps, fresh_page-IsTree,
}

module _ (is_page : ℕ → Bool) (root start top newsz perm : ℕ) where
  -- The result, when a page at `a` comes first.
  Allocs-step :
      (m m' : Mem) (a : ℕ) (r : Mem × ℕ)
      → start ≤ a
      → a < top
      → top % 4096 ≡ 0
      → a % 4096 ≡ 0
      → top ≤ maxva
      → ((va : ℕ) → va < maxva → (va < a) ⊎ (a + 4096 ≤ va) → entry m' root va ≡ entry m root va)
      → Allocs is_page m' root start top newsz perm r
      → Allocs is_page m root start top newsz perm r
  Allocs-step m m' a _ lo hi al_t al fits same (grew m2 tree pages made kept) =
      grew m2 tree pages made (λ va hv out. kept va hv out ∙ same va hv (omega arith))
  Allocs-step m m' a _ lo hi al_t al fits same (took_back m2 bare gone kept) =
      took_back m2 bare gone (λ va hv out. kept va hv out ∙ same va hv (omega arith))

  -- The loop ends in a state or a failure, never in a panic.
  AllocsIn : Mem → Option (Mem × ℕ) → Type 0
  AllocsIn m none = ⊥
  AllocsIn m (some r) = Allocs is_page m root start top newsz perm r

  fails :
      (m m1 : Mem) (a : ℕ)
      → Loop is_page m root start a top newsz perm
      → IsBare m1 root
      → ((va : ℕ) → va < maxva → entry m1 root va ≡ entry m root va)
      → AllocsIn m (undo is_page m1 root a start)
  unfolding AllocsIn
  fails m m1 a l bare same =
      let (r, e, u) =
        undo-Undone is_page m1 root start a perm l.aligned_start l.aligned l.after
          (omega (arith, l.fits, l.before)) l.some_perm bare
          (λ va lo hi.
            subst (Mine is_page perm) (sym (same va (omega (arith, l.before, l.fits))))
              (l.ours va lo hi)) in
      subst (AllocsIn m) (sym e) (
        undone_lem is_page m m1 root start a top newsz perm r l.after l.before l.fits
          (λ va hv out. same va hv)
          (λ va lo hi. ap is_valid (same va (omega (arith, l.fits))) ∙ l.rest va lo hi) u)

  AllocsIn-step :
      (m m' : Mem) (a : ℕ) (o : Option (Mem × ℕ))
      → Loop is_page m root start a top newsz perm
      → a < top
      → ((va : ℕ) → va < maxva → (va < a) ⊎ (a + 4096 ≤ va) → entry m' root va ≡ entry m root va)
      → AllocsIn m' o
      → AllocsIn m o
  unfolding AllocsIn
  AllocsIn-step m m' a none l lt same r = r
  AllocsIn-step m m' a (some x) l lt same r =
      Allocs-step m m' a x l.after lt l.aligned_top l.aligned l.fits same r

  -- After page `q` has been mapped at `a`.
  Loop-next :
      (m m' : Mem) (a q : ℕ)
      → Loop is_page m root start a top newsz perm
      → a < top
      → IsTree m' root
      → AllPages is_page m'.free
      → q % 4096 ≡ 0
      → is_page q ≡ true
      → ((va : ℕ)
          → va < maxva
          → entry m' root va ≡ (
              if leb a va && ltb va (a + (0 + 1) * 4096)
              then make_pte (q + (va - a) / 4096 * 4096) perm
              else entry m root va))
      → Loop is_page m' root start (a + 4096) top newsz perm
  Loop-next m m' a q l lt tree pages al page w = record {
    tree = tree;
    pages = pages;
    aligned_start = l.aligned_start;
    aligned = omega (arith, l.aligned);
    aligned_top = l.aligned_top;
    after = omega (arith, l.after);
    before = omega (arith, l.aligned, l.aligned_top);
    rounds = l.rounds;
    up = l.up;
    fits = l.fits;
    some_perm = l.some_perm;
    ours = λ va lo hi.
        let hv : va < maxva = omega (arith, l.aligned, l.aligned_top, l.fits) in
        elim (Bool-cases (ltb va a)) [
          | inl low ↦
              let c : (leb a va && ltb va (a + (0 + 1) * 4096)) ≡ false = ground arith in
              subst (Mine is_page perm) (sym (w va hv ∙ rw c refl)) (l.ours va lo (ground arith))
          | inr high ↦
              let c : (leb a va && ltb va (a + (0 + 1) * 4096)) ≡ true = ground arith in
              let first : q + (va - a) / 4096 * 4096 ≡ q = omega (arith, high_le a va high) in
              mine q al page (w va hv ∙ rw c (ap (λ x. make_pte x perm) first))
        ];
    rest = λ va lo hi.
        let c : (leb a va && ltb va (a + (0 + 1) * 4096)) ≡ false = ground arith in
        let e : entry m' root va ≡ entry m root va = w va (omega (arith, l.fits)) ∙ rw c refl in
        ap is_valid e ∙ l.rest va (omega arith) hi;
  }
    where
      high_le : (a va : ℕ) → ltb va a ≡ false → a ≤ va
      high_le a va h = ground arith

  mapped :
      (f a q : ℕ) (m : Mem) (rest : List ℕ) (o : Option (Mem × ℤ))
      → Loop is_page m root start a top newsz perm
      → a < top
      → q % 4096 ≡ 0
      → is_page q ≡ true
      → Maps (fresh_page m q rest) root a 0 q perm o
      → AllPagesIn is_page o
      → ((m' : Mem)
          → Loop is_page m' root start (a + 4096) top newsz perm
          → AllocsIn m' (uvmalloc_from is_page f m' root start (a + 4096) newsz perm))
      → AllocsIn m (elim o [
        | none ↦ none
        | some (m', r) ↦ elim r [
          | pos _ ↦ uvmalloc_from is_page f m' root start (a + pgsize) newsz perm
          | negsuc _ ↦ elim (give_back is_page m' q) [
            | none ↦ none
            | some m'' ↦ undo is_page m'' root a start
          ]
        ]
      ])
  unfolding entry lookup AllPagesIn
  mapped f a q m rest none l lt al page (va, lo, hi, v) pages ih =
      (let v' : is_valid (entry m root va) ≡ false =
          l.rest va lo (omega (arith, l.aligned, l.aligned_top)) in
        let v2 : is_valid (entry m root va) ≡ true = v in
        let both : true ≡ false = sym v2 ∙ v' in absurd (cc))
  mapped f a q m rest (some (m', pos z)) l lt al page (tree, free, w) pages ih =
      AllocsIn-step m m' a (uvmalloc_from is_page f m' root start (a + pgsize) newsz perm) l lt
        (λ va hv out.
          w va hv
          ∙ (let c : (leb a va && ltb va (a + (0 + 1) * 4096)) ≡ false = ground arith in rw c refl))
        (ih m' (Loop-next m m' a q l lt tree pages al page w))
  mapped f a q m rest (some (m', negsuc z)) l lt al page (k, le, tree, empty, w) pages ih =
      rw page (
        fails m (record m' { free = q ∷ m'.free }) a l (IsTree-IsBare m' root tree)
          (λ va hv.
            w va hv
            ∙ (let c : (leb a va && ltb va (a + k * 4096)) ≡ false = ground arith in rw c refl)))

  uvmalloc_from-Allocs :
      (f : ℕ) (m : Mem) (a : ℕ)
      → Loop is_page m root start a top newsz perm
      → top < a + f * 4096
      → AllocsIn m (uvmalloc_from is_page f m root start a newsz perm)
  unfolding uvmalloc_from AllocsIn entry lookup AllPages
  uvmalloc_from-Allocs zero m a l enough = absurd (omega (arith, l.before))
  uvmalloc_from-Allocs (suc f) m a l enough = elim (Bool-cases (ltb a newsz)) [
    | inr high ↦
        let end : a ≡ top =
          omega (arith, reached a high, l.aligned, l.aligned_top, l.before, l.up) in
        rw (high, uvmalloc_from)
          (grew m l.tree l.pages (λ va lo hi. l.ours va lo (omega arith)) (λ va hv out. refl))
    | inl low ↦
        rw (low, uvmalloc_from)
          (go m.free refl (λ m' l'. uvmalloc_from-Allocs f m' (a + 4096) l' (omega arith))
            (more a low))
  ]
    where
      reached : (a : ℕ) → ltb a newsz ≡ false → newsz ≤ a
      reached a h = ground arith

      more : (a : ℕ) → ltb a newsz ≡ true → a < newsz
      more a h = ground arith

      go :
          (free : List ℕ)
          → m.free ≡ free
          → ((m' : Mem)
              → Loop is_page m' root start (a + 4096) top newsz perm
              → AllocsIn m' (uvmalloc_from is_page f m' root start (a + 4096) newsz perm))
          → a < newsz
          → AllocsIn m (elim free [
            | [] ↦ undo is_page m root a start
            | q ∷ rest ↦ elim (mappages (fresh_page m q rest) root a pgsize q perm) [
              | none ↦ none
              | some (m', r) ↦ elim r [
                | pos _ ↦ uvmalloc_from is_page f m' root start (a + pgsize) newsz perm
                | negsuc _ ↦ elim (give_back is_page m' q) [
                  | none ↦ none
                  | some m'' ↦ undo is_page m'' root a start
                ]
              ]
            ]
          ])
      go [] e ih lt = fails m m a l (IsTree-IsBare m root l.tree) (λ va hv. refl)
      go (q ∷ rest) e ih lt =
          let pages : AllPages is_page (q ∷ rest) = subst (AllPages is_page) e l.pages in
          let tree : IsTree (fresh_page m q rest) root = fresh_page-IsTree m root q rest e l.tree in
          mapped f a q m rest (mappages (fresh_page m q rest) root a pgsize q perm) l
            (omega (arith, l.rounds)) (subst (λ x. AllFree l.tree.0 x) e l.tree.1.spare).0 pages.0
            (one_page-Maps (fresh_page m q rest) root a q perm l.aligned
              (omega (arith, l.rounds, l.aligned, l.aligned_top, l.fits)) tree)
            (mappages-AllPages is_page (fresh_page m q rest) root a pgsize q perm pages.1) ih

  AllocsIn-some :
      (m : Mem) (o : Option (Mem × ℕ))
      → AllocsIn m o
      → (r : Mem × ℕ) × (o ≡ some r) × Allocs is_page m root start top newsz perm r
  unfolding AllocsIn
  AllocsIn-some m none x = absurd x
  AllocsIn-some m (some r) x = (r, refl, x)

user_perm-nonzero : (xperm : ℕ) → user_perm xperm % 1024 / 2 ≢ 0
user_perm-nonzero xperm e = omega arith

-- `uvmalloc` up to `MAXVA`, of pages that are not mapped, ends without a panic. Either it returns the
-- new size and each of the new pages is mapped, with the permissions asked for, to a page that
-- `kfree` takes; or it returns 0 and none of them is mapped. All other addresses keep their entries,
-- and the pages of the table stay a tree. To a smaller size it changes nothing.
pub uvmalloc-Allocs :
    (is_page : ℕ → Bool) (m : Mem) (root oldsz newsz xperm : ℕ)
    → newsz ≤ maxva
    → IsTree m root
    → AllPages is_page m.free
    → ((va : ℕ)
        → pg_round_up oldsz ≤ va
        → va < pg_round_up newsz
        → is_valid (entry m root va) ≡ false)
    → (oldsz ≤ newsz
        → (r : Mem × ℕ) × (uvmalloc is_page m root oldsz newsz xperm ≡ some r)
          × Allocs is_page m root (pg_round_up oldsz) (pg_round_up newsz) newsz (user_perm xperm) r)
      × (newsz < oldsz → uvmalloc is_page m root oldsz newsz xperm ≡ some (m, oldsz))
unfolding uvmalloc
uvmalloc-Allocs is_page m root oldsz newsz xperm fits tree pages invalid = (
  λ le.
      let grows : ltb newsz oldsz ≡ false = ground arith in
      rw (grows, uvmalloc)
        (AllocsIn-some is_page root (pg_round_up oldsz) (pg_round_up newsz) newsz (user_perm xperm)
          m _
          (uvmalloc_from-Allocs is_page root (pg_round_up oldsz) (pg_round_up newsz) newsz
            (user_perm xperm) (newsz / pgsize + 2) m (pg_round_up oldsz)
            (record {
              tree = tree;
              pages = pages;
              aligned_start = omega arith;
              aligned = omega arith;
              aligned_top = omega arith;
              after = omega arith;
              before = omega arith;
              rounds = omega arith;
              up = omega arith;
              fits = omega arith;
              some_perm = user_perm-nonzero xperm;
              ours = λ va lo hi. absurd (omega arith);
              rest = invalid;
            })
            (omega arith))),
  λ lt. (let shrinks : ltb newsz oldsz ≡ true = ground arith in rw (shrinks, uvmalloc) refl),
)

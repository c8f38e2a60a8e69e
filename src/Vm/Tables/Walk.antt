-- ===== src/Vm/Tables/Walk.antt =====
-- `walk`, with and without making the pages that are missing.
use mathlib.Core.Path.{subst}
use os_assignment.Prelude.{
  ℕ, ◌≡◌, refl, sym, ap, ◌∙◌, ◌⊎◌, inl, inr, Bool, true, false, Option, none, some, List, [], ◌∷◌,
  Bool-cases,
}
use os_assignment.Vm.{is_valid, pte2pa, Mem, walk_level, walk_indices}
use os_assignment.Vm.Tables.{
  Place, top, child, IsInner, IsTable, down, in_low, in_mid, lookup, down-some, grown, pair_cases,
}
use os_assignment.Vm.Tables.Grow.{
  grown-IsTable, lookup-grown, grown_down, grown_link, place', same_place, q-ne-inner,
}

-- What a level of `walk` does at page `p` of the tree.
record Level (m : Mem) (root : ℕ) (place : ℕ → Place) (p i : ℕ) (alloc : Bool) (r : Mem × Option ℕ)
    : Type 0 where
  pub new : ℕ → Place
  pub table : IsTable r.0 root new
  pub same : (i2 i1 i0 : ℕ) → lookup r.0 root i2 i1 i0 ≡ lookup m root i2 i1 i0
  pub stays : (x : ℕ) → IsInner (place x) → new x ≡ place x
  pub links : (x k y : ℕ) → IsInner (place x) → down m x k ≡ some y → down r.0 x k ≡ some y
  pub found : (x : ℕ) → r.1 ≡ some x → down r.0 p i ≡ some x
  pub fails : r.1 ≡ none → (down r.0 p i ≡ none) × ((alloc ≡ false) ⊎ (r.0.free ≡ []))
  pub reads : alloc ≡ false → r.0 ≡ m

module _ (m : Mem) (root : ℕ) (place : ℕ → Place) (table : IsTable m root place) (p i : ℕ)
    (inner : IsInner (place p)) where
  unchanged :
      (alloc : Bool) (o : Option ℕ)
      → down m p i ≡ o
      → (o ≡ none → (alloc ≡ false) ⊎ (m.free ≡ []))
      → Level m root place p i alloc (m, o)
  unchanged alloc o e why = record {
    new = place;
    table = table;
    same = λ i2 i1 i0. refl;
    stays = λ x h. refl;
    links = λ x k y h l. l;
    found = λ x e'. e ∙ e';
    fails = λ e'. (e ∙ e', why e');
    reads = λ h. refl;
  }

  added :
      (q : ℕ) (rest : List ℕ)
      → is_valid (m.words p i) ≡ false
      → m.free ≡ q ∷ rest
      → Level m root place p i true (grown m p i q rest, some q)
  added q rest missing first = record {
    new = place' m root place table p i q rest inner missing first;
    table = grown-IsTable m root place table p i q rest inner missing first;
    same = lookup-grown m root place table p i q rest inner missing first;
    stays = λ x h.
        same_place m root place table p i q rest inner missing first x
          (q-ne-inner m root place table p i q rest inner missing first x h);
    links = λ x k y h l. elim (pair_cases x p k i) [
      | inl (e, e') ↦ absurd (
          let (v, is) = down-some m x k y l in
          let v' : is_valid (m.words p i) ≡ true =
            subst (λ z. is_valid (m.words p z) ≡ true) e'
              (subst (λ z. is_valid (m.words z k) ≡ true) e v) in
          cc)
      | inr other ↦
          grown_down m root place table p i q rest inner missing first x k
            (q-ne-inner m root place table p i q rest inner missing first x h) other
          ∙ l
    ];
    found = λ x e. grown_link m root place table p i q rest inner missing first ∙ e;
    fails = λ e. cc;
    reads = λ e. cc;
  }

  walk_level-Level : (alloc : Bool) → Level m root place p i alloc (walk_level m p i alloc)
  unfolding walk_level
  walk_level-Level alloc = elim (Bool-cases (is_valid (m.words p i))) [
    | inl v ↦ rw v (unchanged alloc (some (pte2pa (m.words p i))) (rw v refl) (λ e. cc))
    | inr missing ↦ elim (Bool-cases alloc) [
      | inr no_alloc ↦
          rw (missing, no_alloc) (unchanged false none (rw missing refl) (λ e. inl refl))
      | inl yes_alloc ↦ rw (missing, yes_alloc) (with_free missing m.free refl)
    ]
  ]
    where
      with_free :
          is_valid (m.words p i) ≡ false
          → (l : List ℕ) → m.free ≡ l
          → Level m root place p i true
              (elim l [ [] ↦ (m, none) | q ∷ rest ↦ (grown m p i q rest, some q) ])
      with_free missing [] e = unchanged true none (rw missing refl) (λ e'. inr e)
      with_free missing (q ∷ rest) e = added q rest missing e

-- What `walk` does for the indices of an address. It finds the place `(q, i0)` with `q` the page
-- below the two upper indices; or there is no entry, and it may not make one or no page is free.
pub record Walks (m : Mem) (root i2 i1 i0 : ℕ) (alloc : Bool) (r : Mem × Option (ℕ × ℕ))
    : Type 0 where
  pub new : ℕ → Place
  pub table : IsTable r.0 root new
  pub same : (j2 j1 j0 : ℕ) → lookup r.0 root j2 j1 j0 ≡ lookup m root j2 j1 j0
  pub found :
      (q k : ℕ)
      → r.1 ≡ some (q, k)
      → (k ≡ i0) × ((x : ℕ) × (down r.0 root i2 ≡ some x) × (down r.0 x i1 ≡ some q))
  pub fails : r.1 ≡ none → (lookup m root i2 i1 i0 ≡ 0) × ((alloc ≡ false) ⊎ (r.0.free ≡ []))
  pub reads : alloc ≡ false → r.0 ≡ m

missing_mid : (m : Mem) (root i2 i1 i0 : ℕ) → down m root i2 ≡ none → lookup m root i2 i1 i0 ≡ 0
unfolding lookup
missing_mid m root i2 i1 i0 e = ap (λ o. in_mid m o i1 i0) e

missing_low :
    (m : Mem) (root i2 i1 i0 x : ℕ)
    → down m root i2 ≡ some x
    → down m x i1 ≡ none
    → lookup m root i2 i1 i0 ≡ 0
unfolding lookup
missing_low m root i2 i1 i0 x e e' = ap (λ o. in_mid m o i1 i0) e ∙ ap (λ o. in_low m o i0) e'

walk_second :
    (m m1 : Mem) (root i2 i1 i0 x : ℕ) (place : ℕ → Place) (alloc : Bool)
    → IsTable m root place
    → (lv : Level m root place root i2 alloc (m1, some x)) → (r : Mem × Option ℕ)
    → Level m1 root lv.new x i1 alloc r
    → IsInner (lv.new root)
    → Walks m root i2 i1 i0 alloc (elim r.1 [ none ↦ (r.0, none) | some q ↦ (r.0, some (q, i0)) ])
walk_second m m1 root i2 i1 i0 x place alloc table lv (m2, none) lv' inner = record {
  new = lv'.new;
  table = lv'.table;
  same = λ j2 j1 j0. lv'.same j2 j1 j0 ∙ lv.same j2 j1 j0;
  found = λ q k e. absurd (cc);
  fails = λ e. (
    (sym (lv.same i2 i1 i0)
        ∙ sym (lv'.same i2 i1 i0)
        ∙ missing_low m2 root i2 i1 i0 x (lv'.links root i2 x inner (lv.found x refl))
            (lv'.fails refl).0),
    (lv'.fails refl).1,
  );
  reads = λ e. lv'.reads e ∙ lv.reads e;
}
walk_second m m1 root i2 i1 i0 x place alloc table lv (m2, some q) lv' inner = record {
  new = lv'.new;
  table = lv'.table;
  same = λ j2 j1 j0. lv'.same j2 j1 j0 ∙ lv.same j2 j1 j0;
  found = λ q' k e.
      let eq : q ≡ q' = cc in
      let ek : k ≡ i0 = cc in
      (ek, (x, lv'.links root i2 x inner (lv.found x refl), lv'.found q refl ∙ ap some eq));
  fails = λ e. cc;
  reads = λ e. lv'.reads e ∙ lv.reads e;
}

-- `walk` on a tree of pages gives a tree again, in which every address has the entry that it had.
pub walk_indices-Walks :
    (m : Mem) (root i2 i1 i0 : ℕ) (place : ℕ → Place) (alloc : Bool)
    → IsTable m root place
    → Walks m root i2 i1 i0 alloc (walk_indices m root i2 i1 i0 alloc)
unfolding walk_indices
walk_indices-Walks m root i2 i1 i0 place alloc table =
    go (walk_level m root i2 alloc) (walk_level-Level m root place table root i2 inner alloc)
  where
    inner : IsInner (place root)
    inner = subst IsInner (sym table.at_top) tt

    go :
        (r : Mem × Option ℕ)
        → Level m root place root i2 alloc r
        → Walks m root i2 i1 i0 alloc (
            let r' : ℕ → Mem × Option ℕ = λ p. walk_level r.0 p i1 alloc in
            elim r.1 [
              | none ↦ (r.0, none)
              | some p ↦ elim (r' p).1 [
                | none ↦ ((r' p).0, none)
                | some q ↦ ((r' p).0, some (q, i0))
              ]
            ])
    go (m1, none) lv = record {
      new = lv.new;
      table = lv.table;
      same = lv.same;
      found = λ q k e. absurd (cc);
      fails = λ e. (
        sym (lv.same i2 i1 i0) ∙ missing_mid m1 root i2 i1 i0 (lv.fails refl).0,
        (lv.fails refl).1,
      );
      reads = lv.reads;
    }
    go (m1, some x) lv =
        walk_second m m1 root i2 i1 i0 x place alloc table lv (walk_level m1 x i1 alloc)
          (walk_level-Level m1 root lv.new lv.table x i1 (inner_x x lv) alloc)
          (subst IsInner (sym (lv.stays root inner)) inner)
      where
        inner_x : (x : ℕ) (lv : Level m root place root i2 alloc (m1, some x)) → IsInner (lv.new x)
        inner_x x lv =
            let (v, is) = down-some m1 root i2 x (lv.found x refl) in
            let top_place : lv.new root ≡ top = lv.table.at_top in
            subst IsInner
              (sym (
                ap lv.new is
                ∙ lv.table.below root i2 (subst IsInner (sym top_place) tt) v
                ∙ ap (λ z. child z i2) top_place))
              tt

-- ===== src/Vm/Tables/Grow.antt =====
-- A page that `walk` adds to a page table.
use mathlib.Core.Path.{subst}
use os_assignment.Prelude.{
  ℕ, ◌+◌, ◌≡◌, ◌≢◌, refl, sym, ap, ◌∙◌, ◌⊎◌, inl, inr, true, false, Option, none, some, List, ◌∷◌,
  arith, ℕ_discrete, update, update-eq, update-ne, Option-cases,
}
use os_assignment.Vm.{is_valid, pte2pa, pa2pte, Mem, zero_page}
use os_assignment.Vm.Tables.{
  Place, outside, mid, low, IsTable, child, IsInner, IsPage, AllFree, down, in_low, in_mid, lookup,
  grown, set_word-same, set_word-other, zeroed, not_zeroed, pair_cases, child-inside, as_page,
  valid_odd, down-some, AllFree-update,
}

module _ (m : Mem) (root : ℕ) (place : ℕ → Place) (table : IsTable m root place) (p i q : ℕ)
    (rest : List ℕ) (inner : IsInner (place p)) (missing : is_valid (m.words p i) ≡ false)
    (first : m.free ≡ q ∷ rest) where
  facts : AllFree place (q ∷ rest)
  facts = subst (AllFree place) first table.spare

  pub q-ne-inner : (r : ℕ) → IsInner (place r) → r ≢ q
  q-ne-inner r h e = subst IsInner (ap place e ∙ facts.1) h

  pub place' : ℕ → Place
  place' = update place q (child (place p) i)

  pub same_place : (r : ℕ) → r ≢ q → place' r ≡ place r
  unfolding place'
  same_place r ne = update-ne place q r _ (λ e. ne (sym e))

  q-ne-child :
      (r k : ℕ)
      → IsInner (place r)
      → place (pte2pa (m.words r k)) ≡ child (place r) k
      → pte2pa (m.words r k) ≢ q
  q-ne-child r k h e same = child-inside (place r) k h (sym e ∙ ap place same ∙ facts.1)

  words' : ℕ → ℕ → ℕ
  words' = (grown m p i q rest).words

  linked : words' p i ≡ pa2pte q + 1
  unfolding words'
  linked = set_word-same (zero_page m.words q) p i _

  empty : (k : ℕ) → words' q k ≡ 0
  unfolding words'
  empty k =
      set_word-other (zero_page m.words q) p i q k _ (inl (λ e. q-ne-inner p inner (sym e)))
      ∙ zeroed m.words q k

  kept : (r k : ℕ) → r ≢ q → (r ≢ p) ⊎ (k ≢ i) → words' r k ≡ m.words r k
  unfolding words'
  kept r k ne other =
      set_word-other (zero_page m.words q) p i r k _ other ∙ not_zeroed m.words q r k ne

  new_pa : pte2pa (words' p i) ≡ q
  new_pa = ap pte2pa linked ∙ let page : IsPage q = facts.0 in omega arith

  pub new_place : place' q ≡ child (place p) i
  unfolding place'
  new_place = update-eq place q q _ refl

  below' :
      (r k : ℕ)
      → IsInner (place' r)
      → is_valid (words' r k) ≡ true
      → place' (pte2pa (words' r k)) ≡ child (place' r) k
  below' r k h v = elim (ℕ_discrete r q) [
    | yes e ↦ absurd (
        let z : words' q k ≡ 0 = empty k in
        let v' : is_valid (words' q k) ≡ true = subst (λ x. is_valid (words' x k) ≡ true) e v in
        let v'' : is_valid 0 ≡ true = subst (λ x. is_valid x ≡ true) z v' in cc)
    | no ne ↦ elim (pair_cases r p k i) [
      | inl (e, e') ↦
          rw (e, e')
            (ap place' new_pa
              ∙ new_place
              ∙ ap (λ x. child x i) (sym (same_place p (q-ne-inner p inner))))
      | inr other ↦
          let w : words' r k ≡ m.words r k = kept r k ne other in
          let h' : IsInner (place r) = subst IsInner (same_place r ne) h in
          let old : place (pte2pa (m.words r k)) ≡ child (place r) k =
            table.below r k h' (subst (λ x. is_valid x ≡ true) w v) in
          ap (λ x. place' (pte2pa x)) w
          ∙ same_place (pte2pa (m.words r k)) (q-ne-child r k h' old)
          ∙ old
          ∙ ap (λ x. child x k) (sym (same_place r ne))
    ]
  ]

  pub grown-IsTable : IsTable (grown m p i q rest) root place'
  unfolding place' words'
  grown-IsTable = record {
    at_top = same_place root (q-ne-inner root (subst IsInner (sym table.at_top) tt)) ∙ table.at_top;
    below = below';
    spare = AllFree-update place q _ rest facts.2 facts.3;
  }

  -- What a page of the tree shows after that.
  pub grown_down :
      (r k : ℕ) → r ≢ q → (r ≢ p) ⊎ (k ≢ i) → down (grown m p i q rest) r k ≡ down m r k
  unfolding words'
  grown_down r k ne other = ap as_page (kept r k ne other)

  pub grown_link : down (grown m p i q rest) p i ≡ some q
  unfolding words'
  grown_link =
      rw (let e : is_valid (words' p i) ≡ true = ap is_valid linked ∙ valid_odd q in e)
        (ap some new_pa)

  grown_empty : (k : ℕ) → down (grown m p i q rest) q k ≡ none
  unfolding words'
  grown_empty k = ap as_page (empty k)

  was_missing : down m p i ≡ none
  was_missing = rw missing refl

  low_same : (y k : ℕ) → y ≢ q → y ≢ p → (grown m p i q rest).words y k ≡ m.words y k
  unfolding words'
  low_same y k ne ne' = kept y k ne (inl ne')

  -- A page below one that is reached is not the new page, and below a page `mid j` it is not `p`.
  low_view :
      (o : Option ℕ) (k : ℕ)
      → ((y : ℕ) → o ≡ some y → (y ≢ q) × (y ≢ p))
      → in_low (grown m p i q rest) o k ≡ in_low m o k
  low_view none k h = refl
  low_view (some y) k h = low_same y k (h y refl).0 (h y refl).1

  mid_view :
      (x j i1 i0 : ℕ)
      → place x ≡ mid j
      → in_mid (grown m p i q rest) (some x) i1 i0 ≡ in_mid m (some x) i1 i0
  unfolding words'
  mid_view x j i1 i0 at = elim (pair_cases x p i1 i) [
    | inl (e, e') ↦
        ap (λ o. in_low (grown m p i q rest) o i0)
          (ap (λ z. down (grown m p i q rest) z i1) e
            ∙ ap (down (grown m p i q rest) p) e'
            ∙ grown_link)
        ∙ empty_q
        ∙ sym (ap (λ o. in_low m o i0) (ap (λ z. down m z i1) e ∙ ap (down m p) e' ∙ was_missing))
    | inr other ↦
        ap (λ o. in_low (grown m p i q rest) o i0) (grown_down x i1 (q-ne-inner x inner_x) other)
        ∙ low_view (down m x i1) i0 low_below
  ]
    where
      inner_x : IsInner (place x)
      inner_x = subst IsInner (sym at) tt

      empty_q : (grown m p i q rest).words q i0 ≡ 0
      empty_q = empty i0

      low_below : (y : ℕ) → down m x i1 ≡ some y → (y ≢ q) × (y ≢ p)
      low_below y e =
          let (v, is) = down-some m x i1 y e in
          let at_y : place y ≡ low j i1 =
            ap place is ∙ table.below x i1 inner_x v ∙ ap (λ z. child z i1) at in
          (
            (λ e'. absurd (let out : place y ≡ outside = ap place e' ∙ facts.1 in cc)),
            (λ e'. subst IsInner (sym (ap place e') ∙ at_y) inner),
          )

  -- Making a missing page changes no entry.
  pub lookup-grown :
      (i2 i1 i0 : ℕ) → lookup (grown m p i q rest) root i2 i1 i0 ≡ lookup m root i2 i1 i0
  unfolding lookup
  lookup-grown i2 i1 i0 = elim (pair_cases root p i2 i) [
    | inl (e, e') ↦
        ap (λ o. in_mid (grown m p i q rest) o i1 i0)
          (ap (λ z. down (grown m p i q rest) z i2) e
            ∙ ap (down (grown m p i q rest) p) e'
            ∙ grown_link)
        ∙ ap (λ o. in_low (grown m p i q rest) o i0) (grown_empty i1)
        ∙ sym
            (ap (λ o. in_mid m o i1 i0) (ap (λ z. down m z i2) e ∙ ap (down m p) e' ∙ was_missing))
    | inr other ↦
        ap (λ o. in_mid (grown m p i q rest) o i1 i0)
          (grown_down root i2 (q-ne-inner root inner_root) other)
        ∙ top_view (Option-cases (down m root i2))
  ]
    where
      inner_root : IsInner (place root)
      inner_root = subst IsInner (sym table.at_top) tt

      top_view :
          (down m root i2 ≡ none) ⊎ ((x : ℕ) × (down m root i2 ≡ some x))
          → in_mid (grown m p i q rest) (down m root i2) i1 i0 ≡ in_mid m (down m root i2) i1 i0
      top_view (inl e) = rw e refl
      top_view (inr (x, e)) =
          let (v, is) = down-some m root i2 x e in
          ap (λ o. in_mid (grown m p i q rest) o i1 i0) e
          ∙ mid_view x i2 i1 i0
              (ap place is ∙ table.below root i2 inner_root v ∙ ap (λ z. child z i2) table.at_top)
          ∙ sym (ap (λ o. in_mid m o i1 i0) e)

-- ===== src/Grep/Matcher.antt =====
-- The matcher finds just the texts with a part in the language of the pattern, which is described
-- here with no order of search.
pub mod Language
use mathlib.Core.Path.{subst}
use os_assignment.Prelude.{
  and_left, and_right, and_intro, or_cases, or_left, or_right, ℕ, ◌≡◌, ◌≢◌, refl, sym, ap, ◌∙◌, ◌↔◌,
  ◌⊎◌, inl, inr, Bool, true, false, ◌&&◌, ◌||◌, List, [], ◌∷◌, ◌++◌, arith, ◌==◌, if◌then◌else◌,
  ==_iff, Bool-cases,
}
use os_assignment.Grep.{fits, matchstar, matchone, is_end, matchhere, search_from, matches}
use os_assignment.Grep.Matcher.Language.{
  head-eq, tail-eq, Item, one, star, items, anchored, empty, Begins, Begins-byte, Begins-leave,
  Begins-more, Begins-nil_inv, one_inv, star_inv,
}

abbrev Decides : (List ℕ → Bool) → List Item → Bool → Type 0
Decides here is e = (s : List ℕ) → (here s ≡ true) ↔ Begins is e s

no_byte : {c : ℕ} {is : List Item} {e : Bool} → Begins (one c ∷ is) e [] → ⊥
no_byte b = let (t, text, eq, h, r) = one_inv b.part b.spelled b.split b.whole in cc

one_inv-cons :
    {c t : ℕ} {is : List Item} {e : Bool} {text : List ℕ}
    → Begins (one c ∷ is) e (t ∷ text)
    → (fits c t ≡ true) × Begins is e text
one_inv-cons {c} {is} {e} b =
    let (t', text', eq, h, r) = one_inv b.part b.spelled b.split b.whole in
    (
      subst (λ x. fits c x ≡ true) (sym (head-eq eq)) h,
      subst (λ x. Begins is e x) (sym (tail-eq eq)) r,
    )

matchone_iff :
    (here : List ℕ → Bool) (is : List Item) (e : Bool) (c : ℕ)
    → Decides here is e
    → Decides (matchone here c) (one c ∷ is) e
unfolding matchone
matchone_iff here is e c d [] = ((λ h. cc), λ b. absurd (no_byte b))
matchone_iff here is e c d (t ∷ text) = (
  λ h. Begins-byte (and_left _ _ h) ((d text).0 (and_right _ _ h)),
  λ b. and_intro _ _ (one_inv-cons b).0 ((d text).1 (one_inv-cons b).1),
)

fits_swap : (c t : ℕ) → (t == c || c == b'.') ≡ fits c t
fits_swap c t = ground arith

star_inv-cons :
    {c t : ℕ} {is : List Item} {e : Bool} {text : List ℕ}
    → Begins (star c ∷ is) e (t ∷ text)
    → Begins is e (t ∷ text) ⊎ ((fits c t ≡ true) × Begins (star c ∷ is) e text)
star_inv-cons {c} {is} {e} b = elim (star_inv b.part b.spelled b.split b.whole) [
  | inl r ↦ inl r
  | inr (t', text', eq, h, r) ↦ inr (
    subst (λ x. fits c x ≡ true) (sym (head-eq eq)) h,
    subst (λ x. Begins (star c ∷ is) e x) (sym (tail-eq eq)) r,
  )
]

star_inv-nil : {c : ℕ} {is : List Item} {e : Bool} → Begins (star c ∷ is) e [] → Begins is e []
star_inv-nil b = elim (star_inv b.part b.spelled b.split b.whole) [
  | inl r ↦ r
  | inr (t', text', eq, h, r) ↦ absurd (cc)
]

matchstar_iff :
    (here : List ℕ → Bool) (is : List Item) (e : Bool) (c : ℕ)
    → Decides here is e
    → Decides (matchstar here c) (star c ∷ is) e
unfolding matchstar
matchstar_iff here is e c d [] = (λ h. Begins-leave ((d []).0 h), λ b. (d []).1 (star_inv-nil b))
matchstar_iff here is e c d (t ∷ text) = (
  λ h. elim (or_cases _ _ h) [
    | inl now ↦ Begins-leave ((d (t ∷ text)).0 now)
    | inr later ↦
        Begins-more (sym (fits_swap c t) ∙ and_left _ _ later)
          ((matchstar_iff here is e c d text).0 (and_right _ _ later))
  ],
  λ b. elim (star_inv-cons b) [
    | inl now ↦ or_left _ _ ((d (t ∷ text)).1 now)
    | inr (h, later) ↦
        or_right _ _
          (and_intro _ _ (fits_swap c t ∙ h) ((matchstar_iff here is e c d text).1 later))
  ],
)

nil-Begins : (s : List ℕ) → Begins [] false s
nil-Begins s = record { part = []; rest = s; split = refl; spelled = empty; whole = λ h. cc }

is_end_iff : Decides is_end [] true
unfolding is_end
is_end_iff [] = (
  (λ h. record { part = []; rest = []; split = refl; spelled = empty; whole = λ e. refl }),
  λ b. refl,
)
is_end_iff (t ∷ s) = ((λ h. cc), λ b. let e : t ∷ s ≡ [] = Begins-nil_inv b refl in cc)

-- `matchhere` returns 1 just when the text begins with a part in the language of the pattern, which
-- is all of the text if the pattern ends in `$`.
pub matchhere_iff :
    (re text : List ℕ) → (matchhere re text ≡ true) ↔ Begins (items re) (anchored re) text
unfolding matchhere items anchored
matchhere_iff [] text = ((λ h. nil-Begins text), λ b. refl)
matchhere_iff (c ∷ []) text = elim (Bool-cases (c == b'$')) [
  | inl dollar ↦ rw dollar (is_end_iff text)
  | inr byte_c ↦
      rw byte_c (matchone_iff (λ s. true) [] false c (λ s. ((λ h. nil-Begins s), λ b. refl)) text)
]
matchhere_iff (c ∷ d ∷ re) text = elim (Bool-cases (d == b'*')) [
  | inl star_c ↦
      rw (star_c, matchhere, items, anchored)
        (matchstar_iff (λ s. matchhere re s) (items re) (anchored re) c (λ s. matchhere_iff re s)
          text)
  | inr byte_c ↦
      rw (byte_c, matchhere, items, anchored)
        (matchone_iff (λ s. matchhere (d ∷ re) s) (items (d ∷ re)) (anchored (d ∷ re)) c
          (λ s. matchhere_iff (d ∷ re) s) text)
]

-- A text with a suffix that begins so.
pub record Occurs (re text : List ℕ) : Type 0 where
  pub before : List ℕ
  pub after : List ℕ
  pub split : text ≡ before ++ after
  pub begins : Begins (items re) (anchored re) after

-- What a match of a whole pattern is.
abbrev pub IsMatch : List ℕ → List ℕ → Type 0
IsMatch [] text = Occurs [] text
IsMatch (c ∷ re) text =
    ((c ≡ b'^') × Begins (items re) (anchored re) text) ⊎ ((c ≢ b'^') × Occurs (c ∷ re) text)

Occurs-later : {re text : List ℕ} (t : ℕ) → Occurs re text → Occurs re (t ∷ text)
Occurs-later t o = record {
  before = t ∷ o.before;
  after = o.after;
  split = ap (λ l. t ∷ l) o.split;
  begins = o.begins;
}

Occurs-cases :
    {re text : List ℕ} (t : ℕ)
    → Occurs re (t ∷ text)
    → Begins (items re) (anchored re) (t ∷ text) ⊎ Occurs re text
Occurs-cases {re} {text} t o = go o.before o.split
  where
    go :
        (b : List ℕ)
        → t ∷ text ≡ b ++ o.after
        → Begins (items re) (anchored re) (t ∷ text) ⊎ Occurs re text
    go [] e = inl (subst (λ x. Begins (items re) (anchored re) x) (sym e) o.begins)
    go (x ∷ b) e =
        inr (record { before = b; after = o.after; split = tail-eq e; begins = o.begins })

search_from_iff :
    (re text : List ℕ) → (search_from (λ s. matchhere re s) text ≡ true) ↔ Occurs re text
unfolding search_from
search_from_iff re [] = (
  λ h. record { before = []; after = []; split = refl; begins = (matchhere_iff re []).0 h },
  λ o. (matchhere_iff re []).1 (at_end o.before o.after o.split o.begins),
)
  where
    at_end :
        (b a : List ℕ)
        → ◌≡◌ {A = List ℕ} [] (b ++ a)
        → Begins (items re) (anchored re) a
        → Begins (items re) (anchored re) []
    at_end [] a e r = subst (λ x. Begins (items re) (anchored re) x) (sym e) r
    at_end (x ∷ b) a e r = absurd (cc)
search_from_iff re (t ∷ text) = (
  λ h. elim (or_cases _ _ h) [
    | inl now ↦ record {
      before = [];
      after = t ∷ text;
      split = refl;
      begins = (matchhere_iff re (t ∷ text)).0 now;
    }
    | inr later ↦ Occurs-later t ((search_from_iff re text).0 later)
  ],
  λ o. elim (Occurs-cases t o) [
    | inl now ↦ or_left _ _ ((matchhere_iff re (t ∷ text)).1 now)
    | inr later ↦ or_right _ _ ((search_from_iff re text).1 later)
  ],
)

-- `match` returns 1 just when the text, or with no `^` in front of the pattern one of its suffixes,
-- begins with a part in the language of the pattern, which is all that is left if the pattern ends
-- in `$`.
pub matches_iff : (re text : List ℕ) → (matches re text ≡ true) ↔ IsMatch re text
unfolding matches
matches_iff [] text = search_from_iff [] text
matches_iff (c ∷ re) text = elim (Bool-cases (c == b'^')) [
  | inl hat ↦ rw hat (
    (λ h. inl ((==_iff c b'^').0 hat, (matchhere_iff re text).0 h)),
    λ m. elim m [
      | inl (e, b) ↦ (matchhere_iff re text).1 b
      | inr (ne, o) ↦ absurd (ne ((==_iff c b'^').0 hat))
    ],
  )
  | inr plain ↦ rw plain (
    (λ h. inr (ground arith, (search_from_iff (c ∷ re) text).0 h)),
    λ m. elim m [
      | inl (e, b) ↦ absurd (ground arith)
      | inr (ne, o) ↦ (search_from_iff (c ∷ re) text).1 o
    ],
  )
]

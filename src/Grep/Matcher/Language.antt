-- ===== src/Grep/Matcher/Language.antt =====
-- The language of a pattern, by itself: what its items spell.
use os_assignment.Prelude.{
  ℕ, ◌≡◌, refl, ap, ◌∙◌, ◌⊎◌, inl, inr, Bool, true, false, List, [], ◌∷◌, ◌++◌, ◌==◌, if◌then◌else◌,
}
use os_assignment.Grep.{fits}

pub head-eq : {x y : ℕ} {xs ys : List ℕ} → x ∷ xs ≡ y ∷ ys → x ≡ y
head-eq h = cc

pub tail-eq : {x y : ℕ} {xs ys : List ℕ} → x ∷ xs ≡ y ∷ ys → xs ≡ ys
tail-eq h = cc

pub data Item : Type 0 where
  one : ℕ → Item
  star : ℕ → Item

-- The items of a pattern without its `^`, and whether it ends in `$`.
unfoldable pub items : List ℕ → List Item
items [] = []
items (c ∷ []) = if c == b'$' then [] else one c ∷ []
items (c ∷ d ∷ re) = elim (d == b'*') [ true ↦ star c ∷ items re | false ↦ one c ∷ items (d ∷ re) ]

unfoldable pub anchored : List ℕ → Bool
anchored [] = false
anchored (c ∷ []) = c == b'$'
anchored (c ∷ d ∷ re) = elim (d == b'*') [ true ↦ anchored re | false ↦ anchored (d ∷ re) ]

-- The language of a list of items.
pub data Spells : List Item → List ℕ → Type 0 where
  empty : Spells [] []
  byte :
      {c t : ℕ} {is : List Item} {m : List ℕ}
      → fits c t ≡ true
      → Spells is m
      → Spells (one c ∷ is) (t ∷ m)
  leave : {c : ℕ} {is : List Item} {m : List ℕ} → Spells is m → Spells (star c ∷ is) m
  more :
      {c t : ℕ} {is : List Item} {m : List ℕ}
      → fits c t ≡ true
      → Spells (star c ∷ is) m
      → Spells (star c ∷ is) (t ∷ m)

-- A text that begins with a part in the language, which is all of it if `e` says so.
pub record Begins (is : List Item) (e : Bool) (text : List ℕ) : Type 0 where
  pub part : List ℕ
  pub rest : List ℕ
  pub split : text ≡ part ++ rest
  pub spelled : Spells is part
  pub whole : e ≡ true → rest ≡ []

pub Begins-byte :
    {c t : ℕ} {is : List Item} {e : Bool} {text : List ℕ}
    → fits c t ≡ true
    → Begins is e text
    → Begins (one c ∷ is) e (t ∷ text)
Begins-byte {t} h b = record {
  part = t ∷ b.part;
  rest = b.rest;
  split = ap (λ l. t ∷ l) b.split;
  spelled = byte h b.spelled;
  whole = b.whole;
}

pub Begins-leave :
    {c : ℕ} {is : List Item} {e : Bool} {text : List ℕ}
    → Begins is e text
    → Begins (star c ∷ is) e text
Begins-leave b = record {
  part = b.part;
  rest = b.rest;
  split = b.split;
  spelled = leave b.spelled;
  whole = b.whole;
}

pub Begins-more :
    {c t : ℕ} {is : List Item} {e : Bool} {text : List ℕ}
    → fits c t ≡ true
    → Begins (star c ∷ is) e text
    → Begins (star c ∷ is) e (t ∷ text)
Begins-more {t} h b = record {
  part = t ∷ b.part;
  rest = b.rest;
  split = ap (λ l. t ∷ l) b.split;
  spelled = more h b.spelled;
  whole = b.whole;
}

-- What a text that begins so looks like, by its first item.
pub Begins-nil_inv : {e : Bool} {text : List ℕ} → Begins [] e text → e ≡ true → text ≡ []
Begins-nil_inv b h = go b.part b.spelled b.split (b.whole h)
  where
    go :
        (p : List ℕ) → Spells [] p → {text rest : List ℕ} → text ≡ p ++ rest → rest ≡ [] → text ≡ []
    go _ empty e r = e ∙ r

pub one_inv :
    {c : ℕ} {is : List Item} {e : Bool} (p : List ℕ) {rest text : List ℕ}
    → Spells (one c ∷ is) p
    → text ≡ p ++ rest
    → (e ≡ true → rest ≡ [])
    → (t : ℕ) × (text' : List ℕ) × (text ≡ t ∷ text') × (fits c t ≡ true) × Begins is e text'
one_inv _ {rest} (byte {t} {m} h d) e w =
    (t, m ++ rest, e, h, record { part = m; rest = rest; split = refl; spelled = d; whole = w })

pub star_inv :
    {c : ℕ} {is : List Item} {e : Bool} (p : List ℕ) {rest text : List ℕ}
    → Spells (star c ∷ is) p
    → text ≡ p ++ rest
    → (e ≡ true → rest ≡ [])
    → Begins is e text
      ⊎ ((t : ℕ) × (text' : List ℕ) × (text ≡ t ∷ text')
          × (fits c t ≡ true)
          × Begins (star c ∷ is) e text')
star_inv p {rest} (leave d) e w =
    inl (record { part = p; rest = rest; split = e; spelled = d; whole = w })
star_inv _ {rest} (more {t} {m} h d) e w =
    inr (t, m ++ rest, e, h, record { part = m; rest = rest; split = refl; spelled = d; whole = w })

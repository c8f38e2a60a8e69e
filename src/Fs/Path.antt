-- ===== src/Fs/Path.antt =====
-- The paths of kernel/fs.c: `skipelem`, and the elements that the loop of `namex` takes one by one.
-- A path is the list of its bytes up to the NUL.
use mathlib.Core.Path.{subst}
use os_assignment.Prelude.{
  ℕ, zero, suc, ◌≤◌, ◌<◌, ◌≡◌, refl, sym, ap, ◌∙◌, inl, inr, true, false, Option, none, some, List,
  [], ◌∷◌, arith, leb, ◌==◌, if◌then◌else◌, Bool-cases, length, take,
}

abbrev pub dirsiz : ℕ
dirsiz = 14

-- `while(*path == '/') path++;`
unfoldable pub skip_slashes : List ℕ → List ℕ
skip_slashes [] = []
skip_slashes (c ∷ path) = let rest = skip_slashes path in if c == b'/' then rest else c ∷ path

-- `while(*path != '/' && *path != 0) path++;`: what it passes over, and what is left.
unfoldable pub element : List ℕ → List ℕ × List ℕ
element [] = ([], [])
element (c ∷ path) = let r = element path in if c == b'/' then ([], c ∷ path) else (c ∷ r.0, r.1)

-- What `skipelem` copies of an element.
abbrev pub clipped : List ℕ → List ℕ
clipped s = if leb dirsiz (length s) then take dirsiz s else s

-- The name and the path that follows; `none` is the null pointer.
unfoldable pub skipelem : List ℕ → Option (List ℕ × List ℕ)
unfolding skip_slashes element
skipelem path = elim (skip_slashes path) [
  | [] ↦ none
  | c ∷ s ↦ let r = element (c ∷ s) in some (clipped r.0, skip_slashes r.1)
]

-- The elements that the calls of `skipelem` in the loop of `namex` give, with fuel.
unfoldable pub names_from : ℕ → List ℕ → Option (List (List ℕ))
unfolding skipelem
names_from zero path = none
names_from (suc f) path = elim (skipelem path) [
  | none ↦ some []
  | some (name, rest) ↦ elim (names_from f rest) [ none ↦ none | some names ↦ some (name ∷ names) ]
]

-- The parts of a path between slashes, the first of them first: `word` is what comes before.
unfoldable pub parts : List ℕ → List (List ℕ)
parts [] = [] ∷ []
parts (c ∷ path) = elim (parts path) [
  | [] ↦ []
  | p ∷ ps ↦ if c == b'/' then [] ∷ p ∷ ps else (c ∷ p) ∷ ps
]

-- The parts that are not empty, cut to the size of a name.
unfoldable pub names_of : List (List ℕ) → List (List ℕ)
names_of [] = []
names_of ([] ∷ ps) = names_of ps
names_of ((c ∷ p) ∷ ps) = take dirsiz (c ∷ p) ∷ names_of ps

-- A first byte that is a slash, and one that is not.
skip_slash :
    (c : ℕ) (path : List ℕ) → (c == b'/') ≡ true → skip_slashes (c ∷ path) ≡ skip_slashes path
unfolding skip_slashes
skip_slash c path e = rw (e, skip_slashes) refl

skip_other : (c : ℕ) (path : List ℕ) → (c == b'/') ≡ false → skip_slashes (c ∷ path) ≡ c ∷ path
unfolding skip_slashes
skip_other c path e = rw (e, skip_slashes) refl

element_slash : (c : ℕ) (path : List ℕ) → (c == b'/') ≡ true → element (c ∷ path) ≡ ([], c ∷ path)
unfolding element
element_slash c path e = rw (e, element) refl

element_other :
    (c : ℕ) (path : List ℕ)
    → (c == b'/') ≡ false
    → element (c ∷ path) ≡ (c ∷ (element path).0, (element path).1)
unfolding element
element_other c path e = rw (e, element) refl

parts_slash :
    (c : ℕ) (path : List ℕ)
    → (c == b'/') ≡ true
    → names_of (parts (c ∷ path)) ≡ names_of (parts path)
unfolding parts names_of
parts_slash c path e = go (parts path)
  where
    go :
        (l : List (List ℕ))
        → names_of (elim l as (λ x. List (List ℕ)) [
          | [] ↦ []
          | p ∷ ps ↦ if c == b'/' then [] ∷ p ∷ ps else (c ∷ p) ∷ ps
        ])
          ≡ names_of l
    go [] = refl
    go (p ∷ ps) = rw e refl

parts_other :
    (c : ℕ) (path p : List ℕ) (ps : List (List ℕ))
    → (c == b'/') ≡ false
    → parts path ≡ p ∷ ps
    → parts (c ∷ path) ≡ (c ∷ p) ∷ ps
unfolding parts
parts_other c path p ps e at = rw (at, e, parts) refl

parts_first :
    (c : ℕ) (path p : List ℕ) (ps : List (List ℕ))
    → (c == b'/') ≡ true
    → parts path ≡ p ∷ ps
    → parts (c ∷ path) ≡ [] ∷ p ∷ ps
unfolding parts
parts_first c path p ps e at = rw (at, e, parts) refl

names_of-skip : (path : List ℕ) → names_of (parts (skip_slashes path)) ≡ names_of (parts path)
unfolding skip_slashes
names_of-skip [] = refl
names_of-skip (c ∷ path) = elim (Bool-cases (c == b'/')) [
  | inl slash ↦
      ap (λ x. names_of (parts x)) (skip_slash c path slash)
      ∙ names_of-skip path
      ∙ sym (parts_slash c path slash)
  | inr other ↦ ap (λ x. names_of (parts x)) (skip_other c path other)
]

-- An element is the first part.
Leads : List ℕ → List ℕ × List ℕ → Type 0
Leads path r = (ps : List (List ℕ)) × (parts path ≡ r.0 ∷ ps) × (names_of (parts r.1) ≡ names_of ps)

element-Leads : (path : List ℕ) → Leads path (element path)
unfolding parts names_of element Leads
element-Leads [] = ([], refl, refl)
element-Leads (c ∷ path) = elim (Bool-cases (c == b'/')) [
  | inl slash ↦
      let (ps, at, rest) = element-Leads path in
      subst (Leads (c ∷ path)) (sym (element_slash c path slash)) (
        parts path,
        parts_first c path (element path).0 ps slash at ∙ ap (λ x. [] ∷ x) (sym at),
        parts_slash c path slash,
      )
  | inr other ↦
      let (ps, at, rest) = element-Leads path in
      subst (Leads (c ∷ path)) (sym (element_other c path other))
        (ps, parts_other c path (element path).0 ps other at, rest)
]

length-skip : (path : List ℕ) → length (skip_slashes path) ≤ length path
unfolding skip_slashes
length-skip [] = omega arith
length-skip (c ∷ path) = elim (Bool-cases (c == b'/')) [
  | inl slash ↦ rw slash (omega (arith, length-skip path))
  | inr other ↦ rw other (omega arith)
]

length-element : (path : List ℕ) → length (element path).1 ≤ length path
unfolding element
length-element [] = omega arith
length-element (c ∷ path) = elim (Bool-cases (c == b'/')) [
  | inl slash ↦ rw slash (omega arith)
  | inr other ↦ rw other (omega (arith, length-element path))
]

-- `skip_slashes` does not stop at a slash.
skip-stops : (path : List ℕ) (c : ℕ) (s : List ℕ) → skip_slashes path ≡ c ∷ s → (c == b'/') ≡ false
unfolding skip_slashes
skip-stops [] c s e = absurd (cc)
skip-stops (d ∷ path) c s e = elim (Bool-cases (d == b'/')) [
  | inl slash ↦ skip-stops path c s (sym (skip_slash d path slash) ∙ e)
  | inr other ↦
      let same : d ∷ path ≡ c ∷ s = sym (skip_other d path other) ∙ e in
      let first : d ≡ c = cc in ap (λ x. x == b'/') (sym first) ∙ other
]

take_all : (n : ℕ) (xs : List ℕ) → length xs ≤ n → take n xs ≡ xs
take_all zero [] h = refl
take_all zero (x ∷ xs) h = absurd (omega arith)
take_all (suc n) [] h = refl
take_all (suc n) (x ∷ xs) h = ap (λ l. x ∷ l) (take_all n xs (omega arith))

cut_name : (name : List ℕ) → clipped name ≡ take dirsiz name
cut_name name = elim (Bool-cases (leb dirsiz (length name))) [
  | inl long ↦ rw long refl
  | inr short ↦ rw short (sym (take_all dirsiz name (ground arith)))
]

-- One call of `skipelem`.
Takes : List ℕ → Option (List ℕ × List ℕ) → Type 0
Takes path none = names_of (parts path) ≡ []
Takes path (some (name, rest)) =
    (names_of (parts path) ≡ name ∷ names_of (parts rest)) × (length rest < length path)

skipelem-Takes : (path : List ℕ) → Takes path (skipelem path)
unfolding skipelem Takes Leads names_of parts
skipelem-Takes path = go (skip_slashes path) refl
  where
    go :
        (s : List ℕ)
        → skip_slashes path ≡ s
        → Takes path (elim s as (λ x. Option (List ℕ × List ℕ)) [
          | [] ↦ none
          | c ∷ s' ↦ let r = element (c ∷ s') in some (clipped r.0, skip_slashes r.1)
        ])
    go [] e = sym (names_of-skip path) ∙ ap (λ x. names_of (parts x)) e
    go (c ∷ s) e =
        let other : (c == b'/') ≡ false = skip-stops path c s e in
        let (ps, at, rest) = element-Leads s in
        let shorter : length (skip_slashes (element s).1) < length path = omega (
          arith,
          length-skip (element s).1,
          length-element s,
          length-skip path,
          ap (length {0}) e,
        ) in
        subst (λ r. Takes path (some (clipped r.0, skip_slashes r.1)))
          (sym (element_other c s other))
          (
            sym (names_of-skip path)
                ∙ ap (λ x. names_of (parts x)) e
                ∙ ap names_of (parts_other c s (element s).0 ps other at)
                ∙ ap (λ n. n ∷ names_of ps) (sym (cut_name (c ∷ (element s).0)))
                ∙ ap (λ l. clipped (c ∷ (element s).0) ∷ l)
                    (sym (names_of-skip (element s).1 ∙ rest)),
            shorter,
          )

-- The elements that `namex` takes from a path, one call of `skipelem` after the other, are the parts
-- between slashes that are not empty, each cut to `DIRSIZ` bytes; as many rounds as the path has
-- bytes, and one more, are enough.
pub names_from-names_of :
    (f : ℕ) (path : List ℕ) → length path < f → names_from f path ≡ some (names_of (parts path))
unfolding names_from Takes
names_from-names_of zero path h = absurd (omega arith)
names_from-names_of (suc f) path h =
    go (skipelem path) (skipelem-Takes path) (λ rest lt. names_from-names_of f rest (omega arith))
  where
    go :
        (o : Option (List ℕ × List ℕ))
        → Takes path o
        → ((rest : List ℕ)
            → length rest < length path
            → names_from f rest ≡ some (names_of (parts rest)))
        → (elim o as (λ x. Option (List (List ℕ))) [
          | none ↦ some []
          | some (name, rest) ↦ elim (names_from f rest) [
            | none ↦ none
            | some names ↦ some (name ∷ names)
          ]
        ])
          ≡ some (names_of (parts path))
    go none t ih = ap some (sym t)
    go (some (name, rest)) (t, lt) ih = rw (ih rest lt) (ap some (sym t))

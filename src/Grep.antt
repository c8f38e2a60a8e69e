-- ===== src/Grep.antt =====
-- user/grep.c: the matcher of regular expressions with `^ . * $`.
-- A string is the list of its bytes up to the NUL, so that `[]` is a pointer to the NUL.
pub mod Matcher
mod Tests
use os_assignment.Prelude.{ℕ, Bool, true, false, ◌&&◌, ◌||◌, List, [], ◌∷◌, ◌==◌, if◌then◌else◌}

-- `c == '.' || c == *text`
abbrev pub fits : ℕ → ℕ → Bool
fits c t = c == b'.' || c == t

-- The loop of `matchstar`; `here` is `matchhere` of the rest of the pattern.
unfoldable pub matchstar : (List ℕ → Bool) → ℕ → List ℕ → Bool
matchstar here c [] = here []
matchstar here c (t ∷ text) = here (t ∷ text) || (t == c || c == b'.') && matchstar here c text

-- The last test of `matchhere`, for one byte of the pattern.
unfoldable pub matchone : (List ℕ → Bool) → ℕ → List ℕ → Bool
matchone here c [] = false
matchone here c (t ∷ text) = fits c t && here text

unfoldable pub is_end : List ℕ → Bool
is_end [] = true
is_end (_ ∷ _) = false

unfoldable pub matchhere : List ℕ → List ℕ → Bool
matchhere [] text = true
matchhere (c ∷ []) text = if c == b'$' then is_end text else matchone (λ s. true) c text
matchhere (c ∷ d ∷ re) text = elim (d == b'*') [
  | true ↦ matchstar (λ s. matchhere re s) c text
  | false ↦ matchone (λ s. matchhere (d ∷ re) s) c text
]

-- The loop of `match`, over the suffixes of the text.
unfoldable pub search_from : (List ℕ → Bool) → List ℕ → Bool
search_from here [] = here []
search_from here (t ∷ text) = here (t ∷ text) || search_from here text

unfoldable pub matches : List ℕ → List ℕ → Bool
matches [] text = search_from (λ s. matchhere [] s) text
matches (c ∷ re) text =
    if c == b'^' then matchhere re text else search_from (λ s. matchhere (c ∷ re) s) text

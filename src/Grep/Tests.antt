-- ===== src/Grep/Tests.antt =====
-- Patterns at concrete texts.
use os_assignment.Prelude.{◌≡◌, ◌↔◌, refl, true, false, [], ◌∷◌}
use os_assignment.Grep.{matchhere, matches, search_from, matchstar, matchone, is_end}
use os_assignment.Grep.Matcher.{IsMatch, matches_iff}

-- `a*b$` in "xaab", and not in "ba".
found : matches (b'a' ∷ b'*' ∷ b'b' ∷ b'$' ∷ []) (b'x' ∷ b'a' ∷ b'a' ∷ b'b' ∷ []) ≡ true
unfolding matches matchhere search_from matchstar matchone is_end
found = refl

not_found : matches (b'a' ∷ b'*' ∷ b'b' ∷ b'$' ∷ []) (b'b' ∷ b'a' ∷ []) ≡ false
unfolding matches matchhere search_from matchstar matchone is_end
not_found = refl

matches_iff_example :
    (matches (b'a' ∷ b'*' ∷ b'b' ∷ b'$' ∷ []) (b'x' ∷ b'a' ∷ b'b' ∷ []) ≡ true)
    ↔ IsMatch (b'a' ∷ b'*' ∷ b'b' ∷ b'$' ∷ []) (b'x' ∷ b'a' ∷ b'b' ∷ [])
matches_iff_example = matches_iff (b'a' ∷ b'*' ∷ b'b' ∷ b'$' ∷ []) (b'x' ∷ b'a' ∷ b'b' ∷ [])

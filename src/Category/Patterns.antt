-- ===== src/Category/Patterns.antt =====
-- The three testers that the rules are written with: `startsWith`, `includes` and a regular
-- expression's `test`, each on the description in lower case. A regular expression is a sequence of
-- pieces, and the matcher tries all ways to match, as the language's backtracking does.
use Prim.Native.Char.{code}
use bfx_reports_framework.Base.{
  ℕ, ◌+◌, String, Bool, true, false, ◌&&◌, ◌||◌, List, [], ◌∷◌, map, leb, ◌==◌, if◌then◌else◌,
}

abbrev pub codes : String → List ℕ
codes String.[] = []
codes (String.◌∷◌ c s) = code c ∷ codes s

-- `toLowerCase` on one code point: the letters of ASCII.
unfoldable pub lower : ℕ → ℕ
lower c = if leb b'A' c && leb c b'Z' then c + 32 else c

unfoldable pub to_lower_case : List ℕ → List ℕ
unfolding lower
to_lower_case = map lower

unfoldable pub is_prefix : List ℕ → List ℕ → Bool
is_prefix [] d = true
is_prefix (p ∷ ps) [] = false
is_prefix (p ∷ ps) (c ∷ d) = p == c && is_prefix ps d

unfoldable pub is_infix : List ℕ → List ℕ → Bool
unfolding is_prefix
is_infix p [] = is_prefix p []
is_infix p (c ∷ d) = is_prefix p (c ∷ d) || is_infix p d

unfoldable pub is_digit : ℕ → Bool
is_digit c = leb b'0' c && leb c b'9'

-- `\s` on the code points of ASCII.
unfoldable pub is_space : ℕ → Bool
is_space c = leb 9 c && leb c 13 || c == 32

-- `one` a fixed character, `many` is `[..]*`, `maybe` is `[..]?`.
pub data Piece : Type 0 where
  one : ℕ → Piece
  many maybe : (ℕ → Bool) → Piece

abbrev pub literal : List ℕ → List Piece
literal = map one

unfoldable pub matches_here : List Piece → List ℕ → Bool
matches_here [] d = true
matches_here (one p ∷ r) [] = false
matches_here (one p ∷ r) (c ∷ d) = p == c && matches_here r d
matches_here (many p ∷ r) [] = matches_here r []
matches_here (many p ∷ r) (c ∷ d) = matches_here r (c ∷ d) || (p c && matches_here (many p ∷ r) d)
matches_here (maybe p ∷ r) [] = matches_here r []
matches_here (maybe p ∷ r) (c ∷ d) = matches_here r (c ∷ d) || (p c && matches_here r d)

unfoldable pub finds : List Piece → List ℕ → Bool
unfolding matches_here
finds r [] = matches_here r []
finds r (c ∷ d) = matches_here r (c ∷ d) || finds r d

unfoldable pub starts_with : List ℕ → List ℕ → Bool
unfolding to_lower_case is_prefix
starts_with d pattern = is_prefix pattern (to_lower_case d)

unfoldable pub includes : List ℕ → List ℕ → Bool
unfolding to_lower_case is_infix
includes d pattern = is_infix pattern (to_lower_case d)

unfoldable pub test : List ℕ → List Piece → Bool
unfolding to_lower_case finds is_digit is_space
test d pattern = finds pattern (to_lower_case d)

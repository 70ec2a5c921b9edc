-- ===== src/Base/Letters.antt =====
-- Texts as lists of code points, for the functions of Go's `strings` package that the source
-- uses: `TrimSpace`, `ToLower`, `EqualFold`, `HasPrefix`. Letters and blanks are those of ASCII.
use Prim.Native.Char.{code}
use srne_inverter_to_mqtt.Base.{
  ℕ, ◌+◌, String, Bool, true, false, ◌&&◌, ◌||◌, List, [], ◌∷◌, map, Option, none, some, ◌==◌, leb,
  if◌then◌else◌, ◌≡◌, refl,
}
use mathlib.Core.List.{reverse}

abbrev pub codes : String → List ℕ
codes String.[] = []
codes (String.◌∷◌ c s) = code c ∷ codes s

unfoldable pub same_codes : List ℕ → List ℕ → Bool
same_codes [] [] = true
same_codes (a ∷ xs) (b ∷ ys) = (a == b) && same_codes xs ys
same_codes _ _ = false

unfoldable pub to_lower : ℕ → ℕ
to_lower c = if leb b'A' c && leb c b'Z' then c + 32 else c

abbrev pub is_blank : ℕ → Bool
is_blank c = (c == 32) || (leb 9 c && leb c 13)

trim_front : List ℕ → List ℕ
trim_front [] = []
trim_front (c ∷ cs) = let rest = trim_front cs in if is_blank c then rest else c ∷ cs

unfoldable pub trim_space : List ℕ → List ℕ
unfolding trim_front
trim_space cs = reverse (trim_front (reverse (trim_front cs)))

-- `strings.EqualFold(s, t)`
unfoldable pub equal_fold : String → String → Bool
unfolding same_codes to_lower
equal_fold s t = same_codes (map to_lower (codes s)) (map to_lower (codes t))

-- `strings.ToLower(strings.TrimSpace(s)) == literal`
unfoldable pub means : String → String → Bool
unfolding same_codes to_lower trim_space
means s literal = same_codes (map to_lower (trim_space (codes s))) (codes literal)

-- `strings.TrimSpace(s) == ""`
unfoldable pub is_empty : String → Bool
unfolding same_codes trim_space
is_empty s = same_codes (trim_space (codes s)) []

-- The rest of a text behind a prefix.
unfoldable pub after_prefix : List ℕ → List ℕ → Option (List ℕ)
after_prefix [] cs = some cs
after_prefix (p ∷ ps) [] = none
after_prefix (p ∷ ps) (c ∷ cs) = if p == c then after_prefix ps cs else none

means_example : means " Three-Phase" "three-phase" ≡ true
unfolding means
means_example = refl

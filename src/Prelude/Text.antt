-- ===== src/Prelude/Text.antt =====
-- Text as a list of code points, with what the program uses of Go's `strings` package on ASCII.
use Prim.Native.Char.{code}
use Prim.Native.String.{String}
use Prim.Native.Nat.{ℕ, ◌+◌, ◌-◌}
use mathlib.Core.Path.{◌≡◌, refl}
use mathlib.Core.Bool.{Bool, true, false, ◌&&◌, ◌||◌}
use mathlib.Core.List.{List, [], ◌∷◌, reverse, map}
use native.Mathlib.Omega.{arith}
use media_hub_oss.Prelude.Tests.{◌==◌, leb, if◌then◌else◌}

abbrev pub Text : Type 0
Text = List ℕ

-- The code points of a literal.
abbrev pub codes : String → Text
codes String.[] = []
codes (String.◌∷◌ c s) = code c ∷ codes s

abbrev pub text_eq : Text → Text → Bool
text_eq [] [] = true
text_eq [] (y ∷ ys) = false
text_eq (x ∷ xs) [] = false
text_eq (x ∷ xs) (y ∷ ys) = x == y && text_eq xs ys

pub text_eq→≡ : (s t : Text) → text_eq s t ≡ true → s ≡ t
text_eq→≡ [] [] h = refl
text_eq→≡ [] (y ∷ ys) h = ground arith
text_eq→≡ (x ∷ xs) [] h = ground arith
text_eq→≡ (x ∷ xs) (y ∷ ys) h = ground (arith, text_eq→≡ xs ys)

pub text_eq_refl : (s : Text) → text_eq s s ≡ true
text_eq_refl [] = refl
text_eq_refl (x ∷ xs) = ground (arith, text_eq_refl xs)

-- `slices.Contains`, and a `case` with several labels.
abbrev pub one_of : Text → List Text → Bool
one_of s [] = false
one_of s (t ∷ ts) = text_eq s t || one_of s ts

abbrev pub is_empty : Text → Bool
is_empty [] = true
is_empty (x ∷ xs) = false

-- strings.ToLower, strings.ToUpper
unfoldable pub lower_code : ℕ → ℕ
lower_code c = if leb b'A' c && leb c b'Z' then c + 32 else c

unfoldable pub upper_code : ℕ → ℕ
upper_code c = if leb b'a' c && leb c b'z' then c - 32 else c

unfoldable pub to_lower : Text → Text
unfolding lower_code
to_lower s = map lower_code s

unfoldable pub to_upper : Text → Text
unfolding upper_code
to_upper s = map upper_code s

-- The white space of strings.TrimSpace that is ASCII.
unfoldable pub is_space : ℕ → Bool
is_space c = c == 32 || (leb 9 c && leb c 13)

unfoldable pub trim_left : Text → Text
unfolding is_space
trim_left [] = []
trim_left (c ∷ s) = if is_space c then trim_left s else c ∷ s

unfoldable pub trim_space : Text → Text
unfolding trim_left
trim_space s = reverse (trim_left (reverse (trim_left s)))

-- strings.HasPrefix, strings.TrimPrefix
unfoldable pub has_prefix : Text → Text → Bool
has_prefix s [] = true
has_prefix [] (p ∷ ps) = false
has_prefix (c ∷ s) (p ∷ ps) = c == p && has_prefix s ps

abbrev pub drop_prefix : Text → Text → Text
drop_prefix s [] = s
drop_prefix [] (p ∷ ps) = []
drop_prefix (c ∷ s) (p ∷ ps) = drop_prefix s ps

unfoldable pub trim_prefix : Text → Text → Text
unfolding has_prefix
trim_prefix s p = if has_prefix s p then drop_prefix s p else s

-- strings.TrimSuffix
unfoldable pub trim_suffix : Text → Text → Text
unfolding trim_prefix
trim_suffix s p = reverse (trim_prefix (reverse s) (reverse p))

-- filepath.Ext, from the last character on: the suffix from the last dot of the last path element.
unfoldable pub ext_from : Text → Text → Text
ext_from acc [] = []
ext_from acc (c ∷ s) =
    let more = ext_from (c ∷ acc) s in if c == b'/' then [] else if c == b'.' then c ∷ acc else more

unfoldable pub file_ext : Text → Text
unfolding ext_from
file_ext name = ext_from [] (reverse name)

-- strings.Split by one character.
unfoldable pub split_from : ℕ → Text → Text → List Text
split_from sep acc [] = reverse acc ∷ []
split_from sep acc (c ∷ s) =
    let next = split_from sep [] s in
    let more = split_from sep (c ∷ acc) s in if c == sep then reverse acc ∷ next else more

unfoldable pub split_on : ℕ → Text → List Text
unfolding split_from
split_on sep s = split_from sep [] s

-- ===== src/Text.antt =====
-- What the sources use of Go's package strings, on texts as sequences of code points.
pub mod Utf8
use Prim.Native.Char.{Char, code}
use Prim.Native.String.{String}
use rc_pangjiahui.Prelude.{
  ℕ, Bool, ◌||◌, ◌&&◌, ◌==◌, leb, Option, none, some, List, [], ◌∷◌, ◌=ₛ◌, if◌then◌else◌,
}

-- unicode.IsSpace
abbrev pub is_space : Char → Bool
is_space c =
    let n = code c in
    (leb 0x09 n && leb n 0x0d)
    || n == 0x20
    || n == 0x85
    || n == 0xa0
    || n == 0x1680
    || (leb 0x2000 n && leb n 0x200a)
    || n == 0x2028
    || n == 0x2029
    || n == 0x202f
    || n == 0x205f
    || n == 0x3000

unfoldable pub trim_left : String → String
trim_left String.[] = String.[]
trim_left (String.◌∷◌ c s) = if is_space c then trim_left s else String.◌∷◌ c s

unfoldable pub trim_right : String → String
trim_right String.[] = String.[]
trim_right (String.◌∷◌ c s) =
    let rest = trim_right s in if is_space c && rest =ₛ "" then String.[] else String.◌∷◌ c rest

-- TrimSpace
abbrev pub trim_space : String → String
trim_space s = trim_right (trim_left s)

-- Split by a separator of one code point.
unfoldable pub split : ℕ → String → List String
split sep String.[] = "" ∷ []
split sep (String.◌∷◌ c s) =
    let rest = split sep s in
    if code c == sep
    then "" ∷ rest
    else elim rest [ [] ↦ String.◌∷◌ c "" ∷ [] | piece ∷ pieces ↦ String.◌∷◌ c piece ∷ pieces ]

-- The two parts that SplitN makes with a limit of two, if there is a separator.
unfoldable pub cut : ℕ → String → Option (String × String)
cut sep String.[] = none
cut sep (String.◌∷◌ c s) =
    let rest = cut sep s in
    if code c == sep
    then some ("", s)
    else elim rest [ none ↦ none | some (a, b) ↦ some (String.◌∷◌ c a, b) ]

-- TrimPrefix
unfoldable pub after_prefix : String → String → Option String
after_prefix String.[] s = some s
after_prefix (String.◌∷◌ p ps) String.[] = none
after_prefix (String.◌∷◌ p ps) (String.◌∷◌ c s) =
    let rest = after_prefix ps s in if code p == code c then rest else none

abbrev pub trim_prefix : String → String → String
trim_prefix prefix s = elim (after_prefix prefix s) [ none ↦ s | some rest ↦ rest ]

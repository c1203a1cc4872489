-- ===== src/Prelude/Text.antt =====
-- Texts as lists of code points, where the program looks inside one.
use Prim.Native.Nat.{ℕ, suc}
use Prim.Native.Char.{code}
use Prim.Native.String.{String}
use mathlib.Core.Bool.{Bool, true, false, ◌&&◌, ◌||◌}
use mathlib.Core.List.{List, [], ◌∷◌}
use multiverse_research.Prelude.Tests.{leb, nat_beq, if◌then◌else◌}
use multiverse_research.Prelude.Lists.{all, length}

-- The code points of a text. `String` has its own `[]` and `∷`.
abbrev pub codes : String → List ℕ
codes String.[] = []
codes (String.◌∷◌ c s) = code c ∷ codes s

-- `str.isspace` of one character, which is what `str.strip` removes.
abbrev pub is_space : ℕ → Bool
is_space c =
    (leb 9 c && leb c 13)
    || (leb 28 c && leb c 32)
    || nat_beq c 133
    || nat_beq c 160
    || nat_beq c 5760
    || (leb 8192 c && leb c 8202)
    || nat_beq c 8232
    || nat_beq c 8233
    || nat_beq c 8239
    || nat_beq c 8287
    || nat_beq c 12288

-- `not s.strip()`
unfoldable pub is_blank : String → Bool
is_blank s = all is_space (codes s)

-- `not s`
abbrev pub is_empty : String → Bool
is_empty s = nat_beq (length (codes s)) 0

-- `c in "0123456789abcdef"`, of one character.
abbrev pub is_hex : ℕ → Bool
is_hex c = (leb b'0' c && leb c b'9') || (leb b'a' c && leb c b'f')

abbrev prefix_codes : List ℕ → List ℕ → Bool
prefix_codes [] s = true
prefix_codes (c ∷ p) [] = false
prefix_codes (c ∷ p) (d ∷ s) = nat_beq c d && prefix_codes p s

-- `s.startswith(p)`
unfoldable pub has_prefix : String → String → Bool
has_prefix p s = prefix_codes (codes p) (codes s)

-- Exactly n lower-case hexadecimal digits.
unfoldable pub is_hex_text : ℕ → String → Bool
is_hex_text n s = nat_beq (length (codes s)) n && all is_hex (codes s)

abbrev pub same_codes : List ℕ → List ℕ → Bool
same_codes [] [] = true
same_codes (c ∷ s) (d ∷ t) = nat_beq c d && same_codes s t
same_codes _ _ = false

-- `p in s`
abbrev pub infix_codes : List ℕ → List ℕ → Bool
infix_codes p [] = prefix_codes p []
infix_codes p (c ∷ s) = prefix_codes p (c ∷ s) || infix_codes p s

unfoldable pub has_infix : String → String → Bool
has_infix p s = infix_codes (codes p) (codes s)

-- The text before the first occurrence of a character, as `s.split(c, 1)[0]`.
abbrev pub before : ℕ → List ℕ → List ℕ
before c [] = []
before c (d ∷ s) = let rest = before c s in if nat_beq c d then [] else d ∷ rest

-- How often a character occurs.
abbrev pub occurrences : ℕ → List ℕ → ℕ
occurrences c [] = 0
occurrences c (d ∷ s) = let rest = occurrences c s in if nat_beq c d then suc rest else rest

-- `s.split(c)`
abbrev pub split : ℕ → List ℕ → List (List ℕ)
split c [] = [] ∷ []
split c (d ∷ s) =
    let rest = split c s in
    if nat_beq c d then [] ∷ rest else elim rest [ [] ↦ (d ∷ []) ∷ [] | p ∷ ps ↦ (d ∷ p) ∷ ps ]

-- ===== src/Base/Strings.antt =====
-- Text as the list of its Unicode scalar values, with the operations of `str` that the program
-- uses: comparison, trimming, splitting and searching.
use Prim.Native.Nat.{ℕ, ◌+◌}
use Prim.Native.Char.{code}
use Prim.Native.String.{String}
use mathlib.Core.Path.{◌≡◌, refl}
use mathlib.Core.Logic.{◌↔◌}
use mathlib.Core.Bool.{Bool, true, false, ◌&&◌, ◌||◌}
use mathlib.Core.Option.{Option, none, some}
use mathlib.Core.List.{List, [], ◌∷◌, ◌++◌, reverse}
use native.Mathlib.Omega.{arith}
use server_glass.Base.Tests.{leb, ltb, ◌==◌, if◌then◌else◌}

abbrev pub Text : Type 0
Text = List ℕ

-- The scalar values of a literal.
abbrev pub codes : String → Text
codes String.[] = []
codes (String.◌∷◌ c s) = code c ∷ codes s

unfoldable pub text_eq : Text → Text → Bool
text_eq [] [] = true
text_eq [] (d ∷ t) = false
text_eq (c ∷ s) [] = false
text_eq (c ∷ s) (d ∷ t) = c == d && text_eq s t

pub text_eq_iff : (s t : Text) → (text_eq s t ≡ true) ↔ (s ≡ t)
unfolding text_eq
text_eq_iff [] [] = ground arith
text_eq_iff [] (d ∷ t) = ground arith
text_eq_iff (c ∷ s) [] = ground arith
text_eq_iff (c ∷ s) (d ∷ t) = ground (arith, text_eq_iff s t)

pub text_eq_refl : (s : Text) → text_eq s s ≡ true
text_eq_refl s = (text_eq_iff s s).1 refl

-- `char::is_whitespace`: the Unicode property White_Space.
unfoldable pub is_whitespace : ℕ → Bool
is_whitespace c =
    (leb 9 c && leb c 13)
    || c == 32
    || c == 0x85
    || c == 0xa0
    || c == 0x1680
    || (leb 0x2000 c && leb c 0x200a)
    || c == 0x2028
    || c == 0x2029
    || c == 0x202f
    || c == 0x205f
    || c == 0x3000

-- `str::len` counts the bytes of UTF-8.
unfoldable pub len_utf8 : Text → ℕ
len_utf8 [] = 0
len_utf8 (c ∷ s) =
    (if ltb c 0x80 then 1 else if ltb c 0x800 then 2 else if ltb c 0x10000 then 3 else 4)
    + len_utf8 s

unfoldable pub trim_start : Text → Text
trim_start [] = []
trim_start (c ∷ s) = let rest = trim_start s in if is_whitespace c then rest else c ∷ s

unfoldable pub trim_end : Text → Text
trim_end s = reverse (trim_start (reverse s))

unfoldable pub trim : Text → Text
unfolding trim_start trim_end
trim s = trim_end (trim_start s)

-- The first word and what follows the character that ends it: `split_once` on the first character
-- that passes the test.
unfoldable pub split_once : (ℕ → Bool) → Text → Option (Text × Text)
split_once p [] = none
split_once p (c ∷ s) = elim (p c) [
  | true ↦ some ([], s)
  | false ↦ elim (split_once p s) [ none ↦ none | some (a, b) ↦ some (c ∷ a, b) ]
]

-- The longest prefix none of whose characters passes the test.
unfoldable pub take_until : (ℕ → Bool) → Text → Text
take_until p [] = []
take_until p (c ∷ s) = let rest = take_until p s in if p c then [] else c ∷ rest

-- `split_whitespace().next()`
unfoldable pub first_word : Text → Option Text
unfolding trim_start take_until
first_word s = elim (trim_start s) [ [] ↦ none | c ∷ r ↦ some (take_until is_whitespace (c ∷ r)) ]

-- `starts_with`
unfoldable pub starts_with : Text → Text → Bool
starts_with [] s = true
starts_with (p ∷ ps) [] = false
starts_with (p ∷ ps) (c ∷ s) = p == c && starts_with ps s

-- `strip_prefix`
unfoldable pub strip_prefix : Text → Text → Option Text
strip_prefix [] s = some s
strip_prefix (p ∷ ps) [] = none
strip_prefix (p ∷ ps) (c ∷ s) = if p == c then strip_prefix ps s else none

-- `s.find(pattern)` for a pattern that is not empty, given as the text before the first occurrence
-- and the text after it.
unfoldable pub find_split : Text → Text → Option (Text × Text)
unfolding strip_prefix
find_split pat [] = none
find_split pat (c ∷ s) = elim (strip_prefix pat (c ∷ s)) [
  | some rest ↦ some ([], rest)
  | none ↦ elim (find_split pat s) [ none ↦ none | some (a, b) ↦ some (c ∷ a, b) ]
]

-- `split(sep)`: every part between separators, always at least one.
unfoldable pub split_on : ℕ → Text → List Text
split_on sep [] = [] ∷ []
split_on sep (c ∷ s) = elim (c == sep) [
  | true ↦ [] ∷ split_on sep s
  | false ↦ elim (split_on sep s) [ [] ↦ (c ∷ []) ∷ [] | w ∷ ws ↦ (c ∷ w) ∷ ws ]
]

-- `join(sep)`
unfoldable pub join : Text → List Text → Text
join sep [] = []
join sep (w ∷ []) = w
join sep (w ∷ v ∷ ws) = w ++ (sep ++ join sep (v ∷ ws))

-- `strip_suffix` of one character
unfoldable pub strip_last : ℕ → Text → Text
strip_last sep [] = []
strip_last sep (c ∷ []) = if c == sep then [] else c ∷ []
strip_last sep (c ∷ d ∷ s) = c ∷ strip_last sep (d ∷ s)

-- What ends a line: `\n` or `\r\n`; what follows the last `\n` is a line if it is not empty.
unfoldable pub end_lines : List Text → List Text
unfolding strip_last
end_lines [] = []
end_lines ([] ∷ []) = []
end_lines ((c ∷ s) ∷ []) = (c ∷ s) ∷ []
end_lines (w ∷ v ∷ ws) = strip_last 13 w ∷ end_lines (v ∷ ws)

-- `str::lines`
unfoldable pub lines : Text → List Text
unfolding split_on end_lines
lines s = end_lines (split_on 10 s)

-- `trim_matches` of one character
unfoldable pub trim_left_of : ℕ → Text → Text
trim_left_of q [] = []
trim_left_of q (c ∷ s) = let rest = trim_left_of q s in if c == q then rest else c ∷ s

unfoldable pub trim_matches : ℕ → Text → Text
unfolding trim_left_of
trim_matches q s = reverse (trim_left_of q (reverse (trim_left_of q s)))

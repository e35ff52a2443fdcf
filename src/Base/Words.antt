-- ===== src/Base/Words.antt =====
-- Words, columns and the decimal notation of `f64`, as the standard library splits and parses them.
use Prim.Native.Nat.{ℕ, zero, suc, ◌+◌, ◌-◌, ◌*◌, ◌%◌, ◌^◌, min}
use mathlib.Core.Bool.{Bool, true, false, not, ◌&&◌, ◌||◌}
use mathlib.Core.Option.{Option, none, some}
use mathlib.Core.List.{List, [], ◌∷◌, reverse}
use server_glass.Base.Tests.{if◌then◌else◌, ◌==◌, leb, ◌>>=◌}
use server_glass.Base.Lists.{filter}
use server_glass.Base.Strings.{Text, codes, is_whitespace, split_once, strip_prefix}
use server_glass.Base.Int.{ℤ, pos, ◌-ℤ◌}
use server_glass.Base.Number.{is_digit, parse_unsigned, negate}
use server_glass.Base.Float.{FloatOps}

abbrev pub u64_limit : ℕ
u64_limit = 2 ^ 64 - 1

-- `parse::<u64>()`
abbrev pub parse_u64 : Text → Option ℕ
parse_u64 = parse_unsigned u64_limit

-- `u64::saturating_mul` and `u64::saturating_add`
abbrev pub saturating_mul : ℕ → ℕ → ℕ
saturating_mul a b = min (a * b) u64_limit

abbrev pub saturating_add : ℕ → ℕ → ℕ
saturating_add a b = min (a + b) u64_limit

abbrev pub is_empty : Text → Bool
is_empty [] = true
is_empty (c ∷ s) = false

-- `split(p)`: every part between characters that pass the test, always at least one.
unfoldable pub split_by : (ℕ → Bool) → Text → List Text
split_by p [] = [] ∷ []
split_by p (c ∷ s) = elim (p c) [
  | true ↦ [] ∷ split_by p s
  | false ↦ elim (split_by p s) [ [] ↦ (c ∷ []) ∷ [] | w ∷ ws ↦ (c ∷ w) ∷ ws ]
]

-- `split_whitespace`: the parts between white space that are not empty.
unfoldable pub split_whitespace : Text → List Text
unfolding split_by is_whitespace filter
split_whitespace s = filter (λ w. not (is_empty w)) (split_by is_whitespace s)

module _ {ℓ} {A : Type ℓ} where
  -- `get(i)` of a slice
  unfoldable pub get_elem? : List A → ℕ → Option A
  get_elem? [] i = none
  get_elem? (x ∷ xs) zero = some x
  get_elem? (x ∷ xs) (suc i) = get_elem? xs i

  -- `chunks_exact(2)`
  unfoldable pub pairs : List A → List (A × A)
  pairs [] = []
  pairs (x ∷ []) = []
  pairs (x ∷ y ∷ r) = (x, y) ∷ pairs r

module _ {ℓ κ} {A : Type ℓ} {B : Type κ} where
  unfoldable pub filter_map : (A → Option B) → List A → List B
  filter_map f [] = []
  filter_map f (x ∷ xs) = elim (f x) [ none ↦ filter_map f xs | some y ↦ y ∷ filter_map f xs ]

  -- `zip`: up to the end of the shorter list.
  unfoldable pub zip : List A → List B → List (A × B)
  zip [] ys = []
  zip (x ∷ xs) [] = []
  zip (x ∷ xs) (y ∷ ys) = (x, y) ∷ zip xs ys

-- `strip_suffix`
unfoldable pub strip_suffix : Text → Text → Option Text
unfolding strip_prefix
strip_suffix p s = do r ← strip_prefix (reverse p) (reverse s); some (reverse r)

-- `rfind(c)` given as the text before the last `c` and the text after it.
unfoldable pub rsplit_at : ℕ → Text → Option (Text × Text)
unfolding split_once
rsplit_at c s = do p ← split_once (λ d. d == c) (reverse s); some (reverse (p.1), reverse (p.0))

-- What a sign says, and the rest.
unfoldable pub take_sign : Text → Bool × Text
take_sign [] = (false, [])
take_sign (c ∷ s) =
    if c == b'-' then (true, s) else if c == b'+' then (false, s) else (false, c ∷ s)

-- `eq_ignore_ascii_case` with a text in lower case.
abbrev lower_char : ℕ → ℕ
lower_char c = if leb b'A' c && leb c b'Z' then c + 32 else c

unfoldable pub is_word : Text → Text → Bool
is_word [] [] = true
is_word [] (c ∷ s) = false
is_word (p ∷ ps) [] = false
is_word (p ∷ ps) (c ∷ s) = lower_char c == p && is_word ps s

-- The digits in front: their value continued from `n`, their number, and what follows.
unfoldable pub take_digits : ℕ → ℕ → Text → ℕ × ℕ × Text
unfolding is_digit
take_digits n k [] = (n, k, [])
take_digits n k (c ∷ s) =
    let rest = take_digits (n * 10 + (c - b'0')) (suc k) s in
    if is_digit c then rest else (n, k, c ∷ s)

-- The exponent behind the digits; `none` where something else follows.
unfoldable pub parse_exponent : Text → Option ℤ
unfolding take_sign take_digits
parse_exponent [] = some (pos 0)
parse_exponent (c ∷ s) =
    let (negative, t) = take_sign s in
    let (n, k, rest) = take_digits 0 0 t in
    if (c == b'e' || c == b'E') && not (k == 0) && is_empty rest
    then some (if negative then negate n else pos n)
    else none

-- The digits behind the point, if there is a point.
unfoldable pub take_fraction : ℕ → Text → ℕ × ℕ × Text
unfolding take_digits
take_fraction n [] = (n, 0, [])
take_fraction n (c ∷ s) = let rest = take_digits n 0 s in if c == b'.' then rest else (n, 0, c ∷ s)

module _ {F : Type 0} ⦃fl : FloatOps F⦄ where
  unfoldable pub parse_number : Bool → Text → Option F
  unfolding take_digits take_fraction parse_exponent ◌-ℤ◌
  parse_number negative s =
      let (n, k, rest) = take_digits 0 0 s in
      let (m, j, tail) = take_fraction n rest in
      if k + j == 0
      then none
      else (do e ← parse_exponent tail; some (fl.of_decimal negative m (e -ℤ pos j)))

  -- `parse::<f64>()`
  unfoldable pub parse_float : Text → Option F
  unfolding take_sign is_word parse_number
  parse_float s =
      let (negative, t) = take_sign s in
      if is_word (codes "inf") t || is_word (codes "infinity") t
      then some (fl.infinity negative)
      else if is_word (codes "nan") t
      then some fl.nan
      else parse_number negative t

-- `total += f(x)` for the elements that pass the test, on 64 bits.
unfoldable pub add_where {ℓ} : {A : Type ℓ} → (A → Bool) → (A → ℕ) → List A → ℕ → ℕ
add_where p f [] total = total
add_where p f (x ∷ xs) total = add_where p f xs (if p x then (total + f x) % 2 ^ 64 else total)

-- `to_string` of a `bool`
abbrev pub show_bool : Bool → Text
show_bool true = codes "true"
show_bool false = codes "false"

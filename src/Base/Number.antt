-- ===== src/Base/Number.antt =====
-- Numbers as the standard library prints and parses them: decimal integers and fixed-width hex.
use Prim.Native.Nat.{ℕ, zero, suc, ◌+◌, ◌-◌, ◌*◌, ◌/◌, ◌%◌, ◌^◌}
use mathlib.Core.Bool.{Bool, ◌&&◌}
use mathlib.Core.Option.{Option, none, some}
use mathlib.Core.List.{List, [], ◌∷◌, ◌++◌}
use server_glass.Base.Tests.{ltb, leb, ◌==◌, if◌then◌else◌, ◌>>=◌}
use server_glass.Base.Strings.{Text}
use server_glass.Base.Int.{ℤ, pos, negsuc}

unfoldable pub is_digit : ℕ → Bool
is_digit c = leb b'0' c && leb c b'9'

-- The digits from a given start; `none` at another character, or above the type's maximum.
unfoldable pub parse_digits : ℕ → ℕ → Text → Option ℕ
unfolding is_digit
parse_digits limit n [] = some n
parse_digits limit n (c ∷ s) =
    let m = n * 10 + (c - b'0') in
    let rest = parse_digits limit m s in
    if is_digit c then (if leb m limit then rest else none) else none

-- `str::parse` for an unsigned type with the maximum `limit`: an optional `+` and at least a digit.
unfoldable pub parse_unsigned : ℕ → Text → Option ℕ
unfolding parse_digits
parse_unsigned limit [] = none
parse_unsigned limit (c ∷ []) = if c == b'+' then none else parse_digits limit 0 (c ∷ [])
parse_unsigned limit (c ∷ d ∷ s) =
    if c == b'+' then parse_digits limit 0 (d ∷ s) else parse_digits limit 0 (c ∷ d ∷ s)

abbrev pub negate : ℕ → ℤ
negate zero = pos 0
negate (suc n) = negsuc n

-- `str::parse` for a signed type with values from `-(limit + 1)` to `limit`.
unfoldable pub parse_signed : ℕ → Text → Option ℤ
unfolding parse_unsigned
parse_signed limit [] = none
parse_signed limit (c ∷ []) = do n ← parse_unsigned limit (c ∷ []); some (pos n)
parse_signed limit (c ∷ d ∷ s) =
    if c == b'-'
    then (do n ← parse_digits (limit + 1) 0 (d ∷ s); some (negate n))
    else (do n ← parse_unsigned limit (c ∷ d ∷ s); some (pos n))

-- The decimal digits of `n`, on fuel; `n` divisions by ten are more than enough.
unfoldable pub show_digits : ℕ → ℕ → Text → Text
show_digits zero n out = out
show_digits (suc f) n out =
    let rest = show_digits f (n / 10) ((b'0' + n % 10) ∷ out) in
    if ltb n 10 then (b'0' + n) ∷ out else rest

-- `to_string` of an unsigned integer.
unfoldable pub show_nat : ℕ → Text
unfolding show_digits
show_nat n = show_digits (suc n) n []

unfoldable pub hex_digit : ℕ → ℕ
hex_digit d = if ltb d 10 then b'0' + d else b'a' + (d - 10)

-- `{:016x}` with the number of digits as an argument: the low `k` hexadecimal digits of `n`.
unfoldable pub show_hex : ℕ → ℕ → Text
unfolding hex_digit
show_hex zero n = []
show_hex (suc k) n = hex_digit (n / 16 ^ k % 16) ∷ show_hex k n

-- The bytes of UTF-8 (`as_bytes`).
unfoldable pub utf8_char : ℕ → List ℕ
utf8_char c =
    if ltb c 0x80
    then c ∷ []
    else if ltb c 0x800
    then (0xc0 + c / 0x40) ∷ (0x80 + c % 0x40) ∷ []
    else if ltb c 0x10000
    then (0xe0 + c / 0x1000) ∷ (0x80 + c / 0x40 % 0x40) ∷ (0x80 + c % 0x40) ∷ []
    else (0xf0 + c / 0x40000)
      ∷ (0x80 + c / 0x1000 % 0x40)
      ∷ (0x80 + c / 0x40 % 0x40)
      ∷ (0x80 + c % 0x40)
      ∷ []

unfoldable pub as_bytes : Text → List ℕ
unfolding utf8_char
as_bytes [] = []
as_bytes (c ∷ s) = utf8_char c ++ as_bytes s

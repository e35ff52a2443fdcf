-- ===== src/Model/Request/Id.antt =====
-- crates/sg-model/src/request.rs: the characters of `Request::id`.
use server_glass.Base.{
  ℕ, zero, suc, ◌≤◌, ◌<◌, ◌≡◌, ◌⊎◌, arith, length, All, Text, [], ◌∷◌, show_hex, hex_digit, ap,
}
use server_glass.Base.Search.{Lacks}
use server_glass.Model.Request.{Request, request_id, fnv}

-- A character that is neither white space nor special to a shell.
abbrev pub IsHexDigit : ℕ → Type 0
IsHexDigit c = ((b'0' ≤ c) × (c ≤ b'9')) ⊎ ((b'a' ≤ c) × (c ≤ b'f'))

hex_digit-IsHexDigit : (d : ℕ) → d < 16 → IsHexDigit (hex_digit d)
unfolding hex_digit
hex_digit-IsHexDigit d h = ground arith

show_hex-IsHexDigit : (k n : ℕ) → All IsHexDigit (show_hex k n)
unfolding show_hex
show_hex-IsHexDigit zero n = tt
show_hex-IsHexDigit (suc k) n = (hex_digit-IsHexDigit _ (omega arith), show_hex-IsHexDigit k n)

length-show_hex : (k n : ℕ) → length (show_hex k n) ≡ k
unfolding show_hex
length-show_hex zero n = omega arith
length-show_hex (suc k) n = ap suc (length-show_hex k n)

-- Every request's id is sixteen lower-case hexadecimal digits.
pub request_id-IsHexDigit :
    (r : Request) → (length (request_id r) ≡ 16) × All IsHexDigit (request_id r)
unfolding request_id
request_id-IsHexDigit r = (length-show_hex 16 (fnv r), show_hex-IsHexDigit 16 (fnv r))

Lacks-of_IsHexDigit : (s : Text) → All IsHexDigit s → Lacks 10 s
Lacks-of_IsHexDigit [] h = tt
Lacks-of_IsHexDigit (c ∷ s) (h, hs) = (ground arith, Lacks-of_IsHexDigit s hs)

pub request_id-Lacks : (r : Request) → Lacks 10 (request_id r)
request_id-Lacks r = Lacks-of_IsHexDigit _ (request_id-IsHexDigit r).1

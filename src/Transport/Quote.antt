-- ===== src/Transport/Quote.antt =====
-- crates/sg-transport/src/quote.rs: POSIX shell quoting.
pub mod Shell
pub mod RoundTrip
use server_glass.Base.{Text, codes, List, [], ◌∷◌, ◌++◌, map, join, if◌then◌else◌, ◌==◌}

-- The body of the loop of `shell_quote`, which appends to `out` for each character.
unfoldable pub escape_chars : Text → Text
escape_chars [] = []
escape_chars (c ∷ s) = (if c == b'\'' then codes "'\\''" else c ∷ []) ++ escape_chars s

unfoldable pub shell_quote : Text → Text
unfolding escape_chars
shell_quote s = b'\'' ∷ (escape_chars s ++ b'\'' ∷ [])

unfoldable pub shell_join : List Text → Text
unfolding shell_quote join
shell_join argv = join (codes " ") (map shell_quote argv)

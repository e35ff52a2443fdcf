-- ===== src/Transport/Quote/RoundTrip.antt =====
-- crates/sg-transport/src/quote.rs: quoted arguments against the shell's words.
use server_glass.Base.{
  some, Text, List, [], ◌∷◌, ◌++◌, ◌≡◌, refl, arith, append_assoc, append-nil, ap, ◌∙◌,
}
use server_glass.Transport.Quote.{escape_chars, shell_quote, shell_join}
use server_glass.Transport.Quote.Shell.{blank, word, quoted, lex, prepend, sh_words}

-- Inside quotes, the escaped text adds exactly the text to the word.
lex-escape_chars :
    (s cur rest : Text) → lex quoted cur (escape_chars s ++ rest) ≡ lex quoted (cur ++ s) rest
unfolding lex escape_chars
lex-escape_chars [] cur rest = rw append-nil
lex-escape_chars (c ∷ s) cur rest =
    ground (arith, lex-escape_chars s (cur ++ c ∷ []) rest, append_assoc cur (c ∷ []) s)

lex-shell_quote : (s rest : Text) → lex blank [] (shell_quote s ++ rest) ≡ lex word s rest
unfolding lex shell_quote
lex-shell_quote s rest = rw (append_assoc, lex-escape_chars) refl

pub lex-shell_quote_last : (s : Text) → lex blank [] (shell_quote s) ≡ some (s ∷ [])
unfolding lex
lex-shell_quote_last s = rw (← append-nil (shell_quote s)) (lex-shell_quote s [])

-- Whatever the arguments hold, sh reads the joined command as exactly these arguments.
pub sh_words-shell_join : (argv : List Text) → sh_words (shell_join argv) ≡ some argv
unfolding sh_words lex shell_join
sh_words-shell_join [] = refl
sh_words-shell_join (a ∷ []) = lex-shell_quote_last a
sh_words-shell_join (a ∷ b ∷ r) = lex-shell_quote a _ ∙ ap (prepend a) (sh_words-shell_join (b ∷ r))

-- ===== src/Transport/Quote/Shell.antt =====
-- How POSIX sh splits a simple command into words, for the quoting that the program relies on. A
-- command that holds an active metacharacter outside quotes has no words here.
use server_glass.Base.{
  ℕ, Option, none, some, Text, codes, List, [], ◌∷◌, ◌++◌, any, if◌then◌else◌, ◌==◌,
}

pub data Mode : Type 0 where
  blank word quoted escaped : Mode

-- What one character does: nothing, end a word, change the mode, or join the word.
pub data Move : Type 0 where
  stay close : Move
  enter take : Mode → Move

-- The characters that sh treats specially outside quotes, and the newline.
abbrev pub special : Text
special = 10 ∷ codes "|&;<>()$`\"*?[#~=%!{}\t"

unfoldable pub plain : ℕ → Option Move
unfolding any
plain c = if any (λ x. x == c) special then none else some (take word)

unfoldable pub move : Mode → ℕ → Option Move
unfolding plain
move blank c =
    if c == b' '
    then some stay
    else if c == b'\''
    then some (enter quoted)
    else if c == b'\\'
    then some (enter escaped)
    else plain c
move word c =
    if c == b' '
    then some close
    else if c == b'\''
    then some (enter quoted)
    else if c == b'\\'
    then some (enter escaped)
    else plain c
move quoted c = if c == b'\'' then some (enter word) else some (take quoted)
move escaped c = if c == 10 then none else some (take word)

unfoldable pub finish : Mode → Text → Option (List Text)
finish blank cur = some []
finish word cur = some (cur ∷ [])
finish quoted cur = none
finish escaped cur = none

unfoldable pub prepend : Text → Option (List Text) → Option (List Text)
prepend w none = none
prepend w (some ws) = some (w ∷ ws)

unfoldable pub lex : Mode → Text → Text → Option (List Text)
unfolding move finish prepend
lex m cur [] = finish m cur
lex m cur (c ∷ s) = elim (move m c) [
  | none ↦ none
  | some stay ↦ lex blank [] s
  | some close ↦ prepend cur (lex blank [] s)
  | some (enter n) ↦ lex n cur s
  | some (take n) ↦ lex n (cur ++ c ∷ []) s
]

-- The words that sh passes to the program.
unfoldable pub sh_words : Text → Option (List Text)
unfolding lex
sh_words s = lex blank [] s

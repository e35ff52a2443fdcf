-- ===== src/Collect/Process/Names.antt =====
-- crates/sg-collect/src/process.rs: the name of a process in its line of /proc/<pid>/stat.
use server_glass.Base.{
  ℕ, ◌^◌, ◌-◌, ◌≤◌, ◌≡◌, refl, some, [], ◌∷◌, ◌++◌, ◌≢◌, arith, All-append, is_digit,
  split_whitespace, Text, show_nat,
}
use server_glass.Base.Search.{Lacks, split_once-append}
use server_glass.Base.Printing.{
  parse_unsigned-show_nat, trim-show_nat, rsplit_at-append, digits-Lacks, show_nat-AreDigits,
}
use server_glass.Collect.Process.{parse_process, stat_row}

-- A line as the kernel prints it: the number, the name in parentheses and the other fields.
abbrev pub stat_text : ℕ → Text → Text → Text
stat_text pid comm fields = (show_nat pid ++ b' ' ∷ []) ++ b'(' ∷ (comm ++ b')' ∷ fields)

numbered-Lacks : (pid : ℕ) → Lacks b'(' (show_nat pid ++ b' ' ∷ [])
numbered-Lacks pid =
    All-append (λ d. d ≢ b'(') (show_nat pid) (b' ' ∷ [])
      (digits-Lacks b'(' (show_nat pid) (unfold is_digit in refl) (show_nat-AreDigits pid))
      ((λ e. ground (arith, e)), tt)

-- The number and the name of a process are read back from its line, whatever parentheses and blanks
-- the name holds, and the row's fields are the words behind the name, provided that these hold no
-- closing parenthesis.
pub parse_process-stat_text :
    (pid : ℕ) (comm fields : Text)
    → pid ≤ 2 ^ 32 - 1
    → Lacks b')' fields
    → parse_process (stat_text pid comm fields) ≡ some (stat_row pid comm (split_whitespace fields))
unfolding parse_process
parse_process-stat_text pid comm fields b h =
    rw
      (
        split_once-append b'(' (show_nat pid ++ b' ' ∷ []) (comm ++ b')' ∷ fields)
            (numbered-Lacks pid),
        rsplit_at-append b')' comm fields h,
        trim-show_nat pid,
        parse_unsigned-show_nat (2 ^ 32 - 1) pid b,
      )
      refl

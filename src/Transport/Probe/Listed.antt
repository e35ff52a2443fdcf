-- ===== src/Transport/Probe/Listed.antt =====
-- crates/sg-transport/src/probe.rs: reading the lists that the probe's loops print.
use server_glass.Base.{
  ℕ, ◌≡◌, refl, sym, ap, ◌==◌, true, false, Text, List, [], ◌∷◌, ◌++◌, arith, All, All-append,
  filter, map, is_whitespace, trim, trim_start, trim_end, split_on, strip_last, end_lines, lines,
}
use mathlib.Core.Path.{subst}
use mathlib.Core.List.{reverse, reverse-cons, reverse-reverse}
use server_glass.Transport.Probe.{is_filled, listed}

abbrev pub NotSpace : ℕ → Type 0
NotSpace c = is_whitespace c ≡ false

-- A name as the probe has them: not empty, and without white space.
abbrev pub IsName : Text → Type 0
IsName s = (is_filled s ≡ true) × All NotSpace s

-- What `echo` writes for each name.
unfoldable pub print_lines : List Text → Text
print_lines [] = []
print_lines (n ∷ ns) = n ++ 10 ∷ print_lines ns

trim_start-All : (s : Text) → All NotSpace s → trim_start s ≡ s
unfolding trim_start
trim_start-All [] h = refl
trim_start-All (c ∷ s) h = rw (h.0, trim_start) refl

All-reverse : (s : Text) → All NotSpace s → All NotSpace (reverse s)
All-reverse [] h = h
All-reverse (c ∷ s) h =
    subst (All NotSpace) (sym (reverse-cons c s))
      (All-append NotSpace (reverse s) (c ∷ []) (All-reverse s h.1) (h.0, tt))

trim-All : (s : Text) → All NotSpace s → trim s ≡ s
unfolding trim trim_end
trim-All s h =
    rw (trim_start-All s h, trim_start-All (reverse s) (All-reverse s h)) (reverse-reverse s)

not_newline : (c : ℕ) → NotSpace c → (c == 10) ≡ false
unfolding is_whitespace
not_newline c h = ground (arith, h)

split_on-line :
    (w rest : Text) → All NotSpace w → split_on 10 (w ++ 10 ∷ rest) ≡ w ∷ split_on 10 rest
unfolding split_on
split_on-line [] rest h = refl
split_on-line (c ∷ w) rest h = rw (split_on, not_newline c h.0, split_on-line w rest h.1) refl

strip_last-All : (w : Text) → All NotSpace w → strip_last 13 w ≡ w
unfolding strip_last is_whitespace
strip_last-All [] h = refl
strip_last-All (c ∷ []) h = ground (arith, h.0)
strip_last-All (c ∷ d ∷ s) h = ap (λ x. c ∷ x) (strip_last-All (d ∷ s) h.1)

lines-print_lines : (ns : List Text) → All IsName ns → lines (print_lines ns) ≡ ns
unfolding lines end_lines print_lines split_on
lines-print_lines [] h = refl
lines-print_lines (n ∷ []) h =
    rw (split_on-line n [] h.0.1, split_on, end_lines, strip_last-All n h.0.1) refl
lines-print_lines (n ∷ m ∷ r) h =
    let e = split_on-line m (print_lines r) h.1.0.1 in
    let ih : end_lines (split_on 10 (m ++ 10 ∷ print_lines r)) ≡ m ∷ r =
      lines-print_lines (m ∷ r) h.1 in
    rw (split_on-line n (m ++ 10 ∷ print_lines r) h.0.1, e, end_lines, strip_last-All n h.0.1)
      (ap (λ x. n ∷ x) (rw e at ih))

map-trim : (ns : List Text) → All IsName ns → map trim ns ≡ ns
map-trim [] h = refl
map-trim (n ∷ ns) h = cc (trim-All n h.0.1, map-trim ns h.1)

filter-is_filled : (ns : List Text) → All IsName ns → filter is_filled ns ≡ ns
unfolding filter
filter-is_filled [] h = refl
filter-is_filled (n ∷ ns) h = ground (arith, h.0.0, filter-is_filled ns h.1)

-- Names that are not empty and hold no white space, printed one on each line, are listed as they
-- are.
pub listed-print_lines : (ns : List Text) → All IsName ns → listed (print_lines ns) ≡ ns
unfolding listed
listed-print_lines ns h = rw (lines-print_lines ns h, map-trim ns h) (filter-is_filled ns h)

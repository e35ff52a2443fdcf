-- ===== src/Base/Printing.antt =====
-- Laws of printing and parsing numbers, and of the words of a line.
use server_glass.Base.{
  ℕ, zero, suc, ◌+◌, ◌-◌, ◌*◌, ◌/◌, ◌%◌, ◌≤◌, ◌<◌, ◌≡◌, refl, sym, ap, ◌∙◌, true, some, [], ◌∷◌,
  arith, All, length, Text, show_nat, show_digits, parse_digits, parse_unsigned, is_digit, trim,
  is_whitespace, trim_start, rsplit_at, false, ◌++◌, ◌≢◌, ltb, Bool-cases, inl, inr,
}
use mathlib.Core.List.{reverse, reverse_aux}
use server_glass.Base.Search.{Lacks, split_once-append}

abbrev pub AreDigits : Text → Type 0
AreDigits = All (λ c. is_digit c ≡ true)

show_digits-AreDigits :
    (f n : ℕ) (out : Text) → AreDigits out → n < f → AreDigits (show_digits f n out)
unfolding show_digits is_digit
show_digits-AreDigits zero n out h b = h
show_digits-AreDigits (suc f) n out h b = elim (Bool-cases (ltb n 10)) [
  | inl e ↦ rw e (ground arith, h)
  | inr e ↦
      rw e
        (show_digits-AreDigits f (n / 10) ((b'0' + n % 10) ∷ out) (ground arith, h) (ground arith))
]

digit_back : (n : ℕ) → n / 10 * 10 + (b'0' + n % 10 - b'0') ≡ n
digit_back n = omega arith

parse_digits-show_digits :
    (limit f n : ℕ) (out : Text)
    → n ≤ limit
    → n < f
    → parse_digits limit 0 (show_digits f n out) ≡ parse_digits limit n out
unfolding show_digits parse_digits
parse_digits-show_digits limit zero n out l b = ground arith
parse_digits-show_digits limit (suc f) n out l b = elim (Bool-cases (ltb n 10)) [
  | inl e ↦ rw e (ground arith)
  | inr e ↦ rw e (
      parse_digits-show_digits limit f (n / 10) ((b'0' + n % 10) ∷ out) (omega arith) (ground arith)
      ∙ ground (arith, digit_back n))
]

show_digits-length : (f n : ℕ) (out : Text) → length out < length (show_digits (suc f) n out)
unfolding show_digits
show_digits-length zero n out = ground arith
show_digits-length (suc f) n out =
    ground (arith, show_digits-length f (n / 10) ((b'0' + n % 10) ∷ out))

parse_unsigned-digits :
    (limit : ℕ) (s : Text)
    → AreDigits s
    → 0 < length s
    → parse_unsigned limit s ≡ parse_digits limit 0 s
unfolding parse_unsigned is_digit
parse_unsigned-digits limit [] h b = ground arith
parse_unsigned-digits limit (c ∷ []) h b = ground (arith, h.0)
parse_unsigned-digits limit (c ∷ d ∷ s) h b = ground (arith, h.0)

pub show_nat-AreDigits : (n : ℕ) → AreDigits (show_nat n)
unfolding show_nat
show_nat-AreDigits n = show_digits-AreDigits (suc n) n [] tt (omega arith)

pub show_nat-length : (n : ℕ) → 0 < length (show_nat n)
unfolding show_nat
show_nat-length n = show_digits-length n n []

-- A printed number is read back.
pub parse_unsigned-show_nat : (limit n : ℕ) → n ≤ limit → parse_unsigned limit (show_nat n) ≡ some n
unfolding show_nat
parse_unsigned-show_nat limit n b =
    parse_unsigned-digits limit (show_nat n) (show_nat-AreDigits n) (show_nat-length n)
    ∙ parse_digits-show_digits limit (suc n) n [] b (omega arith)
    ∙ (unfold parse_digits in refl)

reverse_aux-append : (s t r : Text) → reverse_aux (s ++ t) r ≡ reverse_aux t (reverse_aux s r)
reverse_aux-append [] t r = refl
reverse_aux-append (c ∷ s) t r = reverse_aux-append s t (c ∷ r)

append-reverse_aux : (t q r : Text) → reverse_aux t (q ++ r) ≡ reverse_aux t q ++ r
append-reverse_aux [] q r = refl
append-reverse_aux (c ∷ t) q r = append-reverse_aux t (c ∷ q) r

reverse_aux-reverse_aux : (t r : Text) → reverse_aux (reverse_aux t r) [] ≡ reverse_aux r t
reverse_aux-reverse_aux [] r = refl
reverse_aux-reverse_aux (c ∷ t) r = reverse_aux-reverse_aux t (c ∷ r)

reverse_aux-All : (P : ℕ → Type 0) (t r : Text) → All P t → All P r → All P (reverse_aux t r)
reverse_aux-All P [] r ht hr = hr
reverse_aux-All P (c ∷ t) r (hc, ht) hr = reverse_aux-All P t (c ∷ r) ht (hc, hr)

-- A text is split at the last of its characters of a kind.
pub rsplit_at-append : (c : ℕ) (s t : Text) → Lacks c t → rsplit_at c (s ++ c ∷ t) ≡ some (s, t)
unfolding rsplit_at
rsplit_at-append c s t h =
    rw
      (
        reverse_aux-append s (c ∷ t) [],
        append-reverse_aux t [] (c ∷ reverse s),
        split_once-append c (reverse t) (reverse s) (reverse_aux-All (λ d. d ≢ c) t [] h tt),
        reverse_aux-reverse_aux s [],
        reverse_aux-reverse_aux t [],
      )
      refl

trim_start-digits : (s : Text) → AreDigits s → trim_start s ≡ s
unfolding trim_start is_digit is_whitespace
trim_start-digits [] h = refl
trim_start-digits (c ∷ s) h = ground (arith, h.0)

trim_start-digits_append : (s t : Text) → AreDigits s → 0 < length s → trim_start (s ++ t) ≡ s ++ t
unfolding trim_start is_digit is_whitespace
trim_start-digits_append [] t h b = ground arith
trim_start-digits_append (c ∷ s) t h b = ground (arith, h.0)

trim_start-blank : (s : Text) → trim_start (b' ' ∷ s) ≡ trim_start s
unfolding trim_start is_whitespace
trim_start-blank s = refl

pub digits-Lacks : (c : ℕ) (s : Text) → is_digit c ≡ false → AreDigits s → Lacks c s
unfolding is_digit
digits-Lacks c [] e h = tt
digits-Lacks c (d ∷ s) e (hd, h) = (ground (arith, hd), digits-Lacks c s e h)

-- A number with a blank behind it, trimmed.
pub trim-show_nat : (n : ℕ) → trim (show_nat n ++ b' ' ∷ []) ≡ show_nat n
unfolding trim
trim-show_nat n =
    let s = show_nat n in
    rw
      (
        trim_start-digits_append s (b' ' ∷ []) (show_nat-AreDigits n) (show_nat-length n),
        reverse_aux-append s (b' ' ∷ []) [],
        trim_start-blank (reverse s),
        trim_start-digits (reverse s)
            (reverse_aux-All (λ c. is_digit c ≡ true) s [] (show_nat-AreDigits n) tt),
        reverse_aux-reverse_aux s [],
      )
      refl

-- Different numbers are printed differently.
pub show_nat-injective : (m n : ℕ) → show_nat m ≡ show_nat n → m ≡ n
show_nat-injective m n e =
    let limit = m + n in
    ground (
      arith,
      sym (parse_unsigned-show_nat limit m (omega arith))
          ∙ ap (parse_unsigned limit) e
          ∙ parse_unsigned-show_nat limit n (omega arith),
    )

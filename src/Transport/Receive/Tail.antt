-- ===== src/Transport/Receive/Tail.antt =====
-- crates/sg-transport/src/session.rs: searching only the end of the buffer for the terminator.
use server_glass.Base.{
  ℕ, zero, suc, ◌+◌, ◌-◌, ◌≤◌, ◌≡◌, refl, true, false, is_some, List, [], ◌∷◌, ◌++◌, arith, length,
  length-append, drop, find_split, strip_prefix, Bool-cases, leb, ◌||◌, inl, inr,
}
use mathlib.Core.Path.{subst}
use server_glass.Transport.Receive.{contains, tail_of}

-- Whether a text that fits stands at the front does not depend on what follows.
strip_prefix-fits :
    (p xs d : List ℕ)
    → length p ≤ length xs
    → is_some (strip_prefix p (xs ++ d)) ≡ is_some (strip_prefix p xs)
unfolding strip_prefix
strip_prefix-fits [] xs d h = refl
strip_prefix-fits (c ∷ p) [] d h = absurd (omega (arith, h))
strip_prefix-fits (c ∷ p) (x ∷ xs) d h = ground (arith, strip_prefix-fits p xs d (omega (arith, h)))

contains-cons :
    (p : List ℕ) (x : ℕ) (s : List ℕ)
    → contains p (x ∷ s) ≡ (is_some (strip_prefix p (x ∷ s)) || contains p s)
unfolding contains find_split
contains-cons p x s = ground arith

contains-drop : (p s : List ℕ) (n : ℕ) → contains p (drop n s) ≡ true → contains p s ≡ true
contains-drop p s zero h = h
contains-drop p [] (suc n) h = h
contains-drop p (x ∷ s) (suc n) h = ground (arith, contains-cons p x s, contains-drop p s n h)

-- The end of a buffer `xs ++ d`: as many bytes as `d` and the text searched have.
tail_found :
    (p xs d : List ℕ)
    → contains p xs ≡ false
    → contains p (xs ++ d) ≡ true
    → contains p (drop (length xs - length p) (xs ++ d)) ≡ true
tail_found p [] d h k =
    let e : 0 ≡ 0 - length p = omega arith in subst (λ n. contains p (drop n d) ≡ true) e k
tail_found p (x ∷ xs) d h k = elim (Bool-cases (leb (length (x ∷ xs)) (length p))) [
  | inl fits ↦
      let e : 0 ≡ length (x ∷ xs) - length p = ground (arith, fits) in
      subst (λ n. contains p (drop n (x ∷ xs ++ d)) ≡ true) e k
  | inr n ↦
      let e : suc (length xs - length p) ≡ length (x ∷ xs) - length p = ground (arith, n) in
      let front = strip_prefix-fits p (x ∷ xs) d (ground (arith, n)) in
      let not_front = contains-cons p x xs in
      subst (λ n. contains p (drop n (x ∷ xs ++ d)) ≡ true) e
        (tail_found p xs d (ground (arith, h, not_front))
          (ground (arith, k, h, not_front, front, contains-cons p x (xs ++ d))))
]

-- When the bytes before do not hold the text searched, the search of the end alone finds it exactly
-- if it stands anywhere in the buffer.
pub contains-tail_of :
    (needle buf chunk : List ℕ)
    → contains needle buf ≡ false
    → contains needle (tail_of needle (buf ++ chunk) (length chunk))
      ≡ contains needle (buf ++ chunk)
unfolding tail_of
contains-tail_of needle buf chunk h = elim (Bool-cases (contains needle (buf ++ chunk))) [
  | inl y ↦
      let e : length buf - length needle ≡ length (buf ++ chunk) - (length chunk + length needle) =
        omega (arith, length-append buf chunk) in
      rw y (
        subst (λ n. contains needle (drop n (buf ++ chunk)) ≡ true) e
          (tail_found needle buf chunk h y))
  | inr n ↦ rw n (
      ground (
        arith,
        n,
        contains-drop needle (buf ++ chunk)
            (length (buf ++ chunk) - (length chunk + length needle)),
      ))
]

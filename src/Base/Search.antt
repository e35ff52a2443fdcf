-- ===== src/Base/Search.antt =====
-- Laws of searching and splitting text.
use server_glass.Base.{
  ℕ, ◌+◌, ◌<◌, ◌≡◌, ◌≢◌, refl, Bool, none, some, [], ◌∷◌, ◌++◌, arith, ◌==◌, Option-cases, length,
  All, Text, strip_prefix, find_split, split_once, inl, inr,
}

-- The text does not hold the character.
abbrev pub Lacks : ℕ → Text → Type 0
Lacks c = All (λ d. d ≢ c)

pub strip_prefix-append : (p t : Text) → strip_prefix p (p ++ t) ≡ some t
unfolding strip_prefix
strip_prefix-append [] t = refl
strip_prefix-append (c ∷ p) t = ground (arith, strip_prefix-append p t)

-- A pattern that is not a prefix of `s` and lacks `c` is not a prefix of `s ++ c ∷ u` either.
strip_prefix-none_append :
    (c : ℕ) (p s u : Text)
    → Lacks c p
    → strip_prefix p s ≡ none
    → strip_prefix p (s ++ c ∷ u) ≡ none
unfolding strip_prefix
strip_prefix-none_append c [] s u h e = cc
strip_prefix-none_append c (x ∷ p) [] u h e = ground (arith, h.0)
strip_prefix-none_append c (x ∷ p) (d ∷ s) u h e =
    ground (arith, strip_prefix-none_append c p s u h.1)

-- A pattern that begins with a character it does not hold again is found at its first occurrence.
pub find_split-append :
    (c : ℕ) (p s t : Text)
    → Lacks c p
    → find_split (c ∷ p) s ≡ none
    → find_split (c ∷ p) (s ++ (c ∷ p ++ t)) ≡ some (s, t)
unfolding find_split
find_split-append c p [] t h e = ground (arith, strip_prefix-append p t)
find_split-append c p (d ∷ s) t h e =
    ground (arith, strip_prefix-none_append c p s (p ++ t) h, find_split-append c p s t h)

pub find_split-none_of_Lacks : (c : ℕ) (p s : Text) → Lacks c s → find_split (c ∷ p) s ≡ none
unfolding find_split
find_split-none_of_Lacks c p [] h = refl
find_split-none_of_Lacks c p (d ∷ s) h = ground (arith, find_split-none_of_Lacks c p s h.1)

pub find_split-none_cons :
    (c : ℕ) (p : Text) (d : ℕ) (s : Text)
    → strip_prefix (c ∷ p) (d ∷ s) ≡ none
    → find_split (c ∷ p) s ≡ none
    → find_split (c ∷ p) (d ∷ s) ≡ none
unfolding find_split
find_split-none_cons c p d s h k = ground arith

-- Nor is a longer pattern found where its first character is only the last of the text.
pub find_split-none_of_last :
    (c : ℕ) (p s : Text)
    → strip_prefix p [] ≡ none
    → Lacks c s
    → find_split (c ∷ p) (s ++ c ∷ []) ≡ none
unfolding find_split
find_split-none_of_last c p [] e h = ground arith
find_split-none_of_last c p (d ∷ s) e h = ground (arith, find_split-none_of_last c p s e h.1)

-- Texts that differ behind a common start are not prefixes of one another.
pub strip_prefix_differ :
    (p : Text) {x y : ℕ} (q t : Text) → x ≢ y → strip_prefix (p ++ x ∷ q) (p ++ y ∷ t) ≡ none
unfolding strip_prefix
strip_prefix_differ [] q t h = ground arith
strip_prefix_differ (c ∷ p) q t h = ground (arith, strip_prefix_differ p q t h)

pub strip_prefix-nil : (p : Text) (x : ℕ) (q : Text) → strip_prefix (p ++ x ∷ q) [] ≡ none
unfolding strip_prefix
strip_prefix-nil [] x q = refl
strip_prefix-nil (c ∷ p) x q = refl

pub find_split-none_append :
    (c : ℕ) (p s u : Text)
    → Lacks c p
    → find_split (c ∷ p) s ≡ none
    → find_split (c ∷ p) (c ∷ u) ≡ none
    → find_split (c ∷ p) (s ++ c ∷ u) ≡ none
unfolding find_split
find_split-none_append c p [] u h e k = k
find_split-none_append c p (d ∷ s) u h e k =
    ground (arith, strip_prefix-none_append c p s u h, find_split-none_append c p s u h)

-- A text is split at the first newline, or other character, that it holds.
pub split_once-append :
    (c : ℕ) (s t : Text) → Lacks c s → split_once (λ d. d == c) (s ++ c ∷ t) ≡ some (s, t)
unfolding split_once
split_once-append c [] t h = ground arith
split_once-append c (d ∷ s) t h = ground (arith, split_once-append c s t h.1)

-- What is found is shorter than what was searched.
pub strip_prefix-length :
    (p s r : Text) → strip_prefix p s ≡ some r → length r + length p ≡ length s
unfolding strip_prefix
strip_prefix-length [] s r h = ground arith
strip_prefix-length (x ∷ p) [] r h = cc
strip_prefix-length (x ∷ p) (d ∷ s) r h = ground (arith, strip_prefix-length p s r)

pub find_split-length :
    (c : ℕ) (p s : Text) (r : Text × Text) → find_split (c ∷ p) s ≡ some r → length (r.1) < length s
unfolding find_split
find_split-length c p [] r h = cc
find_split-length c p (d ∷ s) r h = elim (Option-cases (strip_prefix (c ∷ p) (d ∷ s))) [
  | inr (t, e) ↦ ground (arith, e, strip_prefix-length (c ∷ p) (d ∷ s) t)
  | inl e ↦ elim (Option-cases (find_split (c ∷ p) s)) [
    | inl f ↦ ground (arith, e, f)
    | inr (q, f) ↦ ground (arith, e, f, find_split-length c p s q f)
  ]
]

pub split_once-length :
    (p : ℕ → Bool) (s : Text) (r : Text × Text) → split_once p s ≡ some r → length (r.1) < length s
unfolding split_once
split_once-length p [] r h = cc
split_once-length p (d ∷ s) r h = elim (Option-cases (split_once p s)) [
  | inl f ↦ ground (arith, f)
  | inr (q, f) ↦ ground (arith, f, split_once-length p s q f)
]

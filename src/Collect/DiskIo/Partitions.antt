-- ===== src/Collect/DiskIo/Partitions.antt =====
-- crates/sg-collect/src/diskio.rs: how the name of a partition continues that of its disk.
use server_glass.Base.{
  ℕ, ◌≤◌, ◌≡◌, ◌≢◌, refl, sym, true, some, [], ◌∷◌, ◌++◌, Text, All, arith, Bool-cases,
  Option-cases, ◌⊎◌, inl, inr, all, is_digit, strip_prefix, text_eq_iff, ◌==◌,
}
use mathlib.Core.Path.{subst}
use server_glass.Base.Search.{strip_prefix-append}
use server_glass.Collect.DiskIo.{is_partition_suffix, is_parent_of}

abbrev pub AreDigits : Text → Type 0
AreDigits = All (λ c. (48 ≤ c) × (c ≤ 57))

-- The number of a partition, with or without a `p` in front.
pub record IsNumber (suffix : Text) : Type 0 where
  pub number : Text
  pub some_digit : number ≢ []
  pub digits : AreDigits number
  pub shape : (suffix ≡ number) ⊎ (suffix ≡ b'p' ∷ number)

-- The name of a disk, continued by the number of a partition: `sda` by `1`, `nvme0n1` by `p1`.
pub record Continues (name disk : Text) : Type 0 where
  pub suffix : Text
  pub joined : name ≡ disk ++ suffix
  pub numbered : IsNumber suffix

all-AreDigits : (s : Text) → all is_digit s ≡ true → AreDigits s
unfolding all is_digit
all-AreDigits [] h = tt
all-AreDigits (c ∷ s) h =
    ((ground (arith, h), ground (arith, h)), all-AreDigits s (ground (arith, h)))

AreDigits-all : (s : Text) → AreDigits s → all is_digit s ≡ true
unfolding all is_digit
AreDigits-all [] h = refl
AreDigits-all (c ∷ s) (b, h) = ground (arith, b, AreDigits-all s h)

-- A prefix that is stripped stood in front of what is left.
strip_prefix_sound : (p s t : Text) → strip_prefix p s ≡ some t → s ≡ p ++ t
unfolding strip_prefix
strip_prefix_sound [] s t h = ground (arith, h)
strip_prefix_sound (c ∷ p) [] t h = ground (arith, h)
strip_prefix_sound (c ∷ p) (d ∷ s) t h = ground (arith, h, strip_prefix_sound p s t)

append_longer : (disk : Text) (c : ℕ) (t : Text) → disk ≢ disk ++ c ∷ t
append_longer [] c t e = ground (arith, e)
append_longer (x ∷ disk) c t e = append_longer disk c t (ground (arith, e))

is_partition_suffix-IsNumber : (suffix : Text) → is_partition_suffix suffix ≡ true → IsNumber suffix
unfolding is_partition_suffix strip_prefix
is_partition_suffix-IsNumber [] h = ground (arith, h)
is_partition_suffix-IsNumber (c ∷ []) h = record {
  number = c ∷ [];
  some_digit = λ e. ground (arith, e);
  digits = all-AreDigits (c ∷ []) (ground (arith, h));
  shape = inl refl;
}
is_partition_suffix-IsNumber (c ∷ d ∷ s) h = elim (Bool-cases (b'p' == c)) [
  | inl e ↦ record {
    number = d ∷ s;
    some_digit = λ e. ground (arith, e);
    digits = all-AreDigits (d ∷ s) (ground (arith, h, e));
    shape = inr (ground (arith, e));
  }
  | inr e ↦ record {
    number = c ∷ d ∷ s;
    some_digit = λ e. ground (arith, e);
    digits = all-AreDigits (c ∷ d ∷ s) (ground (arith, h, e));
    shape = inl refl;
  }
]

digits-is_partition_suffix :
    (number : Text) → number ≢ [] → AreDigits number → is_partition_suffix number ≡ true
unfolding is_partition_suffix strip_prefix
digits-is_partition_suffix [] n h = absurd (n refl)
digits-is_partition_suffix (c ∷ s) n (b, h) = ground (arith, b, AreDigits-all (c ∷ s) (b, h))

numbered-is_partition_suffix :
    (number : Text) → number ≢ [] → AreDigits number → is_partition_suffix (b'p' ∷ number) ≡ true
unfolding is_partition_suffix strip_prefix
numbered-is_partition_suffix [] n h = absurd (n refl)
numbered-is_partition_suffix (c ∷ s) n h = ground (arith, AreDigits-all (c ∷ s) h)

IsNumber-is_partition_suffix : (suffix : Text) → IsNumber suffix → is_partition_suffix suffix ≡ true
IsNumber-is_partition_suffix suffix h = elim h.shape [
  | inl e ↦
      subst (λ t. is_partition_suffix t ≡ true) (sym e)
        (digits-is_partition_suffix h.number h.some_digit h.digits)
  | inr e ↦
      subst (λ t. is_partition_suffix t ≡ true) (sym e)
        (numbered-is_partition_suffix h.number h.some_digit h.digits)
]

pub is_parent_of-Continues :
    (name disk : Text) → is_parent_of name disk ≡ true → Continues name disk
unfolding is_parent_of
is_parent_of-Continues name disk h = elim (Option-cases (strip_prefix disk name)) [
  | inl e ↦ ground (arith, h, e)
  | inr (suffix, e) ↦ record {
    suffix = suffix;
    joined = strip_prefix_sound disk name suffix e;
    numbered = is_partition_suffix-IsNumber suffix (ground (arith, h, e));
  }
]

joined_parent :
    (disk suffix : Text)
    → is_partition_suffix suffix ≡ true
    → is_parent_of (disk ++ suffix) disk ≡ true
unfolding is_parent_of is_partition_suffix
joined_parent disk [] h = ground (arith, h)
joined_parent disk (c ∷ s) h = ground (
  arith,
  h,
  strip_prefix-append disk (c ∷ s),
  text_eq_iff disk (disk ++ c ∷ s),
  append_longer disk c s,
)

pub Continues-is_parent_of :
    (name disk : Text) → Continues name disk → is_parent_of name disk ≡ true
Continues-is_parent_of name disk h =
    subst (λ n. is_parent_of n disk ≡ true) (sym h.joined)
      (joined_parent disk h.suffix (IsNumber-is_partition_suffix h.suffix h.numbered))

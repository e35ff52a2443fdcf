-- ===== src/Collect/DiskIo/Parents.antt =====
-- crates/sg-collect/src/diskio.rs: the disk that a partition belongs to, and what is counted.
use server_glass.Base.{
  ℕ, Option, ◌⊎◌, ◌≤◌, ◌≡◌, refl, sym, ap, ◌∙◌, map, true, none, some, List, [], ◌∷◌, Text, All,
  filter, arith, Bool-cases, Option-cases, inl, inr, leb, any, text_eq, text_eq_iff, len_utf8,
  filter_map, if◌then◌else◌,
}
use mathlib.Core.Path.{subst}
use server_glass.Collect.DiskIo.Partitions.{
  Continues, is_parent_of-Continues, Continues-is_parent_of,
}
use server_glass.Collect.DiskIo.{DiskStats, parent_device, is_parent_of, longest}

abbrev AllAtMost : ℕ → List Text → Type 0
AllAtMost n = All (λ y. len_utf8 y ≤ n)

AllAtMost-weaken : (n m : ℕ) (xs : List Text) → n ≤ m → AllAtMost n xs → AllAtMost m xs
AllAtMost-weaken n m [] h a = tt
AllAtMost-weaken n m (x ∷ xs) h (b, a) = (omega arith, AllAtMost-weaken n m xs h a)

longest-none : (xs : List Text) → longest xs ≡ none → xs ≡ []
unfolding longest
longest-none [] h = refl
longest-none (y ∷ ys) h = elim (Option-cases (longest ys)) [
  | inl e ↦ ground (arith, e)
  | inr (z, e) ↦ ground (arith, e)
]

-- The text found is one of the texts, and none of them is longer.
longest-AllAtMost :
    (xs : List Text) (x : Text)
    → longest xs ≡ some x
    → (any (text_eq x) xs ≡ true) × AllAtMost (len_utf8 x) xs
unfolding longest any
longest-AllAtMost [] x h = ground (arith, h)
longest-AllAtMost (y ∷ ys) x h = elim (Option-cases (longest ys)) [
  | inl e ↦
      let q : y ≡ x = ground (arith, h, e) in
      (
        ground (arith, q, text_eq_iff x y),
        (
          subst (λ w. len_utf8 y ≤ len_utf8 w) q (omega arith),
          subst (AllAtMost (len_utf8 x)) (sym (longest-none ys e)) tt,
        ),
      )
  | inr (z, e) ↦ elim (Bool-cases (leb (len_utf8 y) (len_utf8 z))) [
    | inl l ↦
        let q : z ≡ x = ground (arith, h, e, l) in
        let (member, most) = longest-AllAtMost ys x (e ∙ ap (λ w. some w) q) in
        (ground (arith, member), (subst (λ w. len_utf8 y ≤ len_utf8 w) q (ground (arith, l)), most))
    | inr l ↦
        let q : y ≡ x = ground (arith, h, e, l) in
        (
          ground (arith, q, text_eq_iff x y),
          (
            subst (λ w. len_utf8 y ≤ len_utf8 w) q (omega arith),
            AllAtMost-weaken (len_utf8 z) (len_utf8 x) ys
                (subst (λ w. len_utf8 z ≤ len_utf8 w) q (ground (arith, l)))
                (longest-AllAtMost ys z e).1,
          ),
        )
  ]
]

-- The disks of the list that a device of the name may be a partition of.
abbrev pub candidates : Text → List DiskStats → List DiskStats
candidates name ds = filter (λ d. is_parent_of name d.name) ds

candidates-names :
    (name : Text) (ds : List DiskStats)
    → filter_map (λ d. if is_parent_of name d.name then some d.name else none) ds
      ≡ map (λ d. d.name) (candidates name ds)
unfolding filter_map filter
candidates-names name [] = refl
candidates-names name (d ∷ ds) = elim (Bool-cases (is_parent_of name d.name)) [
  | inl e ↦ rw (filter_map, e, filter) (ap (λ r. d.name ∷ r) (candidates-names name ds))
  | inr e ↦ rw (filter_map, e, filter) (candidates-names name ds)
]

any-names :
    (x : Text) (ds : List DiskStats)
    → any (text_eq x) (map (λ d. d.name) ds) ≡ any (λ d. text_eq x d.name) ds
unfolding any
any-names x [] = refl
any-names x (d ∷ ds) = ground (arith, any-names x ds)

AllAtMost-names :
    (n : ℕ) (ds : List DiskStats)
    → AllAtMost n (map (λ d. d.name) ds)
    → All (λ d. len_utf8 d.name ≤ n) ds
AllAtMost-names n [] a = tt
AllAtMost-names n (d ∷ ds) (b, a) = (b, AllAtMost-names n ds a)

any-candidates :
    (name x : Text) (ds : List DiskStats)
    → any (λ d. text_eq x d.name) (candidates name ds) ≡ true
    → (any (λ d. text_eq x d.name) ds ≡ true) × (is_parent_of name x ≡ true)
unfolding any filter
any-candidates name x [] h = ground (arith, h)
any-candidates name x (d ∷ ds) h = elim (Bool-cases (is_parent_of name d.name)) [
  | inl e ↦ ground (arith, e, h, text_eq_iff x d.name, any-candidates name x ds)
  | inr e ↦ ground (arith, e, h, any-candidates name x ds)
]

-- Where the candidates are not longer, no disk that the name continues is.
candidates-Continues :
    (name : Text) (n : ℕ) (ds : List DiskStats)
    → All (λ d. len_utf8 d.name ≤ n) (candidates name ds)
    → All (λ d. ¬ Continues name d.name ⊎ (len_utf8 d.name ≤ n)) ds
unfolding filter
candidates-Continues name n [] a = tt
candidates-Continues name n (d ∷ ds) a = elim (Bool-cases (is_parent_of name d.name)) [
  | inl e ↦
      let kept : (len_utf8 d.name ≤ n) × All (λ x. len_utf8 x.name ≤ n) (candidates name ds) =
        rw e at a in
      (inr kept.0, candidates-Continues name n ds kept.1)
  | inr e ↦
      let rest : All (λ x. len_utf8 x.name ≤ n) (candidates name ds) = rw e at a in
      (
        inl (λ c. ground (arith, e, Continues-is_parent_of name d.name c)),
        candidates-Continues name n ds rest,
      )
]

no_candidates :
    (name : Text) (ds : List DiskStats)
    → filter_map (λ d. if is_parent_of name d.name then some d.name else none) ds ≡ []
    → All (λ d. ¬ Continues name d.name) ds
unfolding filter_map
no_candidates name [] h = tt
no_candidates name (d ∷ ds) h = elim (Bool-cases (is_parent_of name d.name)) [
  | inl e ↦ ground (arith, h, e)
  | inr e ↦ (
    (λ c. ground (arith, e, Continues-is_parent_of name d.name c)),
    no_candidates name ds (ground (arith, h, e)),
  )
]

-- The longest listed name that the given one continues, or that it continues none of them.
abbrev pub IsParent : Text → List DiskStats → Option Text → Type 0
IsParent name ds none = All (λ d. ¬ Continues name d.name) ds
IsParent name ds (some parent) =
    (any (λ d. text_eq parent d.name) ds ≡ true)
    × Continues name parent
    × All (λ d. ¬ Continues name d.name ⊎ (len_utf8 d.name ≤ len_utf8 parent)) ds

longest-IsParent :
    (name : Text) (ds : List DiskStats) (o : Option Text)
    → parent_device name ds ≡ o
    → IsParent name ds o
unfolding parent_device
longest-IsParent name ds none h = no_candidates name ds (longest-none _ h)
longest-IsParent name ds (some parent) h =
    let e = candidates-names name ds in
    let (member, most) =
      longest-AllAtMost (map (λ d. d.name) (candidates name ds)) parent (ap longest (sym e) ∙ h) in
    let (listed, fits) =
      any-candidates name parent ds (sym (any-names parent (candidates name ds)) ∙ member) in
    (
      listed,
      is_parent_of-Continues name parent fits,
      candidates-Continues name (len_utf8 parent) ds
          (AllAtMost-names (len_utf8 parent) (candidates name ds) most),
    )

-- The disk that is found for a name is listed, the name is that of the disk continued by a number,
-- with or without a `p` in front, and no listed disk of which that is true has a longer name; where
-- none is found, it is true of no listed disk.
pub parent_device-IsParent :
    (name : Text) (ds : List DiskStats) → IsParent name ds (parent_device name ds)
parent_device-IsParent name ds = longest-IsParent name ds (parent_device name ds) refl

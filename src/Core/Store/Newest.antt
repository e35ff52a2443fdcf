-- ===== src/Core/Store/Newest.antt =====
-- crates/sg-core/src/store.rs: which readings the window keeps, and the latest one.
use server_glass.Base.{
  ℕ, suc, ◌+◌, ◌-◌, ◌≤◌, ◌≡◌, refl, Bool, true, false, Option, none, some, get-insert, List, [],
  ◌∷◌, ◌++◌, arith, ltb, length, length-append, length-drop, drop, zero, text_eq, text_eq_iff,
  text_eq_refl, if◌then◌else◌, Bool-cases, inl, inr, append-nil, append_assoc, ◌∙◌, last?,
  last?-append,
}
use server_glass.Base.Float.{FloatOps}
use server_glass.Model.Ids.{SeriesId}
use server_glass.Model.Series.{Value, as_f64, text}
use server_glass.Model.Sample.{Sample}
use server_glass.Model.Entity.{Entity}
use server_glass.Model.Series.{SeriesDescriptor}
use server_glass.Core.Store.{
  Point, LiveStore, pop_front_while, push_point, ingest_value, ingest_text, ingest_samples, ingest,
  latest, history_vec,
}

-- The last `w` elements.
abbrev pub keep_last : {A : Type 0} → ℕ → List A → List A
keep_last w xs = drop (length xs - w) xs

pop_front_while-keep_last :
    {A : Type 0} (w : ℕ) (xs : List A) → pop_front_while w xs ≡ keep_last w xs
unfolding pop_front_while
pop_front_while-keep_last w [] = let e : 0 - w ≡ 0 = omega arith in rw e refl
pop_front_while-keep_last w (x ∷ xs) = elim (Bool-cases (ltb w (length (x ∷ xs)))) [
  | inl l ↦
      let e : suc (length xs) - w ≡ suc (length xs - w) = ground arith in
      rw (l, pop_front_while, e) (pop_front_while-keep_last w xs)
  | inr n ↦ let e : suc (length xs) - w ≡ 0 = ground arith in rw (n, pop_front_while, e) refl
]

drop-append :
    {A : Type 0} (n : ℕ) (xs ys : List A) → n ≤ length xs → drop n (xs ++ ys) ≡ drop n xs ++ ys
drop-append zero xs ys h = refl
drop-append (suc n) [] ys h = absurd (omega arith)
drop-append (suc n) (x ∷ xs) ys h = drop-append n xs ys (omega arith)

drop-drop : {A : Type 0} (m n : ℕ) (xs : List A) → drop m (drop n xs) ≡ drop (n + m) xs
drop-drop m zero xs = let e : 0 + m ≡ m = omega arith in rw e refl
drop-drop zero (suc n) [] = let e : suc n + 0 ≡ suc n = omega arith in rw e refl
drop-drop (suc m) (suc n) [] = let e : suc n + suc m ≡ suc (n + suc m) = omega arith in rw e refl
drop-drop m (suc n) (x ∷ xs) =
    let e : suc n + m ≡ suc (n + m) = omega arith in rw e (drop-drop m n xs)

-- Dropping in two rounds is dropping at the end.
keep_last-append :
    {A : Type 0} (w : ℕ) (xs ys : List A)
    → keep_last w (keep_last w xs ++ ys) ≡ keep_last w (xs ++ ys)
keep_last-append w xs ys =
    let n = length xs - w in
    let zs = xs ++ ys in
    let e : n + (length (drop n zs) - w) ≡ length zs - w =
      omega (arith, length-drop n zs, length-append xs ys) in
    rw (← drop-append n xs ys (omega arith), drop-drop (length (drop n zs) - w) n zs, e) refl

keep_last_short : {A : Type 0} (w : ℕ) (xs : List A) → length xs ≤ w → keep_last w xs ≡ xs
keep_last_short w xs h = let e : length xs - w ≡ 0 = omega arith in rw e refl

keep_last-length : {A : Type 0} (w : ℕ) (xs : List A) → length (keep_last w xs) ≤ w
keep_last-length w xs = omega (arith, length-drop (length xs - w) xs)

last?-keep_last :
    {A : Type 0} (w : ℕ) (xs : List A) (x : A) → 1 ≤ w → last? (keep_last w (xs ++ x ∷ [])) ≡ some x
last?-keep_last w xs x h =
    let n = length (xs ++ x ∷ []) - w in
    let e = drop-append n xs (x ∷ []) (omega (arith, length-append xs (x ∷ []))) in
    rw e (last?-append (drop n xs) x)

if_same : {A : Type 0} (b : Bool) (x : A) → (if b then x else x) ≡ x
if_same true x = refl
if_same false x = refl

ingest_text_kept :
    {F : Type 0} (st : LiveStore F) (k : SeriesId) (v : Value F)
    → ((ingest_text st k v).history ≡ st.history) × ((ingest_text st k v).window ≡ st.window)
unfolding ingest_text
ingest_text_kept st k (text s) = (refl, refl)
ingest_text_kept st k _ = (refl, refl)

ingest_text-history :
    {F : Type 0} (st : LiveStore F) (x k : SeriesId) (v : Value F)
    → length (history_vec st k) ≤ st.window
    → history_vec (ingest_text st x v) k ≡ keep_last st.window (history_vec st k)
unfolding history_vec
ingest_text-history st x k v h =
    rw ((ingest_text_kept st x v).0, keep_last_short st.window (history_vec st k) h) refl

-- A push to one series, seen from the series `k`.
push_point-history :
    {F : Type 0} (st : LiveStore F) (x k : SeriesId) (p : Point F)
    → length (history_vec st k) ≤ st.window
    → history_vec (push_point st x p) k
      ≡ keep_last st.window (history_vec st k ++ (if text_eq x k then p ∷ [] else []))
unfolding history_vec push_point
push_point-history st x k p h = elim (Bool-cases (text_eq x k)) [
  | inl e ↦ rw ((text_eq_iff x k).0 e, get-insert, text_eq_refl, pop_front_while-keep_last) refl
  | inr n ↦ rw (get-insert, n, append-nil, keep_last_short st.window (history_vec st k) h) refl
]

module _ {F : Type 0} ⦃fl : FloatOps F⦄ where
  abbrev pub point_if : Sample F → Option F → List (Point F)
  point_if s none = []
  point_if s (some v) = if fl.is_finite v then record { at_ms = s.at_ms; value = v } ∷ [] else []

  -- The finite numeric readings of the series `k`, in order.
  unfoldable pub points_of : SeriesId → List (Sample F) → List (Point F)
  points_of k [] = []
  points_of k (s ∷ ss) =
      let rest = points_of k ss in
      if text_eq s.series k then point_if s (as_f64 s.value) ++ rest else rest

  ingest_value-window :
      (st : LiveStore F) (s : Sample F) (o : Option F) → (ingest_value st s o).window ≡ st.window
  unfolding ingest_value push_point
  ingest_value-window st s none = (ingest_text_kept st s.series s.value).1
  ingest_value-window st s (some v) = ground (arith, (ingest_text_kept st s.series s.value).1)

  -- One reading, seen from the series `k`.
  ingest_value-history :
      (st : LiveStore F) (s : Sample F) (o : Option F) (k : SeriesId)
      → length (history_vec st k) ≤ st.window
      → history_vec (ingest_value st s o) k
        ≡ keep_last st.window
            (history_vec st k ++ (if text_eq s.series k then point_if s o else []))
  unfolding ingest_value
  ingest_value-history st s none k h =
      rw (if_same {A = List (Point F)} (text_eq s.series k) [], append-nil)
        (ingest_text-history st s.series k s.value h)
  ingest_value-history st s (some v) k h = elim (Bool-cases (fl.is_finite v)) [
    | inl e ↦ rw (ingest_value, e) (push_point-history st s.series k _ h)
    | inr n ↦
        rw (ingest_value, n, if_same {A = List (Point F)} (text_eq s.series k) [], append-nil)
          (ingest_text-history st s.series k s.value h)
  ]

  points_of-cons :
      (k : SeriesId) (s : Sample F) (ss : List (Sample F))
      → points_of k (s ∷ ss)
        ≡ (if text_eq s.series k then point_if s (as_f64 s.value) else []) ++ points_of k ss
  unfolding points_of
  points_of-cons k s ss = elim (Bool-cases (text_eq s.series k)) [
    | inl e ↦ rw (e, points_of) refl
    | inr n ↦ rw (n, points_of) refl
  ]

  ingest_samples-history :
      (st : LiveStore F) (ss : List (Sample F)) (k : SeriesId)
      → length (history_vec st k) ≤ st.window
      → history_vec (ingest_samples st ss) k
        ≡ keep_last st.window (history_vec st k ++ points_of k ss)
  unfolding ingest_samples
  ingest_samples-history st [] k h =
      unfold points_of in rw (append-nil, keep_last_short st.window (history_vec st k) h) refl
  ingest_samples-history st (s ∷ ss) k h =
      let o = as_f64 s.value in
      let st' = ingest_value st s o in
      let now = ingest_value-history st s o k h in
      let same = ingest_value-window st s o in
      let short : length (history_vec st' k) ≤ st'.window =
        rw (now, same) (keep_last-length st.window _) in
      ingest_samples-history st' ss k short
      ∙ rw
          (
            same,
            now,
            keep_last-append st.window
                (history_vec st k ++ (if text_eq s.series k then point_if s o else []))
                (points_of k ss),
            append_assoc,
            points_of-cons k s ss,
          )
          refl

  -- After `ingest` a series holds the newest readings, oldest first, of what it held and of its
  -- finite numeric readings in the tick: as many as the window takes.
  pub ingest-history :
      (st : LiveStore F) (es : List Entity) (ds : List (SeriesDescriptor F)) (ss : List (Sample F))
      (k : SeriesId)
      → length (history_vec st k) ≤ st.window
      → history_vec (ingest st es ds ss) k
        ≡ keep_last st.window (history_vec st k ++ points_of k ss)
  unfolding ingest history_vec
  ingest-history st es ds ss k h = ingest_samples-history _ ss k h

  latest-history_vec : (st : LiveStore F) (k : SeriesId) → latest st k ≡ last? (history_vec st k)
  unfolding latest history_vec last?
  latest-history_vec st k = ground arith

  -- The latest reading of a series is the last finite numeric one that the tick had of it.
  pub ingest-latest :
      (st : LiveStore F) (es : List Entity) (ds : List (SeriesDescriptor F)) (ss : List (Sample F))
      (k : SeriesId) (ps : List (Point F)) (p : Point F)
      → 1 ≤ st.window
      → length (history_vec st k) ≤ st.window
      → points_of k ss ≡ ps ++ p ∷ []
      → latest (ingest st es ds ss) k ≡ some p
  ingest-latest st es ds ss k ps p w h e =
      rw
        (
          latest-history_vec,
          ingest-history st es ds ss k h,
          e,
          ← append_assoc (history_vec st k) ps (p ∷ []),
        )
        (last?-keep_last st.window (history_vec st k ++ ps) p w)

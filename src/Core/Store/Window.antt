-- ===== src/Core/Store/Window.antt =====
-- crates/sg-core/src/store.rs: the cap on the points of a series, over all calls.
use server_glass.Base.{
  ℕ, ◌*◌, ◌≤◌, ◌≡◌, refl, max, ◌++◌, unwrap_or, get, Bool, Option, none, some, Text, Map, insert,
  retain, remove, List, [], ◌∷◌, arith, ltb, length, text_eq, Bool-cases, inl, inr,
}
use server_glass.Base.Float.{FloatOps}
use server_glass.Model.Ids.{SeriesId, EntityId}
use server_glass.Model.Series.{SeriesDescriptor, as_f64, text, Value}
use server_glass.Model.Entity.{Entity}
use server_glass.Model.Sample.{Sample}
use server_glass.Core.Store.{
  Point, LiveStore, pop_front_while, push_point, ingest_value, ingest_samples, ingest, ingest_text,
  retain_series, retain_entities, remove_series, dropped, kept, clear, with_window, point_count,
  series_count, count_points,
}

-- Every series in the map holds at most `w` points.
abbrev pub AllWithin : {F : Type 0} → ℕ → Map (List (Point F)) → Type 0
AllWithin w [] = Unit
AllWithin w ((k, h) ∷ m) = (length h ≤ w) × AllWithin w m

-- The store has the window `w` and keeps to it.
pub record IsBounded {F : Type 0} (w : ℕ) (st : LiveStore F) : Type 0 where
  pub fixed : st.window ≡ w
  pub within : AllWithin w st.history

pub length-pop_front_while : {A : Type 0} (w : ℕ) (xs : List A) → length (pop_front_while w xs) ≤ w
unfolding pop_front_while
length-pop_front_while w [] = omega arith
length-pop_front_while w (x ∷ xs) = elim (Bool-cases (ltb w (length (x ∷ xs)))) [
  | inl e ↦ rw (e, pop_front_while) (length-pop_front_while w xs)
  | inr n ↦ rw (n, pop_front_while) (ground arith)
]

module _ {F : Type 0} where
  insert-AllWithin :
      (w : ℕ) (k : Text) (h : List (Point F)) (m : Map (List (Point F)))
      → length h ≤ w
      → AllWithin w m
      → AllWithin w (insert k h m)
  unfolding insert
  insert-AllWithin w k h [] l a = (l, tt)
  insert-AllWithin w k h ((j, g) ∷ m) l a = elim (Bool-cases (text_eq j k)) [
    | inl e ↦ rw (e, insert) (l, a.1)
    | inr n ↦ rw (n, insert) (a.0, insert-AllWithin w k h m l a.1)
  ]

  retain-AllWithin :
      (w : ℕ) (p : Text → List (Point F) → Bool) (m : Map (List (Point F)))
      → AllWithin w m
      → AllWithin w (retain p m)
  unfolding retain
  retain-AllWithin w p [] a = tt
  retain-AllWithin w p ((j, g) ∷ m) a = elim (Bool-cases (p j g)) [
    | inl e ↦ rw (e, retain) (a.0, retain-AllWithin w p m a.1)
    | inr n ↦ rw (n, retain) (retain-AllWithin w p m a.1)
  ]

  remove-AllWithin :
      (w : ℕ) (k : Text) (m : Map (List (Point F))) → AllWithin w m → AllWithin w (remove k m)
  unfolding remove
  remove-AllWithin w k [] a = tt
  remove-AllWithin w k ((j, g) ∷ m) a = elim (Bool-cases (text_eq j k)) [
    | inl e ↦ rw (e, remove) (remove-AllWithin w k m a.1)
    | inr n ↦ rw (n, remove) (a.0, remove-AllWithin w k m a.1)
  ]

  push_point-IsBounded :
      (w : ℕ) (st : LiveStore F) (k : SeriesId) (p : Point F)
      → IsBounded w st
      → IsBounded w (push_point st k p)
  unfolding push_point
  push_point-IsBounded w st k p b = record {
    fixed = b.fixed;
    within =
        insert-AllWithin w k _ st.history
          (omega (
            arith,
            length-pop_front_while st.window (unwrap_or [] (get k st.history) ++ p ∷ []),
            b.fixed,
          ))
          b.within;
  }

  ingest_text-IsBounded :
      (w : ℕ) (st : LiveStore F) (k : SeriesId) (v : Value F)
      → IsBounded w st
      → IsBounded w (ingest_text st k v)
  unfolding ingest_text
  ingest_text-IsBounded w st k (text s) b = record { fixed = b.fixed; within = b.within }
  ingest_text-IsBounded w st k _ b = b

  remove_series-IsBounded :
      (w : ℕ) (ids : List SeriesId) (st : LiveStore F)
      → IsBounded w st
      → IsBounded w (remove_series ids st)
  unfolding remove_series
  remove_series-IsBounded w [] st b = b
  remove_series-IsBounded w (id ∷ ids) st b =
      remove_series-IsBounded w ids
        (record st {
          descriptors = remove id st.descriptors;
          history = remove id st.history;
          texts = remove id st.texts;
        })
        (record { fixed = b.fixed; within = remove-AllWithin w id st.history b.within })

module _ {F : Type 0} ⦃fl : FloatOps F⦄ where
  ingest_value-IsBounded :
      (w : ℕ) (st : LiveStore F) (s : Sample F) (o : Option F)
      → IsBounded w st
      → IsBounded w (ingest_value st s o)
  unfolding ingest_value
  ingest_value-IsBounded w st s none b = ingest_text-IsBounded w st s.series s.value b
  ingest_value-IsBounded w st s (some v) b = elim (Bool-cases (fl.is_finite v)) [
    | inl e ↦ rw (e, ingest_value) (push_point-IsBounded w st s.series _ b)
    | inr n ↦ rw (n, ingest_value) (ingest_text-IsBounded w st s.series s.value b)
  ]

  ingest_samples-IsBounded :
      (w : ℕ) (st : LiveStore F) (ss : List (Sample F))
      → IsBounded w st
      → IsBounded w (ingest_samples st ss)
  unfolding ingest_samples
  ingest_samples-IsBounded w st [] b = b
  ingest_samples-IsBounded w st (s ∷ ss) b =
      ingest_samples-IsBounded w (ingest_value st s (as_f64 s.value)) ss
        (ingest_value-IsBounded w st s (as_f64 s.value) b)

-- The calls that change a store.
pub data Call (F : Type 0) : Type 0 where
  do_ingest : List Entity → List (SeriesDescriptor F) → List (Sample F) → Call F
  do_retain_series : List (SeriesDescriptor F) → Call F
  do_retain_entities : List EntityId → Call F
  do_clear : Call F

module _ {F : Type 0} ⦃fl : FloatOps F⦄ where
  unfoldable pub apply : LiveStore F → Call F → LiveStore F
  apply st (do_ingest es ds ss) = ingest st es ds ss
  apply st (do_retain_series ds) = retain_series st ds
  apply st (do_retain_entities present) = retain_entities st present
  apply st do_clear = clear st

  unfoldable pub apply_all : LiveStore F → List (Call F) → LiveStore F
  unfolding apply
  apply_all st [] = st
  apply_all st (c ∷ cs) = apply_all (apply st c) cs

  apply-IsBounded :
      (w : ℕ) (st : LiveStore F) (c : Call F) → IsBounded w st → IsBounded w (apply st c)
  unfolding apply ingest retain_series retain_entities clear
  apply-IsBounded w st (do_ingest es ds ss) b =
      ingest_samples-IsBounded w _ ss (record { fixed = b.fixed; within = b.within })
  apply-IsBounded w st (do_retain_series ds) b = record {
    fixed = b.fixed;
    within = retain-AllWithin w _ st.history b.within;
  }
  apply-IsBounded w st (do_retain_entities present) b =
      remove_series-IsBounded w (dropped present st.descriptors)
        (record st { entities = retain (λ id _. kept present id) st.entities })
        (record { fixed = b.fixed; within = b.within })
  apply-IsBounded w st do_clear b = record { fixed = b.fixed; within = tt }

  apply_all-IsBounded :
      (w : ℕ) (st : LiveStore F) (cs : List (Call F))
      → IsBounded w st
      → IsBounded w (apply_all st cs)
  unfolding apply_all
  apply_all-IsBounded w st [] b = b
  apply_all-IsBounded w st (c ∷ cs) b =
      apply_all-IsBounded w (apply st c) cs (apply-IsBounded w st c b)

count_points-le :
    {F : Type 0} (w : ℕ) (m : Map (List (Point F))) → AllWithin w m → count_points m ≤ w * length m
unfolding count_points
count_points-le w [] a = omega arith
count_points-le w ((k, h) ∷ m) a = grind (arith, count_points-le w m a.1)

-- A store made with any window, after any calls, holds at most the window's number of points for
-- each series, and so at most that number times the number of series.
pub point_count-le :
    {F : Type 0} ⦃fl : FloatOps F⦄ (w : ℕ) (cs : List (Call F))
    → let st = apply_all (with_window {F = F} w) cs in
      AllWithin (max w 1) st.history × (point_count st ≤ max w 1 * series_count st)
unfolding point_count series_count with_window
point_count-le w cs =
    let b =
      apply_all-IsBounded (max w 1) (with_window w) cs (record { fixed = refl; within = tt }) in
    (b.within, count_points-le (max w 1) _ b.within)

-- ===== src/Core/Rate/Tracked.antt =====
-- crates/sg-core/src/rate.rs: which series the engine remembers.
use server_glass.Base.{
  ℕ, ◌≡◌, Bool, true, Option, none, some, Text, Map, get, insert, IsMap, List, [], ◌∷◌, arith,
  get-insert, get-retain_key, insert-IsMap, retain-IsMap, text_eq, text_eq_iff, Bool-cases,
  Option-cases, inl, inr, ◌&&◌, ◌||◌, any,
}
use server_glass.Base.Float.{FloatOps}
use server_glass.Model.Series.{SeriesDescriptor, is_counter}
use server_glass.Model.Sample.{Sample}
use server_glass.Core.Rate.{
  Previous, RateEngine, index, index_from, counts, retain_counters, count_reading, process_one,
  process_loop, process,
}

-- Every baseline belongs to a series that `by_id` describes as a counter, and none stands twice.
pub record IsTracked {F : Type 0} (by_id : Map (SeriesDescriptor F)) (m : Map Previous)
    : Type 0 where
  pub counters : (k : Text) (p : Previous) → get k m ≡ some p → counts (get k by_id) ≡ true
  pub distinct : IsMap m

-- The descriptor is a counter's, of the series `k`.
abbrev pub describes_counter : {F : Type 0} → Text → SeriesDescriptor F → Bool
describes_counter k d = text_eq d.id k && is_counter d.kind

module _ {F : Type 0} ⦃fl : FloatOps F⦄ where
  retain-IsTracked :
      (by_id : Map (SeriesDescriptor F)) (m : Map Previous)
      → IsMap m
      → IsTracked by_id (retain_counters by_id m)
  unfolding retain_counters
  retain-IsTracked by_id m h = record {
    counters = λ k p e. ground (arith, get-retain_key (λ j. counts (get j by_id)) k m);
    distinct = retain-IsMap _ m h;
  }

  insert-IsTracked :
      (by_id : Map (SeriesDescriptor F)) (k : Text) (v : Previous) (m : Map Previous)
      → counts (get k by_id) ≡ true
      → IsTracked by_id m
      → IsTracked by_id (insert k v m)
  insert-IsTracked by_id k v m c h = record {
    counters = λ j p e. ground (arith, get-insert k j v m, text_eq_iff k j, h.counters j p);
    distinct = insert-IsMap k v m h.distinct;
  }

  count_reading-IsTracked :
      (by_id : Map (SeriesDescriptor F)) (d : SeriesDescriptor F) (s : Sample F) (m : Map Previous)
      (raw : Option ℕ)
      → counts (get s.series by_id) ≡ true
      → IsTracked by_id m
      → IsTracked by_id (count_reading d s m raw).0
  unfolding count_reading
  count_reading-IsTracked by_id d s m none c h = h
  count_reading-IsTracked by_id d s m (some raw) c h = insert-IsTracked by_id s.series _ m c h

  process_one-IsTracked :
      (by_id : Map (SeriesDescriptor F)) (s : Sample F) (m : Map Previous)
      → IsTracked by_id m
      → IsTracked by_id (process_one (get s.series by_id) s m).0
  unfolding process_one
  process_one-IsTracked by_id s m h = elim (Option-cases (get s.series by_id)) [
    | inl e ↦ rw (e, process_one) h
    | inr (d, e) ↦ elim (Bool-cases (is_counter d.kind)) [
      | inl c ↦ rw (e, process_one, c) (count_reading-IsTracked by_id d s m _ (rw e c) h)
      | inr n ↦ rw (e, process_one, n) h
    ]
  ]

  process_loop-IsTracked :
      (by_id : Map (SeriesDescriptor F)) (ss : List (Sample F)) (m : Map Previous)
      → IsTracked by_id m
      → IsTracked by_id (process_loop by_id ss m).0
  unfolding process_loop
  process_loop-IsTracked by_id [] m h = h
  process_loop-IsTracked by_id (s ∷ ss) m h =
      process_loop-IsTracked by_id ss _ (process_one-IsTracked by_id s m h)

  counts-index_from :
      (ds : List (SeriesDescriptor F)) (m : Map (SeriesDescriptor F)) (k : Text)
      → counts (get k (index_from ds m)) ≡ true
      → (counts (get k m) || any (describes_counter k) ds) ≡ true
  unfolding index_from any
  counts-index_from [] m k h = ground arith
  counts-index_from (d ∷ ds) m k h =
      ground (arith, counts-index_from ds (insert d.id d m) k h, get-insert d.id k d m)

  -- After a tick no series is remembered twice, and a series that is remembered is one that the
  -- tick describes as a counter, whatever the engine remembered before.
  pub process_tracked :
      (e : RateEngine) (ds : List (SeriesDescriptor F)) (ss : List (Sample F)) (k : Text)
      (p : Previous)
      → IsMap e.previous
      → get k (process e ds ss).0.previous ≡ some p
      → IsMap (process e ds ss).0.previous × (any (describes_counter k) ds ≡ true)
  unfolding process index get
  process_tracked e ds ss k p h q =
      let t = process_loop-IsTracked (index ds) ss _ (retain-IsTracked (index ds) e.previous h) in
      (t.distinct, counts-index_from ds [] k (t.counters k p q))

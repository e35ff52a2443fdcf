-- ===== src/Core/Store/Retain.antt =====
-- crates/sg-core/src/store.rs: what the store forgets when series or entities go away.
use server_glass.Base.{
  ◌≡◌, refl, Bool, true, false, Option, none, some, Map, get, IsMap, insert-IsMap, get-insert,
  retain, remove, get-remove, get-retain_key, List, [], ◌∷◌, arith, any, insert, is_some, ◌∙◌,
  retain-IsMap, text_eq, text_eq_iff, if◌then◌else◌, ◌||◌, not,
}
use server_glass.Base.Float.{FloatOps}
use server_glass.Model.Ids.{SeriesId, EntityId}
use server_glass.Model.Series.{SeriesDescriptor, Value, text, as_f64}
use server_glass.Model.Entity.{Entity}
use server_glass.Model.Sample.{Sample}
use server_glass.Core.Store.{
  Point, LiveStore, ingest, ingest_value, ingest_samples, ingest_text, ingest_descriptors,
  push_point, retain_series, retain_entities, remove_series, dropped, described, kept,
}

ingest_text-descriptors :
    {F : Type 0} (st : LiveStore F) (k : SeriesId) (v : Value F)
    → (ingest_text st k v).descriptors ≡ st.descriptors
unfolding ingest_text
ingest_text-descriptors st k (text s) = refl
ingest_text-descriptors st k _ = refl

module _ {F : Type 0} where
  -- Series that the tick does not describe are forgotten whole, the others are left alone, and the
  -- entities are not touched.
  pub retain_series_lem :
      (st : LiveStore F) (ds : List (SeriesDescriptor F)) (k : SeriesId)
      → let st' = retain_series st ds in
        let b = described ds k in
        (get k st'.descriptors ≡ (if b then get k st.descriptors else none))
        × (get k st'.history ≡ (if b then get k st.history else none))
        × (get k st'.texts ≡ (if b then get k st.texts else none))
        × (st'.entities ≡ st.entities)
  unfolding retain_series
  retain_series_lem st ds k = (
    get-retain_key (described ds) k st.descriptors,
    get-retain_key (described ds) k st.history,
    get-retain_key (described ds) k st.texts,
    refl,
  )

  remove_series-get :
      (ids : List SeriesId) (st : LiveStore F) (k : SeriesId)
      → let st' = remove_series ids st in
        let b = any (λ id. text_eq id k) ids in
        (get k st'.descriptors ≡ (if b then none else get k st.descriptors))
        × (get k st'.history ≡ (if b then none else get k st.history))
        × (get k st'.texts ≡ (if b then none else get k st.texts))
        × (st'.entities ≡ st.entities)
  unfolding remove_series any
  remove_series-get [] st k = (refl, refl, refl, refl)
  remove_series-get (id ∷ ids) st k =
      let st1 : LiveStore F = record st {
        descriptors = remove id st.descriptors;
        history = remove id st.history;
        texts = remove id st.texts;
      } in
      ground (
        arith,
        remove_series-get ids st1 k,
        get-remove id k st.descriptors,
        get-remove id k st.history,
        get-remove id k st.texts,
      )

  -- The entity of a stored descriptor is not kept.
  abbrev pub orphaned : List EntityId → Option (SeriesDescriptor F) → Bool
  orphaned present none = false
  orphaned present (some d) = not (kept present d.entity)

  dropped-any :
      (present : List EntityId) (m : Map (SeriesDescriptor F)) (k : SeriesId)
      → IsMap m
      → any (λ id. text_eq id k) (dropped present m) ≡ orphaned present (get k m)
  unfolding dropped any get
  dropped-any present [] k h = refl
  dropped-any present ((id, d) ∷ m) k h =
      ground (arith, text_eq_iff id k, dropped-any present m k h.1, h.0)

  -- Entities that are not kept are gone, and with them every series whose descriptor names one of
  -- them: its descriptor, its history and its text. All else is as it was.
  pub retain_entities_lem :
      (st : LiveStore F) (present : List EntityId) (k : SeriesId) (id : EntityId)
      → IsMap st.descriptors
      → let st' = retain_entities st present in
        let gone = orphaned present (get k st.descriptors) in
        (get id st'.entities ≡ (if kept present id then get id st.entities else none))
        × (get k st'.descriptors ≡ (if gone then none else get k st.descriptors))
        × (get k st'.history ≡ (if gone then none else get k st.history))
        × (get k st'.texts ≡ (if gone then none else get k st.texts))
  unfolding retain_entities
  retain_entities_lem st present k id h =
      let st1 : LiveStore F = record st { entities = retain (λ j _. kept present j) st.entities } in
      let r = remove_series-get (dropped present st.descriptors) st1 k in
      let e = dropped-any present st.descriptors k h in
      (rw r.3 (get-retain_key (kept present) id st.entities), rw e at r.0, rw e at r.1, rw e at r.2)

  ingest_descriptors-described :
      (ds : List (SeriesDescriptor F)) (m : Map (SeriesDescriptor F)) (k : SeriesId)
      → is_some (get k (ingest_descriptors ds m)) ≡ (described ds k || is_some (get k m))
  unfolding ingest_descriptors any
  ingest_descriptors-described [] m k = refl
  ingest_descriptors-described (d ∷ ds) m k =
      ground (arith, ingest_descriptors-described ds (insert d.id d m) k, get-insert d.id k d m)

  ingest_descriptors-IsMap :
      (ds : List (SeriesDescriptor F)) (m : Map (SeriesDescriptor F))
      → IsMap m
      → IsMap (ingest_descriptors ds m)
  unfolding ingest_descriptors
  ingest_descriptors-IsMap [] m h = h
  ingest_descriptors-IsMap (d ∷ ds) m h =
      ingest_descriptors-IsMap ds (insert d.id d m) (insert-IsMap d.id d m h)

module _ {F : Type 0} ⦃fl : FloatOps F⦄ where
  ingest_value-descriptors :
      (st : LiveStore F) (s : Sample F) (o : Option F)
      → (ingest_value st s o).descriptors ≡ st.descriptors
  unfolding ingest_value push_point
  ingest_value-descriptors st s none = ingest_text-descriptors st s.series s.value
  ingest_value-descriptors st s (some v) =
      ground (arith, ingest_text-descriptors st s.series s.value)

  ingest_samples-descriptors :
      (st : LiveStore F) (ss : List (Sample F))
      → (ingest_samples st ss).descriptors ≡ st.descriptors
  unfolding ingest_samples
  ingest_samples-descriptors st [] = refl
  ingest_samples-descriptors st (s ∷ ss) =
      ingest_samples-descriptors (ingest_value st s (as_f64 s.value)) ss
      ∙ ingest_value-descriptors st s (as_f64 s.value)

  -- The descriptor stored for `k` is there and names an entity that is kept.
  abbrev pub OwnedBy : List EntityId → Option (SeriesDescriptor F) → Type 0
  OwnedBy present none = ⊥
  OwnedBy present (some d) = kept present d.entity ≡ true

  owned_cases :
      (present : List EntityId) (b : Bool) (d : Option (SeriesDescriptor F))
      (h : Option (List (Point F)))
      → (b ≡ true → is_some d ≡ true)
      → is_some (if orphaned present (if b then d else none) then none else if b then h else none)
        ≡ true
      → (b ≡ true)
        × OwnedBy present
            (if orphaned present (if b then d else none) then none else if b then d else none)
  owned_cases present false d h f e = cc
  owned_cases present true none h f e = cc (f refl)
  owned_cases present true (some d) h f e = (refl, go (kept present d.entity) refl e)
    where
      go :
          (c : Bool)
          → kept present d.entity ≡ c
          → is_some (if not c then none else h) ≡ true
          → OwnedBy present (if not c then none else some d)
      go true q e' = q
      go false q e' = absurd (no_some e')
        where
          no_some : is_some {A = List (Point F)} none ≡ true → ⊥
          no_some x = cc

  ingest-descriptors :
      (st : LiveStore F) (es : List Entity) (ds : List (SeriesDescriptor F)) (ss : List (Sample F))
      → (ingest st es ds ss).descriptors ≡ ingest_descriptors ds st.descriptors
  unfolding ingest
  ingest-descriptors st es ds ss = ingest_samples-descriptors _ ss

  described-ingest :
      (st : LiveStore F) (es : List Entity) (ds : List (SeriesDescriptor F)) (ss : List (Sample F))
      (k : SeriesId)
      → described ds k ≡ true
      → is_some (get k (ingest st es ds ss).descriptors) ≡ true
  described-ingest st es ds ss k e = rw (ingest-descriptors, ingest_descriptors-described, e) refl

  retained-IsMap :
      (st : LiveStore F) (es : List Entity) (ds : List (SeriesDescriptor F)) (ss : List (Sample F))
      → IsMap st.descriptors
      → IsMap (retain_series (ingest st es ds ss) ds).descriptors
  unfolding retain_series
  retained-IsMap st es ds ss h =
      retain-IsMap _ _ (rw ingest-descriptors (ingest_descriptors-IsMap ds st.descriptors h))

  -- The store calls of one tick.
  abbrev pub after_tick :
      LiveStore F
      → List Entity
      → List (SeriesDescriptor F)
      → List (Sample F)
      → List EntityId
      → LiveStore F
  after_tick st es ds ss present = retain_entities (retain_series (ingest st es ds ss) ds) present

  -- After the store calls of one tick, every series with a history belongs to the tick: the tick
  -- describes it, its descriptor is stored, and the entity of that descriptor is present. The
  -- stored descriptors have no key twice.
  pub tick_owned :
      (st : LiveStore F) (es : List Entity) (ds : List (SeriesDescriptor F)) (ss : List (Sample F))
      (present : List EntityId) (k : SeriesId)
      → IsMap st.descriptors
      → is_some (get k (after_tick st es ds ss present).history) ≡ true
      → (described ds k ≡ true)
        × OwnedBy present (get k (after_tick st es ds ss present).descriptors)
  tick_owned st es ds ss present k h held =
      let st1 = ingest st es ds ss in
      let st2 = retain_series st1 ds in
      let r = retain_series_lem st1 ds k in
      let e = retain_entities_lem st2 present k k (retained-IsMap st es ds ss h) in
      let held' = rw (e.2, r.0, r.1) at held in
      let owned =
        owned_cases present (described ds k) (get k st1.descriptors) (get k st1.history)
          (described-ingest st es ds ss k) held' in
      rw (e.1, r.0) owned

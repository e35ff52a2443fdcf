-- ===== src/Core/Store.antt =====
-- crates/sg-core/src/store.rs: the bounded window of each series and the entity tree of a target.
pub mod Window
pub mod Newest
pub mod Retain
pub mod Views
use server_glass.Base.{
  ℕ, ◌+◌, max, Bool, true, false, not, Option, none, some, Text, Map, get, insert, retain, remove,
  List, [], ◌∷◌, ◌++◌, ltb, length, last?, any, text_eq, if◌then◌else◌, unwrap_or, ◌>>=◌, filter,
}
use server_glass.Base.Int.{ℤ}
use server_glass.Base.Float.{FloatOps}
use server_glass.Model.Ids.{SeriesId, EntityId}
use server_glass.Model.Series.{SeriesDescriptor, Value, text, as_f64}
use server_glass.Model.Entity.{Entity}
use server_glass.Model.Sample.{Sample}

abbrev pub default_window : ℕ
default_window = 300

pub record Point (F : Type 0) : Type 0 where
  pub at_ms : ℤ
  pub value : F

pub record LiveStore (F : Type 0) : Type 0 where
  pub window : ℕ
  pub history : Map (List (Point F))
  pub descriptors : Map (SeriesDescriptor F)
  pub entities : Map Entity
  pub texts : Map Text

-- `while series.len() > self.window { series.pop_front(); }`
unfoldable pub pop_front_while : {A : Type 0} → ℕ → List A → List A
pop_front_while window [] = []
pop_front_while window (x ∷ xs) = elim (ltb window (length (x ∷ xs))) [
  | true ↦ pop_front_while window xs
  | false ↦ x ∷ xs
]

unfoldable pub ingest_entities : List Entity → Map Entity → Map Entity
ingest_entities [] m = m
ingest_entities (e ∷ es) m = ingest_entities es (insert e.id e m)

module _ {F : Type 0} where
  -- `LiveStore::with_window`
  unfoldable pub with_window : ℕ → LiveStore F
  with_window window = record {
    window = max window 1;
    history = [];
    descriptors = [];
    entities = [];
    texts = [];
  }

  -- `entry(…).or_default()`, `push_back` and the loop.
  unfoldable pub push_point : LiveStore F → SeriesId → Point F → LiveStore F
  unfolding pop_front_while
  push_point st series p = record st {
    history =
        insert series (pop_front_while st.window (unwrap_or [] (get series st.history) ++ p ∷ []))
          st.history;
  }

  unfoldable pub ingest_descriptors :
      List (SeriesDescriptor F) → Map (SeriesDescriptor F) → Map (SeriesDescriptor F)
  ingest_descriptors [] m = m
  ingest_descriptors (d ∷ ds) m = ingest_descriptors ds (insert d.id d m)

  -- The arm for what has no finite numeric value.
  unfoldable pub ingest_text : LiveStore F → SeriesId → Value F → LiveStore F
  ingest_text st series (text s) = record st { texts = insert series s st.texts }
  ingest_text st series _ = st

module _ {F : Type 0} ⦃fl : FloatOps F⦄ where
  unfoldable pub ingest_value : LiveStore F → Sample F → Option F → LiveStore F
  unfolding push_point ingest_text
  ingest_value st s none = ingest_text st s.series s.value
  ingest_value st s (some value) =
      if fl.is_finite value
      then push_point st s.series (record { at_ms = s.at_ms; value = value })
      else ingest_text st s.series s.value

  unfoldable pub ingest_samples : LiveStore F → List (Sample F) → LiveStore F
  unfolding ingest_value
  ingest_samples st [] = st
  ingest_samples st (s ∷ ss) = ingest_samples (ingest_value st s (as_f64 s.value)) ss

  -- `LiveStore::ingest`
  unfoldable pub ingest :
      LiveStore F → List Entity → List (SeriesDescriptor F) → List (Sample F) → LiveStore F
  unfolding ingest_samples ingest_entities ingest_descriptors
  ingest st es ds ss =
      ingest_samples
        (record st {
          entities = ingest_entities es st.entities;
          descriptors = ingest_descriptors ds st.descriptors;
        })
        ss

abbrev pub kept : List EntityId → EntityId → Bool
kept present id = any (λ p. text_eq p id) present

module _ {F : Type 0} where
  abbrev pub described : List (SeriesDescriptor F) → SeriesId → Bool
  described ds k = any (λ d. text_eq d.id k) ds

  -- `LiveStore::retain_series`
  unfoldable pub retain_series : LiveStore F → List (SeriesDescriptor F) → LiveStore F
  retain_series st ds = record st {
    descriptors = retain (λ id _. described ds id) st.descriptors;
    history = retain (λ id _. described ds id) st.history;
    texts = retain (λ id _. described ds id) st.texts;
  }

  -- The ids of the descriptors whose entity is not kept.
  unfoldable pub dropped : List EntityId → Map (SeriesDescriptor F) → List SeriesId
  dropped present [] = []
  dropped present ((id, d) ∷ m) =
      let rest = dropped present m in if kept present d.entity then rest else id ∷ rest

  unfoldable pub remove_series : List SeriesId → LiveStore F → LiveStore F
  remove_series [] st = st
  remove_series (id ∷ ids) st = remove_series ids (record st {
    descriptors = remove id st.descriptors;
    history = remove id st.history;
    texts = remove id st.texts;
  })

  -- `LiveStore::retain_entities`
  unfoldable pub retain_entities : LiveStore F → List EntityId → LiveStore F
  unfolding dropped remove_series
  retain_entities st present =
      remove_series (dropped present st.descriptors)
        (record st { entities = retain (λ id _. kept present id) st.entities })

  -- `LiveStore::history_vec`
  unfoldable pub history_vec : LiveStore F → SeriesId → List (Point F)
  history_vec st series = unwrap_or [] (get series st.history)

  -- `LiveStore::latest`
  unfoldable pub latest : LiveStore F → SeriesId → Option (Point F)
  unfolding last?
  latest st series = get series st.history >>= last?

  unfoldable pub count_points : Map (List (Point F)) → ℕ
  count_points [] = 0
  count_points ((id, h) ∷ m) = length h + count_points m

  unfoldable pub point_count : LiveStore F → ℕ
  unfolding count_points
  point_count st = count_points st.history

  unfoldable pub series_count : LiveStore F → ℕ
  series_count st = length st.history

  -- `LiveStore::clear`
  unfoldable pub clear : LiveStore F → LiveStore F
  clear st = record st { history = []; descriptors = []; entities = []; texts = [] }

-- ===== src/Tests/Store.antt =====
-- The live store of one host.
use server_glass.Base.{
  retain, ℕ, ◌*◌, ◌≤◌, ◌≡◌, refl, max, true, is_some, get, IsMap, List, [], ◌∷◌, ◌++◌, arith,
  length, any, text_eq, insert,
}
use server_glass.Model.Series.{as_f64}
use server_glass.Core.Store.{
  with_window, history_vec, ingest, retain_series, retain_entities, point_count, series_count,
  described, remove_series, dropped,
}
use server_glass.Core.Store.Window.{
  AllWithin, Call, do_ingest, do_retain_series, apply_all, point_count-le,
}
use server_glass.Core.Store.Newest.{keep_last, points_of, ingest-history}
use server_glass.Core.Store.Retain.{OwnedBy, after_tick, tick_owned}
use server_glass.Tests.Rate.{first_tick, second_tick}
use server_glass.Tests.Data.{store, whole, load, host_id, described_series, host}

abbrev calls : List (Call ℕ)
calls =
    do_ingest (host ∷ []) described_series first_tick
    ∷ do_ingest [] [] second_tick
    ∷ do_retain_series described_series
    ∷ []

point_count-le_example :
    AllWithin (max 1 1) (apply_all (with_window {F = ℕ} 1) calls).history
    × (point_count (apply_all (with_window {F = ℕ} 1) calls)
        ≤ max 1 1 * series_count (apply_all (with_window {F = ℕ} 1) calls))
point_count-le_example = point_count-le 1 calls

load_fits : length (history_vec store load) ≤ store.window
unfolding history_vec get text_eq
load_fits = omega arith

ingest-history_example :
    history_vec (ingest store [] described_series first_tick) load
    ≡ keep_last 2 (history_vec store load ++ points_of load first_tick)
ingest-history_example = ingest-history store [] described_series first_tick load load_fits

store_distinct : IsMap store.descriptors
unfolding get
store_distinct = (refl, tt)

load_survives :
    is_some
      (get load (after_tick store (host ∷ []) described_series first_tick (host_id ∷ [])).history)
    ≡ true
unfolding get text_eq ingest retain_series retain_entities remove_series dropped retain as_f64
    insert any
load_survives = refl

tick_owned_example :
    (described described_series load ≡ true)
    × OwnedBy (host_id ∷ []) (
        get load
          (after_tick store (host ∷ []) described_series first_tick (host_id ∷ [])).descriptors)
tick_owned_example =
    tick_owned store (host ∷ []) described_series first_tick (host_id ∷ []) load store_distinct
      load_survives

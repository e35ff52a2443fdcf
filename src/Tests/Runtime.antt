-- ===== src/Tests/Runtime.antt =====
-- The collector and the runtime on one host.
use server_glass.Base.{
  all, as_bytes, ℕ, ◌≡◌, refl, some, Text, codes, [], length, map, filter, any, ◌⊎◌, inl, text_eq,
}
use server_glass.Base.Int.{pos}
use server_glass.Base.Distinct.{IsDistinct}
use server_glass.Model.Request.{request_id}
use server_glass.Transport.Error.{closed}
use server_glass.Core.Collector.{applicable, requests, collect}
use server_glass.Core.Collector.Merging.{asks, wants, requests-IsDistinct}
use server_glass.Core.Collector.Isolation.{Isolates, fails, without_failing, collect-Isolates}
use server_glass.Core.Runtime.{TargetRuntime, new_runtime, online, connect}
use server_glass.Core.Runtime.Steps.{tick}
use server_glass.Core.Runtime.Invariant.{IsConsistent, made, goes, connects, Reachable-IsConsistent}
use server_glass.Core.Runtime.Connecting.{Fresh, Lost, connect_outcome}
use server_glass.Core.Runtime.Refresh.{Dropped, Refused, tick-failure}
use server_glass.Tests.Data.{store, whole, ctx, sources, both, answering, dropping}

requests-IsDistinct_example :
    IsDistinct (map request_id (requests both ctx))
    × ((k : Text) → any (asks k) (requests both ctx) ≡ any (wants ctx k) (applicable both ctx.caps))
requests-IsDistinct_example = requests-IsDistinct both ctx

collect-Isolates_example :
    Isolates
      (collect both ctx [] (pos 1))
      (collect (without_failing both ctx [] (pos 1)) ctx [] (pos 1))
      (length (filter (fails ctx [] (pos 1)) (applicable both ctx.caps)))
collect-Isolates_example = collect-Isolates both ctx [] (pos 1)

abbrev started : TargetRuntime ℕ ℕ
started = new_runtime (codes "t") (codes "10.0.0.1") sources

Reachable-IsConsistent_example : IsConsistent (connect answering started).0
Reachable-IsConsistent_example =
    Reachable-IsConsistent
      (goes (made (codes "t") (codes "10.0.0.1") sources) (connects answering started))

abbrev running : TargetRuntime ℕ ℕ
running = record {
  target = codes "t";
  host = codes "10.0.0.1";
  session = some 1;
  ctx = some ctx;
  collector = both;
  store = store;
  state = online;
  attempt = 0;
}

tick_fails : (tick dropping running (pos 5)).1 ≡ inl closed
unfolding tick filter any all text_eq request_id as_bytes
tick_fails = refl

tick-failure_example :
    Refused running closed (tick dropping running (pos 5)).0
    ⊎ Dropped running (tick dropping running (pos 5)).0
tick-failure_example = tick-failure dropping running (pos 5) closed tick_fails

connect_outcome_example :
    Fresh running (connect answering running).0 (connect answering running).1
    ⊎ Lost running (connect answering running).0 (connect answering running).1
connect_outcome_example = connect_outcome answering running

-- ===== src/Collect/Sound/Absent.antt =====
-- crates/sg-collect/src/lib.rs: a host that answers none of the requests.
use server_glass.Base.{◌≡◌, refl, none, [], All, get}
use server_glass.Base.Float.{FloatOps}
use server_glass.Model.Sample.{SampleSink}
use server_glass.Model.Source.{TargetCtx}
use server_glass.Model.Request.{get_response}
use server_glass.Collect.Writes.{when_some, for_each}
use server_glass.Collect.Builtin.{builtin_sources}

-- A built-in source that gets no response reports no error and leaves the sink as it was.
pub builtin_sources-absent :
    {F : Type 0} ⦃fl : FloatOps F⦄ (ctx : TargetCtx) (sink : SampleSink F)
    → All (λ s. s.parse ctx [] sink ≡ (none, sink)) builtin_sources
unfolding builtin_sources when_some for_each get_response get
builtin_sources-absent ctx sink =
    (refl, (refl, (refl, (refl, (refl, (refl, (refl, (refl, (refl, (refl, (refl, tt)))))))))))

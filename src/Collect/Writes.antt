-- ===== src/Collect/Writes.antt =====
-- crates/sg-model/src/sample.rs, as the collectors of crates/sg-collect use it: what a source
-- writes to its sink is a list of calls of `SampleSink::emit` and `SampleSink::entity` in order.
use server_glass.Base.{Option, none, some, List, [], ◌∷◌, ◌++◌, Bool, if◌then◌else◌}
use server_glass.Model.Series.{SeriesDescriptor, Value, with_max}
use server_glass.Model.Entity.{Entity}
use server_glass.Model.Sample.{SampleSink, emit, add_entity}
use server_glass.Model.Source.{Source, SourceDescriptor, TargetCtx}
use server_glass.Model.Request.{Request, Responses}

pub data Write (F : Type 0) : Type 0 where
  emitted : SeriesDescriptor F → Value F → Write F
  declared : Entity → Write F

-- `if let Some(x) = o { … }`
unfoldable pub when_some {ℓ κ} : {A : Type ℓ} {B : Type κ} → Option A → (A → List B) → List B
when_some none f = []
when_some (some a) f = f a

unfoldable pub when {κ} : {B : Type κ} → Bool → List B → List B
when b ws = if b then ws else []

-- `for x in xs { … }`
unfoldable pub for_each {ℓ κ} : {A : Type ℓ} {B : Type κ} → List A → (A → List B) → List B
for_each [] f = []
for_each (x ∷ xs) f = f x ++ for_each xs f

-- `if let Some(limit) = o { d = d.with_max(limit) }`
unfoldable pub with_limit : {F : Type 0} → Option F → SeriesDescriptor F → SeriesDescriptor F
unfolding with_max
with_limit none d = d
with_limit (some limit) d = with_max limit d

module _ {F : Type 0} where
  unfoldable pub perform : List (Write F) → SampleSink F → SampleSink F
  unfolding emit add_entity
  perform [] sink = sink
  perform (emitted d v ∷ ws) sink = perform ws (emit sink d v)
  perform (declared e ∷ ws) sink = perform ws (add_entity sink e)

  -- A source that asks for `requests` and writes `writes` to its sink; it reports no error.
  unfoldable pub writing_source :
      SourceDescriptor
      → (TargetCtx → List Request)
      → (TargetCtx → Responses → List (Write F))
      → Source F
  unfolding perform
  writing_source descriptor requests writes = record {
    descriptor = descriptor;
    requests = requests;
    parse = λ ctx rs sink. (none, perform (writes ctx rs) sink);
  }

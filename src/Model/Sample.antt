-- ===== src/Model/Sample.antt =====
-- crates/sg-model/src/sample.rs: samples and the sink that sources write to.
use server_glass.Base.{List, [], ◌∷◌, ◌++◌}
use server_glass.Base.Int.{ℤ}
use server_glass.Model.Ids.{SeriesId}
use server_glass.Model.Series.{SeriesDescriptor, Value}
use server_glass.Model.Entity.{Entity}

pub record Sample (F : Type 0) : Type 0 where
  pub series : SeriesId
  pub at_ms : ℤ
  pub value : Value F

pub record SampleSink (F : Type 0) : Type 0 where
  pub entities : List Entity
  pub descriptors : List (SeriesDescriptor F)
  pub samples : List (Sample F)
  pub at_ms : ℤ

module _ {F : Type 0} where
  -- `SampleSink::new`
  unfoldable pub new_sink : ℤ → SampleSink F
  new_sink t = record { entities = []; descriptors = []; samples = []; at_ms = t }

  -- `SampleSink::entity`
  unfoldable pub add_entity : SampleSink F → Entity → SampleSink F
  add_entity s e = record s { entities = s.entities ++ e ∷ [] }

  unfoldable pub describe : SampleSink F → SeriesDescriptor F → SampleSink F
  describe s d = record s { descriptors = s.descriptors ++ d ∷ [] }

  unfoldable pub push : SampleSink F → SeriesId → Value F → SampleSink F
  push s series v = record s {
    samples = s.samples ++ record { series = series; at_ms = s.at_ms; value = v } ∷ [];
  }

  unfoldable pub emit : SampleSink F → SeriesDescriptor F → Value F → SampleSink F
  emit s d v = record s {
    samples = s.samples ++ record { series = d.id; at_ms = s.at_ms; value = v } ∷ [];
    descriptors = s.descriptors ++ d ∷ [];
  }

  unfoldable pub absorb : SampleSink F → SampleSink F → SampleSink F
  absorb s o = record s {
    entities = s.entities ++ o.entities;
    descriptors = s.descriptors ++ o.descriptors;
    samples = s.samples ++ o.samples;
  }

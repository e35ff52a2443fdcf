-- ===== src/Model/Source.antt =====
-- crates/sg-model/src/source.rs: the trait `Source` as a record of its methods. A source is pure:
-- `parse` gives the new sink with its result, the sink also where it reports an error.
use server_glass.Base.{ℕ, Bool, Option, List, Text}
use server_glass.Model.Ids.{SourceId, TargetId}
use server_glass.Model.Entity.{Entity, EntityKind}
use server_glass.Model.Caps.{Capabilities, Requirements}
use server_glass.Model.Request.{Request, Responses}
use server_glass.Model.Sample.{SampleSink}

pub record SourceDescriptor : Type 0 where
  pub id : SourceId
  pub display : Text
  pub description : Text
  pub produces : List EntityKind
  pub requires : Requirements
  pub default_enabled : Bool

pub record TargetCtx : Type 0 where
  pub target : TargetId
  pub host : Entity
  pub caps : Capabilities
  pub interval_ms : ℕ

pub record ParseError : Type 0 where
  pub source : SourceId
  pub detail : Text

pub record Source (F : Type 0) : Type 0 where
  pub descriptor : SourceDescriptor
  pub requests : TargetCtx → List Request
  pub parse : TargetCtx → Responses → SampleSink F → Option ParseError × SampleSink F

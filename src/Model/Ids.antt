-- ===== src/Model/Ids.antt =====
-- crates/sg-model/src/ids.rs. Every id is a text of its own type in the source; here a synonym.
use server_glass.Base.{Text, ◌∷◌, ◌++◌}

abbrev pub TargetId : Type 0
TargetId = Text

abbrev pub EntityId : Type 0
EntityId = Text

abbrev pub SeriesId : Type 0
SeriesId = Text

abbrev pub SourceId : Type 0
SourceId = Text

-- `EntityId::child`: `{self}/{kind}:{name}`
unfoldable pub child_id : EntityId → Text → Text → EntityId
child_id self kind name = self ++ (b'/' ∷ (kind ++ (b':' ∷ name)))

-- `SeriesId::of`: `{entity}#{metric}`
unfoldable pub series_of : EntityId → Text → SeriesId
series_of entity metric = entity ++ (b'#' ∷ metric)

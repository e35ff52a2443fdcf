-- ===== src/Collect/Sound.antt =====
-- crates/sg-collect: what makes the writes of a source sound, by the shape of the code that
-- writes them.
pub mod Host
pub mod Devices
pub mod Sinks
pub mod Ticks
pub mod Absent
use server_glass.Base.{
  ◌≡◌, refl, true, false, Bool, Bool-cases, inl, inr, Option, none, some, List, [], ◌∷◌, ◌++◌, All,
  All-append,
}
use server_glass.Model.Ids.{SourceId, EntityId, series_of}
use server_glass.Model.Caps.{contains}
use server_glass.Model.Entity.{Entity}
use server_glass.Model.Series.{SeriesDescriptor, Value}
use server_glass.Collect.Writes.{Write, emitted, declared, when_some, when, for_each, with_limit}

module _ {F : Type 0} where
  abbrev pub declared_ids : List (Write F) → List EntityId
  declared_ids [] = []
  declared_ids (emitted d v ∷ ws) = declared_ids ws
  declared_ids (declared e ∷ ws) = e.id ∷ declared_ids ws

  -- A series is the source's own, its id is made of its entity and metric, and its entity is one of
  -- `ids`; an entity is a child of the host.
  abbrev pub IsOwnWrite : SourceId → Entity → List EntityId → Write F → Type 0
  IsOwnWrite source host ids (emitted d v) =
      (d.id ≡ series_of d.entity d.metric) × (d.source ≡ source) × (contains ids d.entity ≡ true)
  IsOwnWrite source host ids (declared e) = e.parent ≡ some host.id

  -- Every entity that is written is one of `ids`.
  abbrev pub Covers : List EntityId → List (Write F) → Type 0
  Covers ids [] = Unit
  Covers ids (emitted d v ∷ ws) = Covers ids ws
  Covers ids (declared e ∷ ws) = (contains ids e.id ≡ true) × Covers ids ws

  Covers-append :
      (ids : List EntityId) (ws vs : List (Write F))
      → Covers ids (ws ++ vs)
      → Covers ids ws × Covers ids vs
  Covers-append ids [] vs c = (tt, c)
  Covers-append ids (emitted d v ∷ ws) vs c = Covers-append ids ws vs c
  Covers-append ids (declared e ∷ ws) vs (c, cs) =
      let (a, b) = Covers-append ids ws vs cs in ((c, a), b)

-- The writes are sound for every set of ids that holds the host and the entities written.
pub record Own {F : Type 0} (source : SourceId) (host : Entity) (ws : List (Write F)) : Type 0 where
  pub within :
      (ids : List EntityId)
      → contains ids host.id ≡ true
      → Covers ids ws
      → All (IsOwnWrite source host ids) ws

-- What is written for one entity: series of it, then the entity.
pub record Block {F : Type 0} (source : SourceId) (host e : Entity) (ws : List (Write F))
    : Type 0 where
  pub covered : (ids : List EntityId) → Covers ids ws → contains ids e.id ≡ true
  pub block_within :
      (ids : List EntityId) → contains ids e.id ≡ true → All (IsOwnWrite source host ids) ws

module _ {F : Type 0} {source : SourceId} {host : Entity} where
  pub Own-append :
      (ws vs : List (Write F))
      → Own source host ws
      → Own source host vs
      → Own source host (ws ++ vs)
  Own-append ws vs o p = record {
    within = λ ids h c.
        let (a, b) = Covers-append ids ws vs c in
        All-append (IsOwnWrite source host ids) ws vs (o.within ids h a) (p.within ids h b);
  }

  pub Own-nil : Own {F = F} source host []
  Own-nil = record { within = λ ids h c. tt }

  -- A series of the host.
  pub Own-cons :
      {d : SeriesDescriptor F} {v : Value F} {vs : List (Write F)}
      → d.id ≡ series_of d.entity d.metric
      → d.source ≡ source
      → d.entity ≡ host.id
      → Own source host vs
      → Own source host (emitted d v ∷ vs)
  Own-cons i s e o = record { within = λ ids h c. ((i, s, rw e h), o.within ids h c) }

  pub Own-host :
      {d : SeriesDescriptor F} {v : Value F}
      → d.id ≡ series_of d.entity d.metric
      → d.source ≡ source
      → d.entity ≡ host.id
      → Own source host (emitted d v ∷ [])
  Own-host i s e = Own-cons i s e Own-nil

  pub Own-when_some :
      {A : Type 0} (o : Option A) {f : A → List (Write F)}
      → ((a : A) → Own source host (f a))
      → Own source host (when_some o f)
  unfolding when_some
  Own-when_some none k = Own-nil
  Own-when_some (some a) k = k a

  pub Own-when : (b : Bool) {ws : List (Write F)} → Own source host ws → Own source host (when b ws)
  unfolding when
  Own-when true o = o
  Own-when false o = Own-nil

  pub Own-for_each :
      {A : Type 0} (xs : List A) {f : A → List (Write F)}
      → ((a : A) → Own source host (f a))
      → Own source host (for_each xs f)
  unfolding for_each
  Own-for_each [] k = Own-nil
  Own-for_each (x ∷ xs) {f = f} k = Own-append (f x) (for_each xs f) (k x) (Own-for_each xs k)

module _ {F : Type 0} {source : SourceId} {host e : Entity} where
  pub Block-end : e.parent ≡ some host.id → Block {F = F} source host e (declared e ∷ [])
  Block-end p = record { covered = λ ids c. c.0; block_within = λ ids h. (p, tt) }

  pub Block-cons :
      {d : SeriesDescriptor F} {v : Value F} {vs : List (Write F)}
      → d.id ≡ series_of d.entity d.metric
      → d.source ≡ source
      → d.entity ≡ e.id
      → Block source host e vs
      → Block source host e (emitted d v ∷ vs)
  Block-cons i s q b = record {
    covered = λ ids c. b.covered ids c;
    block_within = λ ids h. ((i, s, rw q h), b.block_within ids h);
  }

  pub Block-for_each :
      {A : Type 0} (xs : List A) (d : A → SeriesDescriptor F) (v : A → Value F)
      {vs : List (Write F)}
      → ((a : A)
          → ((d a).id ≡ series_of (d a).entity (d a).metric)
            × ((d a).source ≡ source)
            × ((d a).entity ≡ e.id))
      → Block source host e vs
      → Block source host e (for_each xs (λ a. emitted (d a) (v a) ∷ []) ++ vs)
  unfolding for_each
  Block-for_each [] d v k b = b
  Block-for_each (x ∷ xs) d v k b =
      let (i, s, q) = k x in Block-cons i s q (Block-for_each xs d v k b)

  pub Block-when_some :
      {A : Type 0} (o : Option A) (d : A → SeriesDescriptor F) (v : A → Value F)
      {vs : List (Write F)}
      → ((a : A)
          → ((d a).id ≡ series_of (d a).entity (d a).metric)
            × ((d a).source ≡ source)
            × ((d a).entity ≡ e.id))
      → Block source host e vs
      → Block source host e (when_some o (λ a. emitted (d a) (v a) ∷ []) ++ vs)
  unfolding when_some
  Block-when_some none d v k b = b
  Block-when_some (some a) d v k b = let (i, s, q) = k a in Block-cons i s q b

  pub Block-limit :
      (o : Option F) (d : SeriesDescriptor F) {v : Value F} {vs : List (Write F)}
      → d.id ≡ series_of d.entity d.metric
      → d.source ≡ source
      → d.entity ≡ e.id
      → Block source host e vs
      → Block source host e (emitted (with_limit o d) v ∷ vs)
  unfolding with_limit
  Block-limit none d i s q b = Block-cons i s q b
  Block-limit (some limit) d i s q b = Block-cons i s q b

  pub Own-Block : {ws : List (Write F)} → Block source host e ws → Own source host ws
  Own-Block b = record { within = λ ids h c. b.block_within ids (b.covered ids c) }

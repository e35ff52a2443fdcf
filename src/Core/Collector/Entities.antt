-- ===== src/Core/Collector/Entities.antt =====
-- crates/sg-core/src/collector.rs: merging the entities that several sources declare.
use server_glass.Base.{
  ◌≡◌, refl, sym, ◌∙◌, ap, inl, inr, Bool, true, ◌||◌, Option, none, some, is_some, Text, Map, get,
  remove, get-insert, get-remove, List, [], ◌∷◌, arith, any, any-append, map, text_eq, text_eq_iff,
  text_eq_refl, Option-cases,
}
use mathlib.Core.Path.{subst}
use server_glass.Base.Distinct.{IsDistinct, IsDistinct-append}
use server_glass.Model.Ids.{EntityId}
use server_glass.Model.Entity.{Entity}
use server_glass.Core.Collector.{
  extend_labels, merge_entity, merge_entities, take_entities, dedup_entities,
}

-- The order lists the keys of the map, each once, and the map's entities stand under their ids.
record Held (acc : Map Entity × List EntityId) : Type 0 where
  distinct : IsDistinct acc.1
  same : (k : Text) → any (text_eq k) acc.1 ≡ is_some (get k acc.0)
  named : (k : Text) (e : Entity) → get k acc.0 ≡ some e → e.id ≡ k

merge_entity-Held :
    (e : Entity) (o : Option Entity) (acc : Map Entity × List EntityId)
    → get e.id acc.0 ≡ o
    → Held acc
    → Held (merge_entity e o acc)
unfolding merge_entity any
merge_entity-Held e none (m, order) g h = record {
  distinct = IsDistinct-append order e.id h.distinct (ground (arith, h.same e.id, g));
  same = λ k. ground (
    arith,
    any-append (text_eq k) order (e.id ∷ []),
    h.same k,
    get-insert e.id k e m,
    text_eq_iff e.id k,
    text_eq_iff k e.id,
  );
  named = λ k x q. ground (arith, get-insert e.id k e m, h.named k x, text_eq_iff e.id k, q);
}
merge_entity-Held e (some existing) (m, order) g h =
    let merged = record existing { labels = extend_labels e.labels existing.labels } in
    record {
      distinct = h.distinct;
      same = λ k. ground (arith, h.same k, get-insert e.id k merged m, text_eq_iff e.id k, g);
      named = λ k x q. ground (
        arith,
        get-insert e.id k merged m,
        h.named k x,
        h.named e.id existing g,
        text_eq_iff e.id k,
        q,
      );
    }

merge_entities-Held :
    (es : List Entity) (acc : Map Entity × List EntityId) → Held acc → Held (merge_entities es acc)
unfolding merge_entities
merge_entities-Held [] acc h = h
merge_entities-Held (e ∷ es) acc h =
    merge_entities-Held es (merge_entity e (get e.id acc.0) acc)
      (merge_entity-Held e (get e.id acc.0) acc refl h)

-- An entity with the id `k`.
abbrev pub has_id : Text → Entity → Bool
has_id k e = text_eq k e.id

merge_entity-any :
    (k : Text) (e : Entity) (o : Option Entity) (acc : Map Entity × List EntityId)
    → get e.id acc.0 ≡ o
    → Held acc
    → any (text_eq k) (merge_entity e o acc).1 ≡ (any (text_eq k) acc.1 || has_id k e)
unfolding merge_entity any
merge_entity-any k e none (m, order) g h = ground (arith, any-append (text_eq k) order (e.id ∷ []))
merge_entity-any k e (some existing) (m, order) g h =
    ground (arith, h.same k, text_eq_iff k e.id, g)

merge_entities-any :
    (k : Text) (es : List Entity) (acc : Map Entity × List EntityId)
    → Held acc
    → any (text_eq k) (merge_entities es acc).1 ≡ (any (text_eq k) acc.1 || any (has_id k) es)
unfolding merge_entities any
merge_entities-any k [] acc h = ground arith
merge_entities-any k (e ∷ es) acc h = ground (
  arith,
  merge_entities-any k es (merge_entity e (get e.id acc.0) acc)
      (merge_entity-Held e (get e.id acc.0) acc refl h),
  merge_entity-any k e (get e.id acc.0) acc refl h,
)

take_entities-ids :
    (ids : List EntityId) (m : Map Entity)
    → IsDistinct ids
    → ((k : Text) → any (text_eq k) ids ≡ true → is_some (get k m) ≡ true)
    → ((k : Text) (e : Entity) → get k m ≡ some e → e.id ≡ k)
    → map (λ e. e.id) (take_entities ids m) ≡ ids
unfolding take_entities any
take_entities-ids [] m d p named = refl
take_entities-ids (id ∷ ids) m (di, d) p named =
    let rest =
      take_entities-ids ids (remove id m) d
        (λ k q. ground (arith, get-remove id k m, text_eq_iff id k, p k, q, di))
        (λ k e q. ground (arith, get-remove id k m, text_eq_iff id k, named k e, q)) in
    elim (Option-cases (get id m)) [
      | inl n ↦ ground (arith, n, p id, text_eq_refl id)
      | inr (e, f) ↦ rw (f, take_entities) (cc (named id e f, rest))
    ]

pub any-map :
    (k : Text) (es : List Entity) → any (text_eq k) (map (λ e. e.id) es) ≡ any (has_id k) es
unfolding any
any-map k [] = refl
any-map k (e ∷ es) = ground (arith, any-map k es)

-- The ids of the merged entities are distinct, and they are the ids that were declared.
pub dedup_entities-IsDistinct :
    (es : List Entity)
    → IsDistinct (map (λ e. e.id) (dedup_entities es))
      × ((k : Text) → any (has_id k) (dedup_entities es) ≡ any (has_id k) es)
unfolding dedup_entities any get
dedup_entities-IsDistinct es =
    let start : Held ([], []) = record {
      distinct = tt;
      same = λ k. refl;
      named = λ k e q. ground (arith, q);
    } in
    let h = merge_entities-Held es ([], []) start in
    let acc = merge_entities es ([], []) in
    let ids = take_entities-ids acc.1 acc.0 h.distinct (λ k q. sym (h.same k) ∙ q) h.named in
    (
      subst IsDistinct (sym ids) h.distinct,
      λ k.
          sym (any-map k (take_entities acc.1 acc.0))
          ∙ ap (any (text_eq k)) ids
          ∙ merge_entities-any k es ([], []) start,
    )

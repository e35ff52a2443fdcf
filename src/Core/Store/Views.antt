-- ===== src/Core/Store/Views.antt =====
-- crates/sg-core/src/store.rs: what the screens read. Where two entries compare equal, their order
-- is that of the map, which the source leaves open.
use server_glass.Base.{
  ◌≡◌, refl, ◌∙◌, Bool, false, Option, none, some, Text, Map, get, List, [], ◌∷◌, arith, any,
  filter, text_eq, ◌&&◌,
}
use server_glass.Base.Sort.{sort_by, sort_by-IsSorted, sort_by-any, IsSorted}
use server_glass.Model.Ids.{SeriesId, EntityId}
use server_glass.Model.Series.{SeriesDescriptor}
use server_glass.Model.Entity.{Entity}
use server_glass.Core.Store.{LiveStore}

-- `values()`
abbrev pub values : {V : Type 0} → Map V → List V
values [] = []
values ((k, v) ∷ m) = v ∷ values m

abbrev pub has_parent : EntityId → Option EntityId → Bool
has_parent parent none = false
has_parent parent (some p) = text_eq p parent

module _ {F : Type 0} where
  -- `LiveStore::text`
  unfoldable pub text : LiveStore F → SeriesId → Option Text
  text st series = get series st.texts

  -- `LiveStore::descriptor`
  unfoldable pub descriptor : LiveStore F → SeriesId → Option (SeriesDescriptor F)
  descriptor st series = get series st.descriptors

  -- `LiveStore::entity`
  unfoldable pub entity : LiveStore F → EntityId → Option Entity
  entity st id = get id st.entities

  -- `LiveStore::series_for`
  unfoldable pub series_for : LiveStore F → EntityId → List (SeriesDescriptor F)
  unfolding sort_by
  series_for st e =
      sort_by (λ (d : SeriesDescriptor F). d.metric)
        (filter (λ d. text_eq d.entity e) (values st.descriptors))

  -- `LiveStore::children_of`
  unfoldable pub children_of : LiveStore F → EntityId → List Entity
  unfolding sort_by
  children_of st parent =
      sort_by (λ (e : Entity). e.display)
        (filter (λ e. has_parent parent e.parent) (values st.entities))

any-filter :
    {A : Type 0} (p q : A → Bool) (xs : List A) → any p (filter q xs) ≡ any (λ x. q x && p x) xs
unfolding any filter
any-filter p q [] = refl
any-filter p q (x ∷ xs) = ground (arith, any-filter p q xs)

-- The series of an entity come sorted by metric, and the children of an entity by display name;
-- they are the stored descriptors of that entity, and the stored entities with that parent.
pub views-IsSorted :
    {F : Type 0} (st : LiveStore F) (id : EntityId)
    → IsSorted (λ (d : SeriesDescriptor F). d.metric) (series_for st id)
      × ((p : SeriesDescriptor F → Bool)
          → any p (series_for st id)
            ≡ any (λ d. text_eq d.entity id && p d) (values st.descriptors))
      × IsSorted (λ (e : Entity). e.display) (children_of st id)
      × ((p : Entity → Bool)
          → any p (children_of st id)
            ≡ any (λ e. has_parent id e.parent && p e) (values st.entities))
unfolding series_for children_of
views-IsSorted {F} st id = (
  sort_by-IsSorted (λ (d : SeriesDescriptor F). d.metric)
      (filter (λ d. text_eq d.entity id) (values st.descriptors)),
  λ p.
      sort_by-any (λ (d : SeriesDescriptor F). d.metric) p _
      ∙ any-filter p (λ d. text_eq d.entity id) (values st.descriptors),
  sort_by-IsSorted (λ (e : Entity). e.display)
      (filter (λ e. has_parent id e.parent) (values st.entities)),
  λ p.
      sort_by-any (λ (e : Entity). e.display) p _
      ∙ any-filter p (λ e. has_parent id e.parent) (values st.entities),
)

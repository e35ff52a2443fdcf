-- ===== src/Core/Collector/Merging.antt =====
-- crates/sg-core/src/collector.rs: the merged requests of a refresh.
use server_glass.Base.{
  ◌≡◌, refl, sym, ◌∙◌, inl, inr, Bool, ◌||◌, Text, List, [], ◌∷◌, ◌++◌, arith, any, any-append, map,
  text_eq, text_eq_iff, Bool-cases,
}
use mathlib.Core.Path.{subst, ap}
use server_glass.Base.Distinct.{IsDistinct, IsDistinct-append}
use server_glass.Model.Request.{Request, request_id}
use server_glass.Model.Source.{Source, TargetCtx}
use server_glass.Core.Collector.{Collector, applicable, merge_requests, merge_sources, requests}

-- A request with the id `k`.
abbrev pub asks : Text → Request → Bool
asks k r = text_eq k (request_id r)

-- Some source of the list wants a request with the id `k`.
abbrev pub wants : {F : Type 0} → TargetCtx → Text → Source F → Bool
wants ctx k s = any (asks k) (s.requests ctx)

-- The ids that were seen are those of the merged requests, and none stands twice.
abbrev Good : List Text × List Request → Type 0
Good acc = IsDistinct acc.0 × (acc.0 ≡ map request_id acc.1)

map-snoc :
    (rs : List Request) (r : Request)
    → map request_id (rs ++ r ∷ []) ≡ map request_id rs ++ request_id r ∷ []
map-snoc [] r = refl
map-snoc (q ∷ rs) r = ap (λ x. request_id q ∷ x) (map-snoc rs r)

merge_requests-Good :
    (rs : List Request) (acc : List Text × List Request) → Good acc → Good (merge_requests rs acc)
unfolding merge_requests
merge_requests-Good [] acc g = g
merge_requests-Good (r ∷ rs) (ids, merged) (d, e) =
    elim (Bool-cases (any (text_eq (request_id r)) ids)) [
      | inl y ↦ rw (y, merge_requests) (merge_requests-Good rs (ids, merged) (d, e))
      | inr n ↦
          rw (n, merge_requests)
            (merge_requests-Good rs (ids ++ request_id r ∷ [], merged ++ r ∷ [])
              (
                IsDistinct-append ids (request_id r) d n,
                ap (λ x. x ++ request_id r ∷ []) e ∙ sym (map-snoc merged r),
              ))
    ]

merge_requests-any :
    (k : Text) (rs : List Request) (acc : List Text × List Request)
    → any (text_eq k) (merge_requests rs acc).0 ≡ (any (text_eq k) acc.0 || any (asks k) rs)
unfolding merge_requests any
merge_requests-any k [] acc = ground arith
merge_requests-any k (r ∷ rs) (ids, merged) = elim (Bool-cases (any (text_eq (request_id r)) ids)) [
  | inl y ↦
      rw (y, merge_requests)
        (ground (arith, merge_requests-any k rs (ids, merged), text_eq_iff k (request_id r), y))
  | inr n ↦
      rw (n, merge_requests)
        (ground (
          arith,
          merge_requests-any k rs (ids ++ request_id r ∷ [], merged ++ r ∷ []),
          any-append (text_eq k) ids (request_id r ∷ []),
        ))
]

any-map : (k : Text) (rs : List Request) → any (text_eq k) (map request_id rs) ≡ any (asks k) rs
unfolding any
any-map k [] = refl
any-map k (r ∷ rs) = ground (arith, any-map k rs)

module _ {F : Type 0} where
  merge_sources-Good :
      (ctx : TargetCtx) (ss : List (Source F)) (acc : List Text × List Request)
      → Good acc
      → Good (merge_sources ctx ss acc)
  unfolding merge_sources
  merge_sources-Good ctx [] acc g = g
  merge_sources-Good ctx (s ∷ ss) acc g =
      merge_sources-Good ctx ss (merge_requests (s.requests ctx) acc)
        (merge_requests-Good (s.requests ctx) acc g)

  merge_sources-any :
      (ctx : TargetCtx) (k : Text) (ss : List (Source F)) (acc : List Text × List Request)
      → any (text_eq k) (merge_sources ctx ss acc).0
        ≡ (any (text_eq k) acc.0 || any (wants ctx k) ss)
  unfolding merge_sources any
  merge_sources-any ctx k [] acc = ground arith
  merge_sources-any ctx k (s ∷ ss) acc = ground (
    arith,
    merge_sources-any ctx k ss (merge_requests (s.requests ctx) acc),
    merge_requests-any k (s.requests ctx) acc,
  )

  -- The ids of the merged requests are distinct, and an id is among them exactly when a source
  -- that is switched on and supported asks for a request with that id.
  pub requests-IsDistinct :
      (c : Collector F) (ctx : TargetCtx)
      → IsDistinct (map request_id (requests c ctx))
        × ((k : Text) → any (asks k) (requests c ctx) ≡ any (wants ctx k) (applicable c ctx.caps))
  unfolding requests any
  requests-IsDistinct c ctx =
      let ss = applicable c ctx.caps in
      let g = merge_sources-Good ctx ss ([], []) (tt, refl) in
      (
        subst IsDistinct g.1 g.0,
        λ k.
            sym (ap (any (text_eq k)) g.1 ∙ any-map k (merge_sources ctx ss ([], [])).1)
            ∙ merge_sources-any ctx k ss ([], []),
      )

-- ===== src/Ffi/Registry/Stale.antt =====
-- crates/sg-ffi/src/lib.rs: the steps of a target and its runs, and what reaches the screens.
use server_glass.Base.{
  ℕ, ◌+◌, ◌%◌, ◌^◌, ◌≤◌, ◌<◌, ◌≡◌, refl, false, List, [], ◌∷◌, Text, All, arith, ◌==◌,
}
use server_glass.Base.Float.{FloatOps}
use server_glass.Ffi.State.{ConnectionState}
use server_glass.Ffi.Snapshot.{TargetSnapshot}
use server_glass.Ffi.Registry.{Target, publish, publish_snapshot, stop_target}

-- What a run may do to its target: publish a state, or the snapshot of a tick.
pub data Publication (F : Type 0) : Type 0 where
  state_by : ℕ → ConnectionState → Publication F
  view_by : ℕ → TargetSnapshot F → Publication F

abbrev pub publisher : {F : Type 0} → Publication F → ℕ
publisher (state_by generation state) = generation
publisher (view_by generation view) = generation

module _ {F : Type 0} ⦃fl : FloatOps F⦄ (to_lowercase : Text → Text) where
  unfoldable pub publish_all : List (Publication F) → Target F → Target F
  unfolding publish publish_snapshot
  publish_all [] t = t
  publish_all (state_by generation state ∷ ps) t =
      publish_all ps (publish to_lowercase t generation state)
  publish_all (view_by generation view ∷ ps) t = publish_all ps (publish_snapshot t generation view)

  -- Publications by other generations than the target's change nothing.
  publish_all-stale :
      (ps : List (Publication F)) (t : Target F)
      → All (λ p. (t.generation == publisher p) ≡ false) ps
      → publish_all ps t ≡ t
  unfolding publish_all
  publish_all-stale [] t h = refl
  publish_all-stale (state_by g st ∷ ps) t (e, h) = rw e (publish_all-stale ps t h)
  publish_all-stale (view_by g v ∷ ps) t (e, h) = rw e (publish_all-stale ps t h)

  stale-generations :
      (g : ℕ) (ps : List (Publication F))
      → All (λ p. publisher p ≤ g) ps
      → g + 1 < 2 ^ 64
      → All (λ p. ((g + 1) % 2 ^ 64 == publisher p) ≡ false) ps
  stale-generations g [] h b = tt
  stale-generations g (p ∷ ps) (hp, h) b = (ground arith, stale-generations g ps h b)

  -- Once a target is stopped, nothing that its earlier runs still publish, in any number and order,
  -- changes it: it stays idle, without a run, until it is started again. The count of generations
  -- must not wrap around at the stop.
  pub stop_target-publish_all :
      (t : Target F) (ps : List (Publication F))
      → All (λ p. publisher p ≤ t.generation) ps
      → t.generation + 1 < 2 ^ 64
      → publish_all ps (stop_target to_lowercase t) ≡ stop_target to_lowercase t
  unfolding stop_target
  stop_target-publish_all t ps h b =
      publish_all-stale ps (stop_target to_lowercase t) (stale-generations t.generation ps h b)

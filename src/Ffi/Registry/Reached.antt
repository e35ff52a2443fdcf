-- ===== src/Ffi/Registry/Reached.antt =====
-- crates/sg-ffi/src/lib.rs: what can become of a target and of the runs started for it.
use server_glass.Base.{
  ℕ, suc, ◌+◌, ◌%◌, ◌^◌, ◌≤◌, ◌<◌, ◌≡◌, refl, sym, Bool, true, false, List, [], ◌∷◌, ◌++◌, Text,
  All, any, arith, ◌==◌, Option, none, some, Bool-cases, inl, inr,
}
use mathlib.Core.Path.{subst}
use server_glass.Base.Int.{ℤ}
use server_glass.Base.Float.{FloatOps}
use server_glass.Core.Collector.{Tick}
use server_glass.Core.Runtime.{TargetRuntime}
use server_glass.Ffi.State.{ConnectionState}
use server_glass.Ffi.Spec.{TargetConfig}
use server_glass.Ffi.Snapshot.{TargetSnapshot, build_snapshot, has_any, grouped}
use server_glass.Ffi.Assess.{assess}
use server_glass.Ffi.Registry.{
  Target, Run, publish, publish_snapshot, start_target, stop_target, new_target, is_running,
}
use server_glass.Ffi.Registry.Stale.{Publication, publisher, publish_all, stop_target-publish_all}

AtMost-any : (n g : ℕ) (rs : List ℕ) → All (λ r. r ≤ n) rs → any (λ r. r == g) rs ≡ true → g ≤ n
unfolding any
AtMost-any n g [] a h = ground (arith, h)
AtMost-any n g (r ∷ rs) (b, a) h = elim (Bool-cases (r == g)) [
  | inl e ↦ ground (arith, e, b)
  | inr e ↦ AtMost-any n g rs a (ground (arith, e, h))
]

AtMost-weaken : (n m : ℕ) (rs : List ℕ) → n ≤ m → All (λ r. r ≤ n) rs → All (λ r. r ≤ m) rs
AtMost-weaken n m [] h a = tt
AtMost-weaken n m (r ∷ rs) h (b, a) = (omega arith, AtMost-weaken n m rs h a)

-- No run has a later generation than `g`, which is at most `n`.
abbrev AreInOrder : ℕ → ℕ → List ℕ → Type 0
AreInOrder n g rs = (g ≤ n) × All (λ r. r ≤ g) rs

-- After one more step that leaves the generation.
AreInOrder-same : (n g h : ℕ) (rs : List ℕ) → AreInOrder n g rs → h ≡ g → AreInOrder (suc n) h rs
AreInOrder-same n g h rs (b, a) e = (omega (arith, e), AtMost-weaken g h rs (omega (arith, e)) a)

-- After one more step that counts the generation up, which does not wrap around.
AreInOrder-next :
    (n g : ℕ) (rs : List ℕ)
    → AreInOrder n g rs
    → suc n < 2 ^ 64
    → AreInOrder (suc n) ((g + 1) % 2 ^ 64) rs
AreInOrder-next n g rs (b, a) h =
    (omega arith, AtMost-weaken g ((g + 1) % 2 ^ 64) rs (omega arith) a)

-- A target, and the generations of the runs that were started for it: each may go on publishing.
pub record World (F : Type 0) : Type 0 where
  pub target : Target F
  pub runs : List ℕ

abbrev pub is_run : {F : Type 0} → World F → ℕ → Bool
is_run w g = any (λ r. r == g) w.runs

-- The run of the task has ended.
abbrev pub end_run : Option Run → Option Run
end_run none = none
end_run (some r) = some (record r { finished = true })

module _ {F : Type 0} ⦃fl : FloatOps F⦄ (S : Type 0) (to_lowercase : Text → Text) where
  -- Starting while no run is active spawns one; any run spawned may publish a state, or the
  -- snapshot made of its runtime after a tick.
  pub data Step : World F → World F → Type 0 where
    started :
        (w : World F)
        → is_running w.target.task ≡ false
        → Step w (record {
          target = start_target to_lowercase w.target;
          runs = (w.target.generation + 1) % 2 ^ 64 ∷ w.runs;
        })
    stopped : (w : World F) → Step w (record w { target = stop_target to_lowercase w.target })
    ended :
        (w : World F)
        → Step w (record w { target = record w.target { task = end_run w.target.task } })
    published :
        (w : World F) (g : ℕ) (state : ConnectionState)
        → is_run w g ≡ true
        → Step w (record w { target = publish to_lowercase w.target g state })
    viewed :
        (w : World F) (g : ℕ) (id : Text) (runtime : TargetRuntime S F) (tick : Tick F) (now : ℤ)
        (trips : ℕ)
        → is_run w g ≡ true
        → Step w (record w {
          target =
              publish_snapshot w.target g (build_snapshot to_lowercase id runtime tick now trips);
        })

  -- What `n` steps make of a target that was added.
  pub data Reached : ℕ → World F → Type 0 where
    added :
        (id : Text) (config : TargetConfig)
        → Reached 0 (record { target = new_target to_lowercase id config; runs = [] })
    stepped : {n : ℕ} (w w' : World F) → Reached n w → Step w w' → Reached (suc n) w'

  -- The verdict is the one that the state and the gauges of the same snapshot give.
  abbrev pub IsConsistent : TargetSnapshot F → Type 0
  IsConsistent s =
      let all = s.gauges ++ grouped s.detail_groups in
      s.health ≡ assess to_lowercase s.state all (has_any all)

  publish-IsConsistent :
      (t : Target F) (g : ℕ) (state : ConnectionState)
      → IsConsistent t.snapshot
      → IsConsistent (publish to_lowercase t g state).snapshot
  unfolding publish
  publish-IsConsistent t g state c = elim (Bool-cases (t.generation == g)) [
    | inl e ↦ rw e refl
    | inr e ↦ rw e c
  ]

  publish_snapshot-IsConsistent :
      (t : Target F) (g : ℕ) (s : TargetSnapshot F)
      → IsConsistent s
      → IsConsistent t.snapshot
      → IsConsistent (publish_snapshot t g s).snapshot
  unfolding publish_snapshot
  publish_snapshot-IsConsistent t g s d c = elim (Bool-cases (t.generation == g)) [
    | inl e ↦ rw e d
    | inr e ↦ rw e c
  ]

  start_target-IsConsistent :
      (t : Target F)
      → is_running t.task ≡ false
      → IsConsistent (start_target to_lowercase t).snapshot
  unfolding start_target
  start_target-IsConsistent t e = rw e refl

  -- Whatever is started, stopped and published, and in what order, the verdict that a target shows
  -- is the one for the connection's state and the gauges that it shows with it.
  pub Reached-IsConsistent : {n : ℕ} (w : World F) → Reached n w → IsConsistent w.target.snapshot
  unfolding new_target stop_target build_snapshot
  Reached-IsConsistent _ (added id config) = refl
  Reached-IsConsistent _ (stepped _ _ r (started v e)) = start_target-IsConsistent v.target e
  Reached-IsConsistent _ (stepped _ _ r (stopped v)) = refl
  Reached-IsConsistent _ (stepped _ _ r (ended v)) = Reached-IsConsistent v r
  Reached-IsConsistent _ (stepped _ _ r (published v g state h)) =
      publish-IsConsistent v.target g state (Reached-IsConsistent v r)
  Reached-IsConsistent _ (stepped _ _ r (viewed v g id runtime tick now trips h)) =
      publish_snapshot-IsConsistent v.target g
        (build_snapshot to_lowercase id runtime tick now trips) refl (Reached-IsConsistent v r)

  publish-generation :
      (t : Target F) (g : ℕ) (state : ConnectionState)
      → (publish to_lowercase t g state).generation ≡ t.generation
  unfolding publish
  publish-generation t g state = ground arith

  publish_snapshot-generation :
      (t : Target F) (g : ℕ) (s : TargetSnapshot F)
      → (publish_snapshot t g s).generation ≡ t.generation
  unfolding publish_snapshot
  publish_snapshot-generation t g s = ground arith

  start_target-generation :
      (t : Target F)
      → is_running t.task ≡ false
      → (start_target to_lowercase t).generation ≡ (t.generation + 1) % 2 ^ 64
  unfolding start_target
  start_target-generation t e = rw e refl

  Reached-AreInOrder :
      {n : ℕ} (w : World F) → Reached n w → n < 2 ^ 64 → AreInOrder n w.target.generation w.runs
  unfolding new_target stop_target
  Reached-AreInOrder _ (added id config) b = (omega arith, tt)
  Reached-AreInOrder _ (stepped {n = m} _ _ r (started v e)) b =
      let (g, a) = AreInOrder-next _ _ _ (Reached-AreInOrder v r (omega arith)) b in
      let next = (v.target.generation + 1) % 2 ^ 64 in
      subst (λ k. AreInOrder (suc m) k (next ∷ v.runs)) (sym (start_target-generation v.target e))
        (g, (omega arith, a))
  Reached-AreInOrder _ (stepped _ _ r (stopped v)) b =
      AreInOrder-next _ _ _ (Reached-AreInOrder v r (omega arith)) b
  Reached-AreInOrder _ (stepped _ _ r (ended v)) b =
      AreInOrder-same _ _ _ _ (Reached-AreInOrder v r (omega arith)) refl
  Reached-AreInOrder _ (stepped _ _ r (published v g state h)) b =
      AreInOrder-same _ _ _ _ (Reached-AreInOrder v r (omega arith))
        (publish-generation v.target g state)
  Reached-AreInOrder _ (stepped _ _ r (viewed v g id runtime tick now trips h)) b =
      AreInOrder-same _ _ _ _ (Reached-AreInOrder v r (omega arith))
        (publish_snapshot-generation v.target g _)

  publishers-AtMost :
      (n : ℕ) (rs : List ℕ) (ps : List (Publication F))
      → All (λ r. r ≤ n) rs
      → All (λ p. any (λ r. r == publisher p) rs ≡ true) ps
      → All (λ p. publisher p ≤ n) ps
  publishers-AtMost n rs [] a h = tt
  publishers-AtMost n rs (p ∷ ps) a (hp, h) =
      (AtMost-any n (publisher p) rs a hp, publishers-AtMost n rs ps a h)

  -- After any history of fewer than 2^64 steps: once the target is stopped, nothing that the runs
  -- started for it still publish, in any number and order, changes it. It stays idle, without a run,
  -- until it is started again.
  pub Reached-stop_target :
      {n : ℕ} (w : World F) (ps : List (Publication F))
      → Reached n w
      → n + 1 < 2 ^ 64
      → All (λ p. is_run w (publisher p) ≡ true) ps
      → publish_all to_lowercase ps (stop_target to_lowercase w.target)
        ≡ stop_target to_lowercase w.target
  Reached-stop_target w ps r b h =
      let (g, a) = Reached-AreInOrder w r (omega arith) in
      stop_target-publish_all to_lowercase w.target ps
        (publishers-AtMost w.target.generation w.runs ps a h) (omega arith)

-- ===== src/Ffi/Assess/Levels.antt =====
-- crates/sg-ffi/src/plain.rs: the level of a verdict.
use server_glass.Base.{
  ℕ, ◌≡◌, refl, ◌∙◌, Bool, true, false, ◌||◌, Option, none, some, List, [], ◌∷◌, ◌++◌, Text, codes,
  All, any, is_some, if◌then◌else◌, Bool-cases, inl, inr, arith,
}
use server_glass.Base.Float.{FloatOps}
use server_glass.Ffi.View.{MetricGauge}
use server_glass.Ffi.Plain.{HostHealth, health, first_of, at_least, value_of}
use server_glass.Ffi.Assess.{
  assess, assess_online, problem_checks, busy_checks, good_health, io_pressure, memory_pressure,
  cpu_pressure,
}
use server_glass.Ffi.State.{ConnectionState, idle, connecting, online, reconnecting, failed}

abbrev IsLevel : Text → Option HostHealth → Type 0
IsLevel l none = Unit
IsLevel l (some h) = h.level ≡ l

first_of-level :
    (p b : Text) (cs ds : List (Option HostHealth)) (d : HostHealth)
    → All (IsLevel p) cs
    → All (IsLevel b) ds
    → (first_of (cs ++ ds) d).level
      ≡ (if any is_some cs then p else if any is_some ds then b else d.level)
unfolding first_of any
first_of-level p b (none ∷ cs) ds d (_, hc) hd = first_of-level p b cs ds d hc hd
first_of-level p b (some h ∷ cs) ds d (e, hc) hd = e
first_of-level p b [] [] d hc hd = refl
first_of-level p b [] (none ∷ ds) d hc (_, hd) = first_of-level p b [] ds d hc hd
first_of-level p b [] (some h ∷ ds) d hc (e, hd) = e

or_five : (a b c d e : Bool) → (a || (b || (c || (d || (e || false))))) ≡ (a || b || c || d || e)
or_five a b c d e = ground arith

module _ {F : Type 0} ⦃fl : FloatOps F⦄ where
  -- The reading is known and not below the limit.
  abbrev pub reaches : ℕ → Option F → Bool
  reaches limit none = false
  reaches limit (some x) = fl.le (fl.of_nat limit) x

  at_least-IsLevel :
      (l : Text) (limit : ℕ) (o : Option F) (headline : Text) (detail : F → Text)
      → IsLevel l (at_least limit o (λ x. health l headline (detail x)))
  at_least-IsLevel l limit none headline detail = tt
  at_least-IsLevel l limit (some x) headline detail =
      elim (Bool-cases (fl.le (fl.of_nat limit) x)) [ inl e ↦ rw e refl | inr e ↦ rw e tt ]

  at_least-reaches :
      (limit : ℕ) (o : Option F) (verdict : F → HostHealth)
      → is_some (at_least limit o verdict) ≡ reaches limit o
  at_least-reaches limit none verdict = refl
  at_least-reaches limit (some x) verdict = ground arith

  abbrev pub has_problem : List (MetricGauge F) → Bool
  has_problem gs =
      reaches 90 (value_of gs (codes "disk_usage"))
      || reaches 90 (value_of gs (codes "mem_usage"))
      || reaches 40 (io_pressure gs)
      || reaches 20 (memory_pressure gs)
      || reaches 90 (value_of gs (codes "cpu_temp"))

  abbrev pub is_busy : List (MetricGauge F) → Bool
  is_busy gs =
      reaches 80 (value_of gs (codes "disk_usage"))
      || reaches 85 (value_of gs (codes "mem_usage"))
      || reaches 20 (cpu_pressure gs)
      || reaches 80 (value_of gs (codes "cpu_temp"))
      || reaches 85 (value_of gs (codes "cpu_usage"))

  abbrev pub level_for : ConnectionState → List (MetricGauge F) → Bool → Text
  level_for idle gs has_data = codes "checking"
  level_for connecting gs has_data = codes "checking"
  level_for (reconnecting n ms) gs has_data = codes "offline"
  level_for (failed message recoverable) gs has_data = codes "offline"
  level_for online gs false = codes "checking"
  level_for online gs true =
      if has_problem gs then codes "problem" else if is_busy gs then codes "busy" else codes "ok"

  problem_checks-IsLevel :
      (gs : List (MetricGauge F)) → All (IsLevel (codes "problem")) (problem_checks gs)
  unfolding problem_checks
  problem_checks-IsLevel gs = (
    at_least-IsLevel _ 90 (value_of gs (codes "disk_usage")) _ _,
    (
      at_least-IsLevel _ 90 (value_of gs (codes "mem_usage")) _ _,
      (
        at_least-IsLevel _ 40 (io_pressure gs) _ _,
        (
          at_least-IsLevel _ 20 (memory_pressure gs) _ _,
          (at_least-IsLevel _ 90 (value_of gs (codes "cpu_temp")) _ _, tt),
        ),
      ),
    ),
  )

  busy_checks-IsLevel : (gs : List (MetricGauge F)) → All (IsLevel (codes "busy")) (busy_checks gs)
  unfolding busy_checks
  busy_checks-IsLevel gs = (
    at_least-IsLevel _ 80 (value_of gs (codes "disk_usage")) _ _,
    (
      at_least-IsLevel _ 85 (value_of gs (codes "mem_usage")) _ _,
      (
        at_least-IsLevel _ 20 (cpu_pressure gs) _ _,
        (
          at_least-IsLevel _ 80 (value_of gs (codes "cpu_temp")) _ _,
          (at_least-IsLevel _ 85 (value_of gs (codes "cpu_usage")) _ _, tt),
        ),
      ),
    ),
  )

  problem_checks-any :
      (gs : List (MetricGauge F)) → any is_some (problem_checks gs) ≡ has_problem gs
  unfolding problem_checks any
  problem_checks-any gs = simp at_least-reaches (
      or_five (reaches 90 (value_of gs (codes "disk_usage")))
        (reaches 90 (value_of gs (codes "mem_usage"))) (reaches 40 (io_pressure gs))
        (reaches 20 (memory_pressure gs)) (reaches 90 (value_of gs (codes "cpu_temp"))))

  busy_checks-any : (gs : List (MetricGauge F)) → any is_some (busy_checks gs) ≡ is_busy gs
  unfolding busy_checks any
  busy_checks-any gs = simp at_least-reaches (
      or_five (reaches 80 (value_of gs (codes "disk_usage")))
        (reaches 85 (value_of gs (codes "mem_usage"))) (reaches 20 (cpu_pressure gs))
        (reaches 80 (value_of gs (codes "cpu_temp")))
        (reaches 85 (value_of gs (codes "cpu_usage"))))

  assess_online-level :
      (gs : List (MetricGauge F)) → (assess_online gs true).level ≡ level_for online gs true
  unfolding assess_online
  assess_online-level gs =
      first_of-level (codes "problem") (codes "busy") (problem_checks gs) (busy_checks gs)
        (good_health gs) (problem_checks-IsLevel gs) (busy_checks-IsLevel gs)
      ∙ rw (problem_checks-any gs, busy_checks-any gs) (unfold good_health in refl)

  -- The level is `checking` for a target that is idle or connecting, and `offline` for one that
  -- reconnects or has failed, whatever readings there are. Online it is `checking` before there is a
  -- reading, and then the worst finding's: `problem` if any reading reaches its limit for that, else
  -- `busy` if any reaches its limit for that, else `ok`, whatever the order of the checks.
  pub assess-level :
      (lower : Text → Text) (state : ConnectionState) (gs : List (MetricGauge F)) (has_data : Bool)
      → (assess lower state gs has_data).level ≡ level_for state gs has_data
  unfolding assess
  assess-level lower idle gs has_data = refl
  assess-level lower connecting gs has_data = refl
  assess-level lower (reconnecting n ms) gs has_data = refl
  assess-level lower (failed message recoverable) gs has_data = refl
  assess-level lower online gs false = refl
  assess-level lower online gs true = assess_online-level gs

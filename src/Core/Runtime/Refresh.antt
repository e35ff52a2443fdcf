-- ===== src/Core/Runtime/Refresh.antt =====
-- crates/sg-core/src/runtime.rs: a refresh or a command that fails.
use server_glass.Base.{
  ℕ, ◌≡◌, refl, Option, none, some, Text, List, [], ◌∷◌, ◌⊎◌, inl, inr, Bool-cases,
}
use server_glass.Base.Int.{ℤ}
use server_glass.Base.Float.{FloatOps}
use server_glass.Model.Source.{TargetCtx}
use server_glass.Model.Request.{Request, Responses}
use server_glass.Transport.Error.{TransportError, closed, is_transient}
use server_glass.Core.Collector.{reset_rates}
use server_glass.Core.Runtime.{Network, TargetRuntime, on_disconnect}
use server_glass.Core.Runtime.Steps.{
  refreshed, answered, refresh_with, tick_with, tick, ran, run_on, run_command,
}

-- The session is gone and so are the baselines of the counters; what was collected stays.
pub record Dropped {S F : Type 0} (r r' : TargetRuntime S F) : Type 0 where
  pub session : r'.session ≡ none
  pub collector : r'.collector ≡ reset_rates r.collector
  pub store : r'.store ≡ r.store
  pub ctx : r'.ctx ≡ r.ctx

abbrev pub Refused :
    {S F : Type 0} → TargetRuntime S F → TransportError → TargetRuntime S F → Type 0
Refused r error r' = (error ≡ closed) × (r' ≡ r)

module _ {S F : Type 0} where
  on_disconnect-Dropped :
      (net : Network S) (r : TargetRuntime S F) (o : Option S) (e : TransportError)
      → Dropped r (on_disconnect net (record r { session = o }) e)
  unfolding on_disconnect
  on_disconnect-Dropped net r o e = elim (Bool-cases (is_transient e)) [
    | inl y ↦
        rw (y, on_disconnect)
          (record { session = refl; collector = refl; store = refl; ctx = refl })
    | inr n ↦
        rw (n, on_disconnect)
          (record { session = refl; collector = refl; store = refl; ctx = refl })
  ]

  ran-Dropped :
      (net : Network S) (r : TargetRuntime S F) (q : Request) (t : ℕ)
      (a : S × (TransportError ⊎ Responses)) (e : TransportError)
      → (ran net r q t a).1 ≡ inl e
      → Dropped r (ran net r q t a).0
  unfolding ran
  ran-Dropped net r q t (s, inl error) e h = on_disconnect-Dropped net r (some s) error
  ran-Dropped net r q t (s, inr rs) e h = cc h

  run_on-failure :
      (net : Network S) (r : TargetRuntime S F) (cmd : Text) (t : ℕ) (o : Option S)
      (e : TransportError)
      → (run_on net r cmd t o).1 ≡ inl e
      → Refused r e (run_on net r cmd t o).0 ⊎ Dropped r (run_on net r cmd t o).0
  unfolding run_on
  run_on-failure net r cmd t none e h = inl (cc h, refl)
  run_on-failure net r cmd t (some s) e h = inr (ran-Dropped net r _ t (net.batch s _) e h)

  -- A user's command that fails: either nothing happened and the error says that the connection
  -- is closed, or the session and the counters' baselines are gone, and the readings and the
  -- context are as before.
  pub run_command-failure :
      (net : Network S) (r : TargetRuntime S F) (cmd : Text) (t : ℕ) (e : TransportError)
      → (run_command net r cmd t).1 ≡ inl e
      → Refused r e (run_command net r cmd t).0 ⊎ Dropped r (run_command net r cmd t).0
  unfolding run_command
  run_command-failure net r cmd t e h = run_on-failure net r cmd t r.session e h

module _ {S F : Type 0} ⦃fl : FloatOps F⦄ where
  answered-Dropped :
      (net : Network S) (r : TargetRuntime S F) (ctx : TargetCtx) (now : ℤ)
      (a : S × (TransportError ⊎ Responses)) (e : TransportError)
      → (answered net r ctx now a).1 ≡ inl e
      → Dropped r (answered net r ctx now a).0
  unfolding answered refreshed
  answered-Dropped net r ctx now (s, inl error) e h = on_disconnect-Dropped net r (some s) error
  answered-Dropped net r ctx now (s, inr rs) e h = cc h

  refresh_with-Dropped :
      (net : Network S) (r : TargetRuntime S F) (s : S) (ctx : TargetCtx) (now : ℤ)
      (qs : List Request) (e : TransportError)
      → (refresh_with net r s ctx now qs).1 ≡ inl e
      → Dropped r (refresh_with net r s ctx now qs).0
  unfolding refresh_with
  refresh_with-Dropped net r s ctx now [] e h = answered-Dropped net r ctx now (s, inr []) e h
  refresh_with-Dropped net r s ctx now (q ∷ qs) e h =
      answered-Dropped net r ctx now (net.batch s (q ∷ qs)) e h

  tick_with-failure :
      (net : Network S) (r : TargetRuntime S F) (now : ℤ) (o : Option S) (ctx : Option TargetCtx)
      (e : TransportError)
      → (tick_with net r now o ctx).1 ≡ inl e
      → Refused r e (tick_with net r now o ctx).0 ⊎ Dropped r (tick_with net r now o ctx).0
  unfolding tick_with
  tick_with-failure net r now (some s) (some ctx) e h =
      inr (refresh_with-Dropped net r s ctx now _ e h)
  tick_with-failure net r now (some s) none e h = inl (cc h, refl)
  tick_with-failure net r now none ctx e h = inl (cc h, refl)

  -- A refresh that fails: either nothing happened and the error says that the connection is
  -- closed, or the session and the counters' baselines are gone, and the readings and the context
  -- are as before.
  pub tick-failure :
      (net : Network S) (r : TargetRuntime S F) (now : ℤ) (e : TransportError)
      → (tick net r now).1 ≡ inl e
      → Refused r e (tick net r now).0 ⊎ Dropped r (tick net r now).0
  unfolding tick
  tick-failure net r now e h = tick_with-failure net r now r.session r.ctx e h

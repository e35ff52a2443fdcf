-- ===== src/Core/Runtime/Invariant.antt =====
-- crates/sg-core/src/runtime.rs: what a runtime's state says of its session, over all calls.
use server_glass.Base.{
  ℕ, ◌≡◌, refl, Bool, true, false, Option, none, some, is_some, Text, List, [], ◌∷◌, arith, ◌⊎◌,
  inl, inr, Bool-cases,
}
use server_glass.Base.Int.{ℤ}
use server_glass.Base.Float.{FloatOps}
use server_glass.Model.Ids.{TargetId, SourceId}
use server_glass.Model.Source.{Source, TargetCtx}
use server_glass.Model.Request.{Request, Responses}
use server_glass.Transport.Error.{TransportError, is_transient}
use server_glass.Core.Collector.{Collector, set_enabled}
use server_glass.Core.Store.{LiveStore}
use server_glass.Core.Runtime.{
  TargetState, idle, connecting, online, reconnecting, failed, Network, TargetRuntime, new_runtime,
  on_disconnect, probed, connected, connect, backoff_for,
}
use server_glass.Core.Runtime.Steps.{
  ran, run_on, run_command, refreshed, answered, refresh_with, tick_with, tick,
}

-- Online means a session and a context; waiting to reconnect means no session and the delay of
-- the attempt that is counted; nobody sees a target that is still connecting.
abbrev pub Agrees : {S F : Type 0} → TargetState → TargetRuntime S F → Type 0
Agrees idle r = r.session ≡ none
Agrees connecting r = true ≡ false
Agrees online r = (is_some r.session ≡ true) × (is_some r.ctx ≡ true)
Agrees (reconnecting attempt ms) r =
    (r.session ≡ none) × (r.attempt ≡ attempt) × (ms ≡ backoff_for attempt)
Agrees (failed message recoverable) r = Unit

abbrev pub IsConsistent : {S F : Type 0} → TargetRuntime S F → Type 0
IsConsistent r = Agrees r.state r

module _ {S F : Type 0} where
  on_disconnect-IsConsistent :
      (net : Network S) (r : TargetRuntime S F) (e : TransportError)
      → IsConsistent (on_disconnect net r e)
  unfolding on_disconnect
  on_disconnect-IsConsistent net r e = elim (Bool-cases (is_transient e)) [
    | inl y ↦ rw (y, on_disconnect) (refl, refl, refl)
    | inr n ↦ rw (n, on_disconnect) tt
  ]

  probed-IsConsistent :
      (net : Network S) (r : TargetRuntime S F) (a : S × (TransportError ⊎ Responses))
      → IsConsistent (probed net r a).0
  unfolding probed
  probed-IsConsistent net r (session, inl error) = on_disconnect-IsConsistent net r error
  probed-IsConsistent net r (session, inr rs) = (refl, refl)

  connected-IsConsistent :
      (net : Network S) (r : TargetRuntime S F) (c : TransportError ⊎ S)
      → IsConsistent (connected net r c).0
  unfolding connected
  connected-IsConsistent net r (inl error) = tt
  connected-IsConsistent net r (inr session) = probed-IsConsistent net r (net.batch session _)

  -- A session that is used stays there.
  held-IsConsistent :
      (r : TargetRuntime S F) (st : TargetState) (s s' : S)
      → r.session ≡ some s
      → Agrees st r
      → Agrees st (record r { session = some s' })
  held-IsConsistent r idle s s' h a = ground (arith, h, a)
  held-IsConsistent r connecting s s' h a = a
  held-IsConsistent r online s s' h a = (refl, a.1)
  held-IsConsistent r (reconnecting k ms) s s' h a = ground (arith, h, a)
  held-IsConsistent r (failed m b) s s' h a = tt

  -- The collector and the store do not matter.
  moved-IsConsistent :
      (r : TargetRuntime S F) (st : TargetState) (c : Collector F) (store : LiveStore F)
      → Agrees st r
      → Agrees st (record r { collector = c; store = store })
  moved-IsConsistent r idle c store a = a
  moved-IsConsistent r connecting c store a = a
  moved-IsConsistent r online c store a = a
  moved-IsConsistent r (reconnecting k ms) c store a = a
  moved-IsConsistent r (failed m b) c store a = a

  ran-IsConsistent :
      (net : Network S) (r : TargetRuntime S F) (q : Request) (t : ℕ) (s : S)
      (a : S × (TransportError ⊎ Responses))
      → r.session ≡ some s
      → IsConsistent r
      → IsConsistent (ran net r q t a).0
  unfolding ran
  ran-IsConsistent net r q t s (s', inl error) h c =
      on_disconnect-IsConsistent net (record r { session = some s' }) error
  ran-IsConsistent net r q t s (s', inr rs) h c = held-IsConsistent r r.state s s' h c

  run_on-IsConsistent :
      (net : Network S) (r : TargetRuntime S F) (cmd : Text) (t : ℕ) (o : Option S)
      → r.session ≡ o
      → IsConsistent r
      → IsConsistent (run_on net r cmd t o).0
  unfolding run_on
  run_on-IsConsistent net r cmd t none h c = c
  run_on-IsConsistent net r cmd t (some s) h c = ran-IsConsistent net r _ t s (net.batch s _) h c

module _ {S F : Type 0} ⦃fl : FloatOps F⦄ where
  refreshed-IsConsistent :
      (r : TargetRuntime S F) (ctx : TargetCtx) (now : ℤ) (rs : Responses)
      → IsConsistent r
      → IsConsistent (refreshed r ctx now rs).0
  unfolding refreshed
  refreshed-IsConsistent r ctx now rs c = moved-IsConsistent r r.state _ _ c

  answered-IsConsistent :
      (net : Network S) (r : TargetRuntime S F) (ctx : TargetCtx) (now : ℤ) (s : S)
      (a : S × (TransportError ⊎ Responses))
      → r.session ≡ some s
      → IsConsistent r
      → IsConsistent (answered net r ctx now a).0
  unfolding answered
  answered-IsConsistent net r ctx now s (s', inl error) h c =
      on_disconnect-IsConsistent net (record r { session = some s' }) error
  answered-IsConsistent net r ctx now s (s', inr rs) h c =
      refreshed-IsConsistent (record r { session = some s' }) ctx now rs
        (held-IsConsistent r r.state s s' h c)

  refresh_with-IsConsistent :
      (net : Network S) (r : TargetRuntime S F) (s : S) (ctx : TargetCtx) (now : ℤ)
      (qs : List Request)
      → r.session ≡ some s
      → IsConsistent r
      → IsConsistent (refresh_with net r s ctx now qs).0
  unfolding refresh_with
  refresh_with-IsConsistent net r s ctx now [] h c =
      answered-IsConsistent net r ctx now s (s, inr []) h c
  refresh_with-IsConsistent net r s ctx now (q ∷ qs) h c =
      answered-IsConsistent net r ctx now s (net.batch s (q ∷ qs)) h c

  tick_with-IsConsistent :
      (net : Network S) (r : TargetRuntime S F) (now : ℤ) (o : Option S) (ctx : Option TargetCtx)
      → r.session ≡ o
      → IsConsistent r
      → IsConsistent (tick_with net r now o ctx).0
  unfolding tick_with
  tick_with-IsConsistent net r now (some s) (some ctx) h c =
      refresh_with-IsConsistent net r s ctx now _ h c
  tick_with-IsConsistent net r now (some s) none h c = c
  tick_with-IsConsistent net r now none ctx h c = c

-- One call of the runtime, whatever the network answers and the clock says.
pub data Step {S F : Type 0} ⦃fl : FloatOps F⦄
    : TargetRuntime S F → TargetRuntime S F → Type 0 where
  connects : (net : Network S) (r : TargetRuntime S F) → Step r (connect net r).0
  ticks : (net : Network S) (now : ℤ) (r : TargetRuntime S F) → Step r (tick net r now).0
  runs :
      (net : Network S) (command : Text) (elapsed : ℕ) (r : TargetRuntime S F)
      → Step r (run_command net r command elapsed).0
  switches :
      (id : SourceId) (on : Bool) (r : TargetRuntime S F)
      → Step r (record r { collector = set_enabled r.collector id on })

-- What a runtime can become after it was made.
pub data Reachable {S F : Type 0} ⦃fl : FloatOps F⦄ : TargetRuntime S F → Type 0 where
  made :
      (target : TargetId) (host : Text) (sources : List (Source F))
      → Reachable (new_runtime target host sources)
  goes : {r s : TargetRuntime S F} → Reachable r → Step r s → Reachable s

module _ {S F : Type 0} ⦃fl : FloatOps F⦄ where
  Step-IsConsistent : {r s : TargetRuntime S F} → Step r s → IsConsistent r → IsConsistent s
  unfolding connect tick run_command
  Step-IsConsistent (connects net r) c =
      connected-IsConsistent net (record r { state = connecting }) net.connect
  Step-IsConsistent (ticks net now r) c = tick_with-IsConsistent net r now r.session r.ctx refl c
  Step-IsConsistent (runs net command elapsed r) c =
      run_on-IsConsistent net r command elapsed r.session refl c
  Step-IsConsistent (switches id on r) c = moved-IsConsistent r r.state _ r.store c

  -- In every state that calls can lead to, whatever the network answers: a target that is online
  -- has a session and a context; one that waits to reconnect has no session, shows the attempt
  -- that is counted and the delay of that attempt; an idle one has no session; and no call leaves
  -- a target connecting.
  pub Reachable-IsConsistent : {r : TargetRuntime S F} → Reachable r → IsConsistent r
  unfolding new_runtime
  Reachable-IsConsistent (made target host sources) = refl
  Reachable-IsConsistent (goes h step) = Step-IsConsistent step (Reachable-IsConsistent h)

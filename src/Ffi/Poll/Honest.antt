-- ===== src/Ffi/Poll/Honest.antt =====
-- crates/sg-ffi/src/lib.rs: what a run publishes of its connection.
use server_glass.Base.{
  ℕ, ◌≡◌, refl, true, false, is_some, Option, none, some, List, [], ◌∷◌, Text, Bool-cases, inl, inr,
  ◌⊎◌, arith,
}
use server_glass.Base.Int.{ℤ}
use server_glass.Base.Float.{FloatOps}
use server_glass.Transport.Error.{TransportError, is_transient}
use server_glass.Model.Request.{Request, Responses}
use server_glass.Model.Source.{TargetCtx}
use server_glass.Core.Collector.{requests}
use server_glass.Core.Runtime.{
  TargetRuntime, TargetState, Network, on_disconnect, connect, new_runtime,
}
use server_glass.Core.Runtime
use server_glass.Core.Runtime.Steps.{
  tick, tick_with, refresh_with, answered, run_command, run_on, ran, command_request,
}

-- Online, with a session and a context.
abbrev pub IsUp : {S F : Type 0} → TargetRuntime S F → Type 0
IsUp r = (r.state ≡ Runtime.online) × (is_some r.session ≡ true) × (is_some r.ctx ≡ true)

-- A success keeps the runtime up, and a failure leaves it not online.
abbrev pub Keeps : {S F A : Type 0} → TargetRuntime S F × (TransportError ⊎ A) → Type 0
Keeps (r, inl error) = Runtime.is_online r.state ≡ false
Keeps (r, inr a) = IsUp r

module _ {S F : Type 0} where
  on_disconnect-offline :
      (net : Network S) (r : TargetRuntime S F) (e : TransportError)
      → Runtime.is_online (on_disconnect net r e).state ≡ false
  unfolding on_disconnect Runtime.is_online
  on_disconnect-offline net r e = elim (Bool-cases (is_transient e)) [
    | inl y ↦ rw y refl
    | inr n ↦ rw n refl
  ]

  ran-Keeps :
      (net : Network S) (r : TargetRuntime S F) (q : Request) (t : ℕ)
      (a : S × (TransportError ⊎ Responses))
      → IsUp r
      → Keeps (ran net r q t a)
  unfolding ran
  ran-Keeps net r q t (session, inl e) up =
      on_disconnect-offline net (record r { session = some session }) e
  ran-Keeps net r q t (session, inr rs) (a, b, c) = (a, refl, c)

  run_on-Keeps :
      (net : Network S) (r : TargetRuntime S F) (cmd : Text) (t : ℕ) (o : Option S)
      → is_some o ≡ true
      → IsUp r
      → Keeps (run_on net r cmd t o)
  unfolding run_on
  run_on-Keeps net r cmd t none e up = ground (arith, e)
  run_on-Keeps net r cmd t (some session) e up =
      ran-Keeps net r (command_request cmd) t (net.batch session (command_request cmd ∷ [])) up

  pub run_command-Keeps :
      (net : Network S) (r : TargetRuntime S F) (cmd : Text) (t : ℕ)
      → IsUp r
      → Keeps (run_command net r cmd t)
  unfolding run_command
  run_command-Keeps net r cmd t (a, b, c) = run_on-Keeps net r cmd t r.session b (a, b, c)

module _ {S F : Type 0} ⦃fl : FloatOps F⦄ where
  answered-Keeps :
      (net : Network S) (r : TargetRuntime S F) (ctx : TargetCtx) (now : ℤ)
      (a : S × (TransportError ⊎ Responses))
      → IsUp r
      → Keeps (answered net r ctx now a)
  unfolding answered
  answered-Keeps net r ctx now (session, inl e) up =
      on_disconnect-offline net (record r { session = some session }) e
  answered-Keeps net r ctx now (session, inr rs) (a, b, c) = (a, refl, c)

  refresh_with-Keeps :
      (net : Network S) (r : TargetRuntime S F) (s : S) (ctx : TargetCtx) (now : ℤ)
      (qs : List Request)
      → IsUp r
      → Keeps (refresh_with net r s ctx now qs)
  unfolding refresh_with
  refresh_with-Keeps net r s ctx now [] up = answered-Keeps net r ctx now (s, inr []) up
  refresh_with-Keeps net r s ctx now (q ∷ qs) up =
      answered-Keeps net r ctx now (net.batch s (q ∷ qs)) up

  tick_with-Keeps :
      (net : Network S) (r : TargetRuntime S F) (now : ℤ) (o : Option S) (c : Option TargetCtx)
      → is_some o ≡ true
      → is_some c ≡ true
      → IsUp r
      → Keeps (tick_with net r now o c)
  unfolding tick_with
  tick_with-Keeps net r now none c e h up = ground (arith, e)
  tick_with-Keeps net r now (some s) none e h up = ground (arith, h)
  tick_with-Keeps net r now (some s) (some ctx) e h up =
      refresh_with-Keeps net r s ctx now (requests r.collector ctx) up

  pub tick-Keeps :
      (net : Network S) (r : TargetRuntime S F) (now : ℤ) → IsUp r → Keeps (tick net r now)
  unfolding tick
  tick-Keeps net r now (a, b, c) = tick_with-Keeps net r now r.session r.ctx b c (a, b, c)

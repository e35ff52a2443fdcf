-- ===== src/Ffi/Poll/Screen.antt =====
-- crates/sg-ffi/src/lib.rs: what the state that a run last published says of its connection.
use server_glass.Base.{
  ℕ, zero, suc, ◌≡◌, refl, ◌∙◌, Bool, true, false, Option, none, some, List, [], ◌∷◌, ◌++◌, Text,
  Bool-cases, inl, inr, ◌⊎◌, arith,
}
use mathlib.Core.Path.{subst}
use server_glass.Base.Int.{ℤ}
use server_glass.Base.Float.{FloatOps}
use server_glass.Transport.Error.{TransportError, is_transient}
use server_glass.Core.Collector.{Tick}
use server_glass.Core.Runtime.{TargetRuntime, TargetState, Network, connect, new_runtime}
use server_glass.Core.Runtime
use server_glass.Core.Runtime.Connecting.{Fresh, Lost, connect_outcome}
use server_glass.Core.Runtime.Steps.{tick, run_command, CommandOutput}
use server_glass.Collect.Builtin.{builtin_sources}
use server_glass.Ffi.State.{ConnectionState, connecting, is_online, from_state}
use server_glass.Ffi.Spec.{TargetConfig, connection_spec}
use server_glass.Ffi.Snapshot.{build_snapshot}
use server_glass.Ffi.Poll.{
  Phase, dialling, polling, over, Poll, Effect, told, shown, replied, slept, retry, lost, refusals,
  dialled, commanded, polled, command_step, dial_step, poll_step, is_final,
}
use server_glass.Ffi.Poll.Honest.{IsUp, Keeps, tick-Keeps, run_command-Keeps}

-- The state that is published last, from the one before.
abbrev pub screen : {F : Type 0} → ConnectionState → List (Effect F) → ConnectionState
screen c [] = c
screen c (told state ∷ outs) = screen state outs
screen c (shown view ∷ outs) = screen view.state outs
screen c (replied answer ∷ outs) = screen c outs
screen c (slept ms ∷ outs) = screen c outs

-- On a session the runtime is up, and the screen says `online` from the first refresh on; without
-- one it does not.
abbrev pub Shows : {S F : Type 0} → Phase → TargetRuntime S F → ConnectionState → Type 0
Shows dialling r c = is_online c ≡ false
Shows (polling refreshed) r c = IsUp r × (is_online c ≡ refreshed)
Shows over r c = is_online c ≡ false

from_state-is_online : (s : TargetState) → is_online (from_state s) ≡ Runtime.is_online s
unfolding from_state Runtime.is_online
from_state-is_online Runtime.idle = refl
from_state-is_online Runtime.connecting = refl
from_state-is_online Runtime.online = refl
from_state-is_online (Runtime.reconnecting n ms) = refl
from_state-is_online (Runtime.failed message recoverable) = refl

screen-refusals :
    (F : Type 0) (c : ConnectionState) (n : ℕ) (outs : List (Effect F))
    → screen c (refusals n ++ outs) ≡ screen c outs
unfolding refusals
screen-refusals F c zero outs = refl
screen-refusals F c (suc n) outs = screen-refusals F c n outs

screen-refusals_only :
    (F : Type 0) (c : ConnectionState) (n : ℕ) → screen {F = F} c (refusals n) ≡ c
unfolding refusals
screen-refusals_only F c zero = refl
screen-refusals_only F c (suc n) = screen-refusals_only F c n

module _ {S F : Type 0} where
  abbrev pub AfterStep : ConnectionState → Poll S F × List (Effect F) → Type 0
  AfterStep c (p, outs) = Shows p.phase p.runtime (screen c outs)

  lost-AfterStep :
      (p : Poll S F) (r : TargetRuntime S F) (queued : ℕ) (c : ConnectionState)
      → Runtime.is_online r.state ≡ false
      → AfterStep c (lost p r queued)
  unfolding lost retry
  lost-AfterStep p r queued c e = elim (Bool-cases (is_final r.state)) [
    | inl y ↦
        rw (y, screen-refusals_only F (from_state r.state) queued)
          (from_state-is_online r.state ∙ e)
    | inr n ↦
        rw (n, screen-refusals F (from_state r.state) queued (slept _ ∷ []))
          (from_state-is_online r.state ∙ e)
  ]

  dialled-AfterStep :
      (net : Network S) (p : Poll S F) (r0 r : TargetRuntime S F) (o : Option TransportError)
      (c : ConnectionState)
      → Fresh r0 r o ⊎ Lost r0 r o
      → AfterStep c (dialled net p (r, o))
  unfolding dialled retry
  dialled-AfterStep net p r0 r none c (inl f) = ((f.state, f.session, f.ctx), refl)
  dialled-AfterStep net p r0 r none c (inr l) = let h = l.reported in ground (arith, h)
  dialled-AfterStep net p r0 r (some e) c h = elim (Bool-cases (is_transient e)) [
    | inl y ↦ rw y refl
    | inr n ↦ rw n refl
  ]

  commanded-AfterStep :
      (net : Network S) (p : Poll S F) (refreshed : Bool) (queued : ℕ) (c : ConnectionState)
      (a : TargetRuntime S F × (TransportError ⊎ CommandOutput))
      → p.phase ≡ polling refreshed
      → is_online c ≡ refreshed
      → Keeps a
      → AfterStep c (commanded net p queued a)
  unfolding commanded
  commanded-AfterStep net p refreshed queued c (r, inl e) h k up = lost-AfterStep p r queued c up
  commanded-AfterStep net p refreshed queued c (r, inr out) h k up = rw h (up, k)

module _ {S F : Type 0} ⦃fl : FloatOps F⦄ (to_lowercase : Text → Text) (id : Text) where
  polled-AfterStep :
      (p : Poll S F) (refreshed : Bool) (now : ℤ) (trips queued : ℕ) (c : ConnectionState)
      (a : TargetRuntime S F × (TransportError ⊎ Tick F))
      → p.phase ≡ polling refreshed
      → Keeps a
      → AfterStep c (polled to_lowercase id p refreshed now trips queued a)
  unfolding polled build_snapshot from_state
  polled-AfterStep p refreshed now trips queued c (r, inl e) h up = lost-AfterStep p r queued c up
  polled-AfterStep p true now trips queued c (r, inr found) h (a, b, d) =
      rw h ((a, b, d), rw a refl)
  polled-AfterStep p false now trips queued c (r, inr found) h up = (up, refl)

  -- What a run can come to, and the state that it published last; `start` published `connecting`
  -- for it.
  pub data Polled : Poll S F → ConnectionState → Type 0 where
    began :
        (r : TargetRuntime S F)
        → Polled (record { runtime = r; attempt = 0; phase = dialling }) connecting
    dials :
        (p : Poll S F) (c : ConnectionState) (net : Network S) (config : TargetConfig)
        → Polled p c
        → p.phase ≡ dialling
        → Polled
            (dial_step to_lowercase id net config p).0
            (screen c (dial_step to_lowercase id net config p).1)
    polls :
        (p : Poll S F) (c : ConnectionState) (net : Network S) (refreshed : Bool) (started now : ℤ)
        (trips queued : ℕ)
        → Polled p c
        → p.phase ≡ polling refreshed
        → Polled
            (poll_step to_lowercase id net p refreshed started now trips queued).0
            (screen c (poll_step to_lowercase id net p refreshed started now trips queued).1)
    commands :
        (p : Poll S F) (c : ConnectionState) (net : Network S) (refreshed : Bool) (command : Text)
        (elapsed queued : ℕ)
        → Polled p c
        → p.phase ≡ polling refreshed
        → Polled
            (command_step net p command elapsed queued).0
            (screen c (command_step net p command elapsed queued).1)

  -- Whatever the network answers, the state that a run last published says `online` exactly while
  -- the runtime is online, with a session and a context, and a refresh has succeeded on that
  -- connection.
  pub Polled-Shows : (p : Poll S F) (c : ConnectionState) → Polled p c → Shows p.phase p.runtime c
  unfolding dial_step poll_step command_step
  Polled-Shows _ _ (began r) = refl
  Polled-Shows _ _ (dials p c net config h e) =
      let r0 = new_runtime id (connection_spec config).host builtin_sources in
      dialled-AfterStep net p r0 (connect net r0).0 (connect net r0).1 c (connect_outcome net r0)
  Polled-Shows _ _ (polls p c net refreshed started now trips queued h e) =
      let (up, shows) = subst (λ f. Shows f p.runtime c) e (Polled-Shows p c h) in
      polled-AfterStep p refreshed now trips queued c (tick net p.runtime started) e
        (tick-Keeps net p.runtime started up)
  Polled-Shows _ _ (commands p c net refreshed command elapsed queued h e) =
      let (up, shows) = subst (λ f. Shows f p.runtime c) e (Polled-Shows p c h) in
      commanded-AfterStep net p refreshed queued c (run_command net p.runtime command elapsed) e
        shows (run_command-Keeps net p.runtime command elapsed up)

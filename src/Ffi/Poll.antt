-- ===== src/Ffi/Poll.antt =====
-- crates/sg-ffi/src/lib.rs: a run of `poll_loop`, as steps between its waits. A step takes what the
-- network, the clock and the queue answer and yields what it does, in order; what it publishes
-- reaches the target only as far as the registry lets it.
pub mod Honest
pub mod Screen
pub mod Ladder
use server_glass.Base.{
  ℕ, zero, suc, ◌+◌, ◌-◌, ◌^◌, min, Bool, true, false, Option, none, some, List, [], ◌∷◌, ◌++◌,
  Text, codes, if◌then◌else◌, ◌⊎◌, inl, inr,
}
use server_glass.Base.Int.{ℤ}
use server_glass.Base.Float.{FloatOps}
use server_glass.Transport.Error.{TransportError, is_transient}
use server_glass.Core.Collector.{Tick}
use server_glass.Core.Runtime.{
  TargetRuntime, TargetState, Network, new_runtime, connect, backoff_for,
}
use server_glass.Core.Runtime
use server_glass.Core.Runtime.Steps.{tick, run_command, CommandOutput}
use server_glass.Collect.Builtin.{builtin_sources}
use server_glass.Ffi.State.{ConnectionState, connecting, online, failed, from_state}
use server_glass.Ffi.Spec.{TargetConfig, connection_spec}
use server_glass.Ffi.Snapshot.{TargetSnapshot, build_snapshot}

-- Before a connection, on one with or without `published_first`, and after the return.
pub data Phase : Type 0 where
  dialling : Phase
  polling : Bool → Phase
  over : Phase

pub record Poll (S F : Type 0) : Type 0 where
  pub runtime : TargetRuntime S F
  pub attempt : ℕ
  pub phase : Phase

-- A state or a snapshot that is published, the answer to a command, and a wait of so many
-- milliseconds.
pub data Effect (F : Type 0) : Type 0 where
  told : ConnectionState → Effect F
  shown : TargetSnapshot F → Effect F
  replied : Text ⊎ CommandOutput → Effect F
  slept : ℕ → Effect F

-- `saturating_add(1)` on 32 bits
abbrev pub next_attempt : ℕ → ℕ
next_attempt attempt = min (attempt + 1) (2 ^ 32 - 1)

-- `TargetState::Failed { recoverable: false, .. }`
abbrev pub is_final : TargetState → Bool
is_final (Runtime.failed message false) = true
is_final _ = false

abbrev pub dropped_reply : {F : Type 0} → Effect F
dropped_reply = replied (inl (codes "The connection dropped before the command could run."))

-- `while let Ok((_, reply)) = inbox.try_recv()`
unfoldable pub refusals : {F : Type 0} → ℕ → List (Effect F)
refusals zero = []
refusals (suc n) = dropped_reply ∷ refusals n

module _ {S F : Type 0} where
  -- The wait before the next attempt.
  unfoldable pub retry : TargetRuntime S F → ℕ → Poll S F × List (Effect F)
  unfolding backoff_for
  retry r attempt = (
    record { runtime = r; attempt = next_attempt attempt; phase = dialling },
    slept (backoff_for (next_attempt attempt)) ∷ [],
  )

  -- The session is gone: the state is published, the `queued` commands are refused, and the run
  -- returns or waits.
  unfoldable pub lost : Poll S F → TargetRuntime S F → ℕ → Poll S F × List (Effect F)
  unfolding from_state retry refusals
  lost p r queued =
      let outs = told (from_state r.state) ∷ refusals queued in
      if is_final r.state
      then (record { runtime = r; attempt = p.attempt; phase = over }, outs)
      else ((retry r p.attempt).0, outs ++ (retry r p.attempt).1)

  -- What follows the answer to `connect`.
  unfoldable pub dialled :
      Network S → Poll S F → TargetRuntime S F × Option TransportError → Poll S F × List (Effect F)
  unfolding retry is_transient
  dialled net p (r, none) =
      (record { runtime = r; attempt = 0; phase = polling false }, told connecting ∷ [])
  dialled net p (r, some error) =
      let outs = told connecting ∷ told (failed (net.message error) (is_transient error)) ∷ [] in
      if is_transient error
      then ((retry r p.attempt).0, outs ++ (retry r p.attempt).1)
      else (record { runtime = r; attempt = p.attempt; phase = over }, outs)

  -- A command of the queue whose caller still waits, after it ran.
  unfoldable pub commanded :
      Network S
      → Poll S F
      → ℕ
      → TargetRuntime S F × (TransportError ⊎ CommandOutput)
      → Poll S F × List (Effect F)
  unfolding lost
  commanded net p queued (r, inl error) =
      ((lost p r queued).0, replied (inl (net.message error)) ∷ (lost p r queued).1)
  commanded net p queued (r, inr output) = (record p { runtime = r }, replied (inr output) ∷ [])

  unfoldable pub command_step : Network S → Poll S F → Text → ℕ → ℕ → Poll S F × List (Effect F)
  unfolding commanded run_command
  command_step net p command elapsed queued =
      commanded net p queued (run_command net p.runtime command elapsed)

module _ {S F : Type 0} ⦃fl : FloatOps F⦄ (to_lowercase : Text → Text) (id : Text) where
  -- The top of the outer loop: a new runtime, which connects.
  unfoldable pub dial_step : Network S → TargetConfig → Poll S F → Poll S F × List (Effect F)
  unfolding dialled connect new_runtime connection_spec builtin_sources
  dial_step net config p =
      dialled net p (connect net (new_runtime id (connection_spec config).host builtin_sources))

  -- What follows a refresh: the first one on a connection is held back.
  unfoldable pub polled :
      Poll S F
      → Bool
      → ℤ
      → ℕ
      → ℕ
      → TargetRuntime S F × (TransportError ⊎ Tick F)
      → Poll S F × List (Effect F)
  unfolding lost build_snapshot
  polled p published_first now trips queued (r, inl error) = lost p r queued
  polled p true now trips queued (r, inr found) =
      (record p { runtime = r }, shown (build_snapshot to_lowercase id r found now trips) ∷ [])
  polled p false now trips queued (r, inr found) =
      (record p { runtime = r; phase = polling true }, told online ∷ [])

  unfoldable pub poll_step :
      Network S → Poll S F → Bool → ℤ → ℤ → ℕ → ℕ → Poll S F × List (Effect F)
  unfolding polled tick
  poll_step net p published_first started now trips queued =
      polled p published_first now trips queued (tick net p.runtime started)

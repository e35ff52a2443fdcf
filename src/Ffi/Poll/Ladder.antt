-- ===== src/Ffi/Poll/Ladder.antt =====
-- crates/sg-ffi/src/lib.rs: the waits of a run that cannot connect.
use server_glass.Base.{
  ℕ, zero, suc, ◌≡◌, refl, ◌∙◌, ap, Bool, true, false, List, [], ◌∷◌, ◌++◌, All, Text, ◌⊎◌, inl,
  inr, length, arith,
}
use server_glass.Base.Float.{FloatOps}
use server_glass.Transport.Error.{TransportError, is_transient}
use server_glass.Core.Runtime.{TargetRuntime, Network, connect, connected, new_runtime, backoff_for}
use server_glass.Core.Runtime
use server_glass.Collect.Builtin.{builtin_sources}
use server_glass.Ffi.Spec.{TargetConfig, connection_spec}
use server_glass.Ffi.Poll.{
  Poll, dialling, Effect, told, shown, replied, slept, retry, dialled, dial_step, next_attempt,
}

abbrev pub waits : {F : Type 0} → List (Effect F) → List ℕ
waits [] = []
waits (told state ∷ outs) = waits outs
waits (shown view ∷ outs) = waits outs
waits (replied answer ∷ outs) = waits outs
waits (slept ms ∷ outs) = ms ∷ waits outs

-- The delays of the next attempts after `attempt`.
abbrev pub ladder : ℕ → ℕ → List ℕ
ladder attempt zero = []
ladder attempt (suc n) = backoff_for (next_attempt attempt) ∷ ladder (next_attempt attempt) n

-- The network refuses to connect for a reason that may pass.
abbrev pub refused_for_now : {S : Type 0} → TransportError ⊎ S → Bool
refused_for_now (inl e) = is_transient e
refused_for_now (inr session) = false

waits-append : (F : Type 0) (xs ys : List (Effect F)) → waits (xs ++ ys) ≡ waits xs ++ waits ys
waits-append F [] ys = refl
waits-append F (told state ∷ xs) ys = waits-append F xs ys
waits-append F (shown view ∷ xs) ys = waits-append F xs ys
waits-append F (replied answer ∷ xs) ys = waits-append F xs ys
waits-append F (slept ms ∷ xs) ys = ap (λ r. ms ∷ r) (waits-append F xs ys)

module _ {S F : Type 0} where
  -- The run waits once, and dials again.
  abbrev pub Retries : Poll S F → Poll S F × List (Effect F) → Type 0
  Retries p (p', outs) =
      (waits outs ≡ backoff_for (next_attempt p.attempt) ∷ [])
      × (p'.attempt ≡ next_attempt p.attempt)
      × (p'.phase ≡ dialling)

  dialled-Retries :
      (net : Network S) (p : Poll S F) (r : TargetRuntime S F) (o : TransportError ⊎ S)
      → refused_for_now o ≡ true
      → Retries p (dialled net p (connected net r o))
  unfolding dialled connected retry
  dialled-Retries net p r (inl e) h = rw h (refl, refl, refl)
  dialled-Retries net p r (inr session) h = ground (arith, h)

module _ {S F : Type 0} ⦃fl : FloatOps F⦄ (to_lowercase : Text → Text) (id : Text)
    (config : TargetConfig) where
  -- A connection attempt on each network in turn.
  abbrev pub dial_all : List (Network S) → Poll S F → Poll S F × List (Effect F)
  dial_all [] p = (p, [])
  dial_all (net ∷ nets) p =
      let d = dial_step to_lowercase id net config p in
      let rest = dial_all nets d.0 in (rest.0, d.1 ++ rest.1)

  dial_step-Retries :
      (net : Network S) (p : Poll S F)
      → refused_for_now net.connect ≡ true
      → Retries p (dial_step to_lowercase id net config p)
  unfolding dial_step connect
  dial_step-Retries net p h =
      let fresh = new_runtime id (connection_spec config).host builtin_sources in
      dialled-Retries net p (record fresh { state = Runtime.connecting }) net.connect h

  -- A run that is refused for reasons that may pass never returns: it dials again each time, and
  -- waits before the next attempt for the delay of the attempts counted so far, the earlier ones
  -- included.
  pub dial_all-ladder :
      (nets : List (Network S)) (p : Poll S F)
      → p.phase ≡ dialling
      → All (λ net. refused_for_now net.connect ≡ true) nets
      → (waits (dial_all nets p).1 ≡ ladder p.attempt (length nets))
        × ((dial_all nets p).0.phase ≡ dialling)
  dial_all-ladder [] p e h = (refl, e)
  dial_all-ladder (net ∷ nets) p e (h, hs) =
      let d = dial_step to_lowercase id net config p in
      let (waited, counted, again) = dial_step-Retries net p h in
      let (rest, last) = dial_all-ladder nets d.0 again hs in
      (
        waits-append F d.1 (dial_all nets d.0).1
            ∙ ap (λ ws. ws ++ waits (dial_all nets d.0).1) waited
            ∙ ap (λ ws. backoff_for (next_attempt p.attempt) ∷ ws)
                (rest ∙ ap (λ a. ladder a (length nets)) counted),
        last,
      )

-- ===== src/Core/Runtime/Connecting.antt =====
-- crates/sg-core/src/runtime.rs: what `connect` leaves behind, whether it succeeds or not.
use server_glass.Base.{
  ◌≡◌, refl, true, false, Option, none, some, is_some, ◌⊎◌, inl, inr, Bool-cases,
}
use server_glass.Model.Request.{Responses}
use server_glass.Transport.Error.{TransportError, is_transient}
use server_glass.Core.Store.{clear}
use server_glass.Core.Collector.{reset_rates}
use server_glass.Core.Runtime.{
  Network, TargetRuntime, TargetState, online, connecting, is_online, on_disconnect, probed,
  connected, connect,
}

-- Online on a new session, with nothing remembered from before: no baselines, no readings, no
-- failed attempts.
pub record Fresh {S F : Type 0} (r r' : TargetRuntime S F) (error : Option TransportError)
    : Type 0 where
  pub succeeded : error ≡ none
  pub state : r'.state ≡ online
  pub session : is_some r'.session ≡ true
  pub ctx : is_some r'.ctx ≡ true
  pub collector : r'.collector ≡ reset_rates r.collector
  pub store : r'.store ≡ clear r.store
  pub attempt : r'.attempt ≡ 0

-- Not online, with the readings and the context from before.
pub record Lost {S F : Type 0} (r r' : TargetRuntime S F) (error : Option TransportError)
    : Type 0 where
  pub reported : is_some error ≡ true
  pub state : is_online r'.state ≡ false
  pub store : r'.store ≡ r.store
  pub ctx : r'.ctx ≡ r.ctx

module _ {S F : Type 0} where
  on_disconnect-Lost :
      (net : Network S) (r : TargetRuntime S F) (st : TargetState) (e : TransportError)
      → Lost r (on_disconnect net (record r { state = st }) e) (some e)
  unfolding on_disconnect is_online
  on_disconnect-Lost net r st e = elim (Bool-cases (is_transient e)) [
    | inl y ↦
        rw (y, on_disconnect) (record { reported = refl; state = refl; store = refl; ctx = refl })
    | inr n ↦
        rw (n, on_disconnect) (record { reported = refl; state = refl; store = refl; ctx = refl })
  ]

  probed_outcome :
      (net : Network S) (r : TargetRuntime S F) (a : S × (TransportError ⊎ Responses))
      → Fresh r
          (probed net (record r { state = connecting }) a).0
          (probed net (record r { state = connecting }) a).1
        ⊎ Lost r
            (probed net (record r { state = connecting }) a).0
            (probed net (record r { state = connecting }) a).1
  unfolding probed
  probed_outcome net r (s, inl error) = inr (on_disconnect-Lost net r connecting error)
  probed_outcome net r (s, inr rs) = inl (record {
    succeeded = refl;
    state = refl;
    session = refl;
    ctx = refl;
    collector = refl;
    store = refl;
    attempt = refl;
  })

  connected_outcome :
      (net : Network S) (r : TargetRuntime S F) (c : TransportError ⊎ S)
      → Fresh r
          (connected net (record r { state = connecting }) c).0
          (connected net (record r { state = connecting }) c).1
        ⊎ Lost r
            (connected net (record r { state = connecting }) c).0
            (connected net (record r { state = connecting }) c).1
  unfolding connected is_online
  connected_outcome net r (inl error) =
      inr (record { reported = refl; state = refl; store = refl; ctx = refl })
  connected_outcome net r (inr session) = probed_outcome net r (net.batch session _)

  -- Connecting either succeeds, and leaves the target online on a session with no baselines, no
  -- readings and no attempts from before; or it reports an error, and leaves the target not online
  -- with the readings and the context from before.
  pub connect_outcome :
      (net : Network S) (r : TargetRuntime S F)
      → Fresh r (connect net r).0 (connect net r).1 ⊎ Lost r (connect net r).0 (connect net r).1
  unfolding connect
  connect_outcome net r = connected_outcome net r net.connect

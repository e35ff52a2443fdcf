-- ===== src/Sync/Merge/Hosts.antt =====
-- crates/sg-sync/src/merge.rs: the servers after a merge.
use server_glass.Base.{
  ℕ, ◌+◌, ◌-◌, ◌≡◌, refl, true, Option, none, some, Text, List, [], ◌∷◌, ◌++◌, arith, any,
  any-append, all, length, Bool-cases, inl, inr, append_assoc, append-nil, sym, ◌∙◌, text_eq_refl,
  trim,
}
use mathlib.Core.Path.{subst}
use server_glass.Sync.Merge.Servers.{AreNew, no_more, is_new, is_held, knows-IsUnknown, knows-known}
use server_glass.Sync.Payload.{SyncHost, Payload, identity, identity_eq}
use server_glass.Sync.Merge.{
  Merged, knows, merge_host, merge_hosts, merge_held, merge_pin, merge_line, merge_lines, merge,
  merge_start, pin_host,
}

-- What the loop over the lines leaves alone.
pub record SameHosts (a b : Merged) : Type 0 where
  pub hosts : b.hosts ≡ a.hosts
  pub added : b.added_hosts ≡ a.added_hosts
  pub kept : b.kept_hosts ≡ a.kept_hosts

merge_held-SameHosts :
    (host line : Text) (o : Option Text) (out : Merged) → SameHosts out (merge_held host line o out)
unfolding merge_held
merge_held-SameHosts host line none out = ground arith
merge_held-SameHosts host line (some held) out = ground arith

merge_pin-SameHosts :
    (line : Text) (o : Option Text) (out : Merged) → SameHosts out (merge_pin line o out)
unfolding merge_pin
merge_pin-SameHosts line none out = ground arith
merge_pin-SameHosts line (some host) out = merge_held-SameHosts host line _ out

merge_line-SameHosts : (line : Text) (out : Merged) → SameHosts out (merge_line line out)
unfolding merge_line
merge_line-SameHosts line out = ground (arith, merge_pin-SameHosts line (pin_host line) out)

pub merge_lines-SameHosts : (ls : List Text) (out : Merged) → SameHosts out (merge_lines ls out)
unfolding merge_lines
merge_lines-SameHosts [] out = ground arith
merge_lines-SameHosts (l ∷ ls) out =
    ground
      (arith, merge_lines-SameHosts ls (merge_line (trim l) out), merge_line-SameHosts (trim l) out)

-- The loop over the hosts, from any start.
pub record Extends (a : Merged) (hs : List SyncHost) (b : Merged) : Type 0 where
  pub fresh : List SyncHost
  pub hosts : b.hosts ≡ a.hosts ++ fresh
  pub new : AreNew a.hosts hs fresh
  pub added : b.added_hosts ≡ a.added_hosts + length fresh
  pub counted : b.added_hosts + b.kept_hosts ≡ a.added_hosts + a.kept_hosts + length hs
  pub pins_kept : b.known_hosts ≡ a.known_hosts
  pub count_kept : b.added_pins ≡ a.added_pins
  pub conflicts_kept : b.conflicts ≡ a.conflicts

pub merge_hosts-Extends : (hs : List SyncHost) (a : Merged) → Extends a hs (merge_hosts hs a)
unfolding merge_hosts merge_host
merge_hosts-Extends [] a = record {
  fresh = [];
  hosts = sym (append-nil a.hosts);
  new = no_more a.hosts;
  added = omega arith;
  counted = omega arith;
  pins_kept = refl;
  count_kept = refl;
  conflicts_kept = refl;
}
merge_hosts-Extends (h ∷ hs) a = elim (Bool-cases (knows a.hosts h)) [
  | inl e ↦
      let r = merge_hosts-Extends hs (record a { kept_hosts = a.kept_hosts + 1 }) in
      rw (e, merge_hosts, merge_host)
        (record {
          fresh = r.fresh;
          hosts = r.hosts;
          new = is_held a.hosts hs r.fresh h (knows-known a.hosts h e) r.new;
          added = r.added;
          counted = omega (arith, r.counted);
          pins_kept = r.pins_kept;
          count_kept = r.count_kept;
          conflicts_kept = r.conflicts_kept;
        })
  | inr n ↦
      let r =
        merge_hosts-Extends hs
          (record a { hosts = a.hosts ++ h ∷ []; added_hosts = a.added_hosts + 1 }) in
      rw (n, merge_hosts, merge_host)
        (record {
          fresh = h ∷ r.fresh;
          hosts = r.hosts ∙ append_assoc a.hosts (h ∷ []) r.fresh;
          new = is_new a.hosts hs r.fresh h (knows-IsUnknown a.hosts h n) r.new;
          added = omega (arith, r.added);
          counted = omega (arith, r.counted);
          pins_kept = r.pins_kept;
          count_kept = r.count_kept;
          conflicts_kept = r.conflicts_kept;
        })
]

-- A known server stays known.
knows-append :
    (xs ys : List SyncHost) (h : SyncHost) → knows xs h ≡ true → knows (xs ++ ys) h ≡ true
knows-append xs ys h k = rw (any-append (λ x. identity_eq (identity x) (identity h)) xs ys, k) refl

identity_eq_refl : (i : Text × ℕ × Text) → identity_eq i i ≡ true
identity_eq_refl (a, p, u) = ground (arith, text_eq_refl a, text_eq_refl u)

-- The server of a round is known behind the round.
merge_host-knows : (h : SyncHost) (a : Merged) → knows (merge_host h a).hosts h ≡ true
unfolding merge_host any identity
merge_host-knows h a = elim (Bool-cases (knows a.hosts h)) [
  | inl e ↦ rw (e, merge_host) e
  | inr n ↦
      rw (n, merge_host, any-append (λ x. identity_eq (identity x) (identity h)) a.hosts (h ∷ []))
        (ground (arith, n, identity_eq_refl (identity h)))
]

-- And so behind the whole loop.
merge_hosts-knows :
    (hs : List SyncHost) (a : Merged) → all (λ h. knows (merge_hosts hs a).hosts h) hs ≡ true
unfolding merge_hosts all
merge_hosts-knows [] a = refl
merge_hosts-knows (h ∷ hs) a =
    let r = merge_hosts-Extends hs (merge_host h a) in
    ground (
      arith,
      subst (λ x. knows x h ≡ true) (sym r.hosts)
          (knows-append (merge_host h a).hosts r.fresh h (merge_host-knows h a)),
      merge_hosts-knows hs (merge_host h a),
    )

pub record MergesServers (existing incoming : Payload) (out : Merged) : Type 0 where
  pub fresh : List SyncHost
  pub hosts : out.hosts ≡ existing.hosts ++ fresh
  pub new : AreNew existing.hosts incoming.hosts fresh
  pub added : out.added_hosts ≡ length fresh
  pub kept : out.kept_hosts ≡ length incoming.hosts - length fresh
  pub counted : out.added_hosts + out.kept_hosts ≡ length incoming.hosts
  pub complete : all (λ h. knows out.hosts h) incoming.hosts ≡ true

-- The servers after a merge are those that the device had, unchanged and first, then the new ones
-- of those that came in, in their order: a server that came in is left out exactly if it has the
-- address, port and user of one that the device had or of a new one before it. One counter is the
-- number of the new ones, the other that of those left out, and every server that came in is known
-- by its identity afterwards.
pub merge-servers :
    (existing incoming : Payload) → MergesServers existing incoming (merge existing incoming)
unfolding merge
merge-servers existing incoming =
    let r = merge_hosts-Extends incoming.hosts (merge_start existing) in
    let same =
      merge_lines-SameHosts incoming.known_hosts
        (merge_hosts incoming.hosts (merge_start existing)) in
    record {
      fresh = r.fresh;
      hosts = same.hosts ∙ r.hosts;
      new = r.new;
      added = omega (arith, same.added, r.added);
      kept = omega (arith, same.kept, r.added, r.counted);
      counted = omega (arith, same.added, same.kept, r.counted);
      complete =
          subst (λ x. all (λ h. knows x h) incoming.hosts ≡ true) (sym same.hosts)
            (merge_hosts-knows incoming.hosts (merge_start existing));
    }

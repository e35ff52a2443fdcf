-- ===== src/Sync/Merge/Again.antt =====
-- crates/sg-sync/src/merge.rs: merging the same payload twice.
use server_glass.Base.{
  ◌+◌, ◌≡◌, Bool, true, List, [], ◌∷◌, arith, all, length, Bool-cases, inl, inr, ◌∙◌,
}
use mathlib.Core.Path.{ap}
use server_glass.Sync.Merge.Hosts.{merge_lines-SameHosts, merge-servers}
use server_glass.Sync.Payload.{SyncHost, Payload}
use server_glass.Sync.Merge.{Merged, knows, merge_host, merge_hosts, merge, merge_start}

all-tail :
    (p : SyncHost → Bool) (h : SyncHost) (hs : List SyncHost)
    → all p (h ∷ hs) ≡ true
    → all p hs ≡ true
unfolding all
all-tail p h hs k = elim (Bool-cases (p h)) [
  | inl e ↦ ground (arith, k, e)
  | inr n ↦ ground (arith, k, n)
]

-- The loop over servers that are all known only counts.
merge_hosts_known :
    (hs : List SyncHost) (a : Merged)
    → all (λ h. knows a.hosts h) hs ≡ true
    → merge_hosts hs a ≡ record a { kept_hosts = a.kept_hosts + length hs }
unfolding merge_hosts merge_host all
merge_hosts_known [] a k = ground arith
merge_hosts_known (h ∷ hs) a k = elim (Bool-cases (knows a.hosts h)) [
  | inl e ↦
      rw (e, merge_hosts, merge_host)
        (ground (
          arith,
          e,
          k,
          merge_hosts_known hs (record a { kept_hosts = a.kept_hosts + 1 })
              (all-tail (λ x. knows a.hosts x) h hs k),
        ))
  | inr n ↦ ground (arith, n, k)
]

-- What a device holds behind a merge.
abbrev pub held_after : Merged → Payload
held_after out = record { hosts = out.hosts; known_hosts = out.known_hosts }

-- Merging the same payload a second time adds no server: the list stays as it is, the counter of
-- new servers is 0 and each server that came in is counted as kept.
pub merge_again-servers :
    (existing incoming : Payload)
    → let out = merge existing incoming in
      ((merge (held_after out) incoming).hosts ≡ out.hosts)
      × (((merge (held_after out) incoming).added_hosts ≡ 0)
          × ((merge (held_after out) incoming).kept_hosts ≡ length incoming.hosts))
unfolding merge
merge_again-servers existing incoming =
    let out = merge existing incoming in
    let known =
      merge_hosts_known incoming.hosts (merge_start (held_after out))
        (merge-servers existing incoming).complete in
    let same =
      merge_lines-SameHosts incoming.known_hosts
        (merge_hosts incoming.hosts (merge_start (held_after out))) in
    (
      same.hosts ∙ ap (λ m. m.hosts) known,
      (
        omega (arith, same.added, ap (λ m. m.added_hosts) known),
        omega (arith, same.kept, ap (λ m. m.kept_hosts) known),
      ),
    )

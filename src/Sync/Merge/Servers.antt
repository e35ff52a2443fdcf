-- ===== src/Sync/Merge/Servers.antt =====
-- crates/sg-sync/src/merge.rs: which of the servers that come in are new.
use server_glass.Base.{
  ◌≡◌, true, false, List, [], ◌∷◌, ◌++◌, All, arith, Bool-cases, inl, inr, any, text_eq_iff,
}
use server_glass.Sync.Payload.{SyncHost, identity, identity_eq}
use server_glass.Sync.Merge.{knows}

-- The same user on the same port of the same address.
abbrev pub IsSame : SyncHost → SyncHost → Type 0
IsSame a b = (a.address ≡ b.address) × (a.port ≡ b.port) × (a.user ≡ b.user)

abbrev pub IsUnknown : List SyncHost → SyncHost → Type 0
IsUnknown held h = All (λ x. ¬ IsSame x h) held

-- `AreNew held hs fresh`: of the servers `hs`, in their order, `fresh` are the new ones. A server is
-- left out exactly if it is the same as one that is held or as a new one before it.
pub data AreNew : List SyncHost → List SyncHost → List SyncHost → Type 0 where
  no_more : (held : List SyncHost) → AreNew held [] []
  is_new :
      (held hs fresh : List SyncHost) (h : SyncHost)
      → IsUnknown held h
      → AreNew (held ++ h ∷ []) hs fresh
      → AreNew held (h ∷ hs) (h ∷ fresh)
  is_held :
      (held hs fresh : List SyncHost) (h : SyncHost)
      → ¬ IsUnknown held h
      → AreNew held hs fresh
      → AreNew held (h ∷ hs) fresh

identity_eq-IsSame : (x h : SyncHost) → identity_eq (identity x) (identity h) ≡ true → IsSame x h
unfolding identity
identity_eq-IsSame x h e = (
  (text_eq_iff x.address h.address).0 (ground (arith, e)),
  ground (arith, e),
  (text_eq_iff x.user h.user).0 (ground (arith, e)),
)

IsSame-identity_eq : (x h : SyncHost) → IsSame x h → identity_eq (identity x) (identity h) ≡ true
unfolding identity
IsSame-identity_eq x h (a, p, u) =
    ground (arith, a, p, u, text_eq_iff x.address h.address, text_eq_iff x.user h.user)

pub knows-IsUnknown :
    (held : List SyncHost) (h : SyncHost) → knows held h ≡ false → IsUnknown held h
unfolding any
knows-IsUnknown [] h e = tt
knows-IsUnknown (x ∷ held) h e = (
  (λ same. ground (arith, e, IsSame-identity_eq x h same)),
  knows-IsUnknown held h (ground (arith, e)),
)

pub knows-known : (held : List SyncHost) (h : SyncHost) → knows held h ≡ true → ¬ IsUnknown held h
unfolding any
knows-known [] h e u = ground (arith, e)
knows-known (x ∷ held) h e (n, u) = elim (Bool-cases (identity_eq (identity x) (identity h))) [
  | inl y ↦ absurd (n (identity_eq-IsSame x h y))
  | inr k ↦ knows-known held h (ground (arith, e, k)) u
]

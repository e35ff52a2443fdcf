-- ===== src/Sync/Payload.antt =====
-- crates/sg-sync/src/payload.rs: what crosses the wire.
use server_glass.Base.{ℕ, Bool, Option, List, Text, text_eq, ◌==◌, ◌&&◌}

pub record SyncHost : Type 0 where
  pub address : Text
  pub port : ℕ
  pub user : Text
  pub auth_kind : Text
  pub key_path : Option Text
  pub host_key_policy : Text
  pub refresh_ms : ℕ

-- The address, the port and the user.
abbrev pub Identity : Type 0
Identity = Text × ℕ × Text

-- `SyncHost::identity`
unfoldable pub identity : SyncHost → Identity
identity h = (h.address, h.port, h.user)

-- Equality of identities.
abbrev pub identity_eq : Identity → Identity → Bool
identity_eq a b = text_eq a.0 b.0 && (a.1 == b.1 && text_eq a.2 b.2)

pub record Payload : Type 0 where
  pub hosts : List SyncHost
  pub known_hosts : List Text

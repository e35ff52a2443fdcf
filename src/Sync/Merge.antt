-- ===== src/Sync/Merge.antt =====
-- crates/sg-sync/src/merge.rs: applying a received payload to what a device has.
pub mod Servers
pub mod Hosts
pub mod Again
pub mod Pins
use server_glass.Base.{
  ℕ, suc, ◌+◌, Bool, true, false, Option, none, some, Text, List, [], ◌∷◌, ◌++◌, text_eq, any, find,
  trim, first_word, split_once, is_whitespace, if◌then◌else◌, ◌==◌, ◌>>=◌, ◌||◌,
}
use server_glass.Sync.Payload.{SyncHost, Payload, identity, identity_eq}

pub record PinConflict : Type 0 where
  pub host : Text
  pub existing : Text
  pub incoming : Text

-- The record `Merge` of the source.
pub record Merged : Type 0 where
  pub hosts : List SyncHost
  pub known_hosts : List Text
  pub added_hosts : ℕ
  pub kept_hosts : ℕ
  pub added_pins : ℕ
  pub conflicts : List PinConflict

-- The `[host]:port` field of a known_hosts line.
unfoldable pub pin_host : Text → Option Text
unfolding first_word
pin_host line = first_word line

-- Everything behind the first white space.
unfoldable pub pin_key : Text → Option Text
unfolding split_once is_whitespace trim
pin_key line = do (field, rest) ← split_once is_whitespace line; some (trim rest)

unfoldable pub is_host : Text → Option Text → Bool
is_host host none = false
is_host host (some h) = text_eq h host

abbrev pub pins : Text → Text → Bool
pins host line = is_host host (pin_host line)

unfoldable pub same_key : Option Text → Option Text → Bool
same_key none none = true
same_key none (some b) = false
same_key (some a) none = false
same_key (some a) (some b) = text_eq a b

abbrev pub knows : List SyncHost → SyncHost → Bool
knows hosts host = any (λ h. identity_eq (identity h) (identity host)) hosts

-- One round of the loop over the hosts.
unfoldable pub merge_host : SyncHost → Merged → Merged
merge_host host out =
    if knows out.hosts host
    then record out { kept_hosts = out.kept_hosts + 1 }
    else record out { hosts = out.hosts ++ host ∷ []; added_hosts = out.added_hosts + 1 }

unfoldable pub merge_hosts : List SyncHost → Merged → Merged
unfolding merge_host
merge_hosts [] out = out
merge_hosts (h ∷ hs) out = merge_hosts hs (merge_host h out)

-- The arms of the match on the line that is held for the host.
unfoldable pub merge_held : Text → Text → Option Text → Merged → Merged
merge_held host line none out = record out {
  known_hosts = out.known_hosts ++ line ∷ [];
  added_pins = out.added_pins + 1;
}
merge_held host line (some held) out =
    if same_key (pin_key held) (pin_key line) then out else record out {
      conflicts = out.conflicts ++ record { host = host; existing = held; incoming = line } ∷ [];
    }

unfoldable pub merge_pin : Text → Option Text → Merged → Merged
unfolding merge_held
merge_pin line none out = out
merge_pin line (some host) out = merge_held host line (find (pins host) out.known_hosts) out

-- `line.is_empty() || line.starts_with('#')`
unfoldable pub is_skipped : Text → Bool
is_skipped [] = true
is_skipped (c ∷ s) = c == b'#'

unfoldable pub merge_line : Text → Merged → Merged
unfolding merge_pin is_skipped
merge_line line out = if is_skipped line then out else merge_pin line (pin_host line) out

unfoldable pub merge_lines : List Text → Merged → Merged
unfolding merge_line trim
merge_lines [] out = out
merge_lines (l ∷ ls) out = merge_lines ls (merge_line (trim l) out)

-- The value that the loops start from.
abbrev pub merge_start : Payload → Merged
merge_start existing = record {
  hosts = existing.hosts;
  known_hosts = existing.known_hosts;
  added_hosts = 0;
  kept_hosts = 0;
  added_pins = 0;
  conflicts = [];
}

unfoldable pub merge : Payload → Payload → Merged
unfolding merge_hosts merge_lines
merge existing incoming =
    merge_lines incoming.known_hosts (merge_hosts incoming.hosts (merge_start existing))

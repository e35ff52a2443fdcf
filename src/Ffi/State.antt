-- ===== src/Ffi/State.antt =====
-- crates/sg-ffi/src/view.rs: the state of a connection as the applications see it.
use server_glass.Base.{ℕ, Bool, true, false, Text}
use server_glass.Core.Runtime.{TargetState}
use server_glass.Core.Runtime

pub data ConnectionState : Type 0 where
  idle connecting online : ConnectionState
  reconnecting : ℕ → ℕ → ConnectionState
  failed : Text → Bool → ConnectionState

-- `From<&TargetState>`
unfoldable pub from_state : TargetState → ConnectionState
from_state Runtime.idle = idle
from_state Runtime.connecting = connecting
from_state Runtime.online = online
from_state (Runtime.reconnecting attempt retry_in_ms) = reconnecting attempt retry_in_ms
from_state (Runtime.failed message recoverable) = failed message recoverable

-- `state == ConnectionState::Online`
abbrev pub is_online : ConnectionState → Bool
is_online online = true
is_online _ = false

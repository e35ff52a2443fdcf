-- ===== src/Transport/Error.antt =====
-- crates/sg-transport/src/error.rs: what can go wrong reaching a host. The sources that errors of
-- other libraries carry are their messages.
use server_glass.Base.{ℕ, Bool, true, false, Text}

pub data TransportError : Type 0 where
  connect : Text → ℕ → Text → TransportError
  unknown_host_key : Text → ℕ → Text → TransportError
  host_key_mismatch : Text → ℕ → Text → TransportError
  host_key_storage : Text → TransportError
  output_too_large : ℕ → TransportError
  auth_failed : Text → Text → TransportError
  key_file : Text → Text → TransportError
  key_text : Text → TransportError
  no_agent : Text → TransportError
  agent_no_identity : Text → Text → TransportError
  shell_not_started : TransportError
  closed : TransportError
  timeout : Text → ℕ → TransportError
  ssh : Text → TransportError
  io : Text → TransportError

-- `TransportError::is_transient`
unfoldable pub is_transient : TransportError → Bool
is_transient (connect host port source) = true
is_transient closed = true
is_transient (timeout what ms) = true
is_transient shell_not_started = true
is_transient (io source) = true
is_transient (ssh source) = true
is_transient (auth_failed user host) = false
is_transient (unknown_host_key host port fingerprint) = false
is_transient (host_key_mismatch host port fingerprint) = false
is_transient (host_key_storage detail) = false
is_transient (output_too_large limit) = false
is_transient (key_file path detail) = false
is_transient (key_text detail) = false
is_transient (no_agent detail) = false
is_transient (agent_no_identity user host) = false

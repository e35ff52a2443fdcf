-- ===== src/Transport/HostKey.antt =====
-- crates/sg-transport/src/session.rs: the decision on a server's key, and the error that a refused
-- connection reports. What the file system and russh answer are arguments.
pub mod Decision
use server_glass.Base.{ℕ, Bool, true, false, Option, none, some, Text, codes}
use server_glass.Transport.Error.{
  TransportError, unknown_host_key, host_key_mismatch, host_key_storage, ssh, timeout,
}

-- `HostKeyPolicy` of crates/sg-transport/src/auth.rs
pub data HostKeyPolicy : Type 0 where
  strict accept_new accept_any : HostKeyPolicy

pub data HostKeyVerdict : Type 0 where
  accepted : HostKeyVerdict
  storage_failed : Text → HostKeyVerdict
  unknown : Text → HostKeyVerdict
  changed : Text → HostKeyVerdict

-- What opening the file of pins gives.
pub data Opened : Type 0 where
  opened not_found : Opened
  open_failed : Text → Opened

-- `russh::keys::check_known_hosts_path`
pub data Known : Type 0 where
  matches absent key_changed : Known
  check_failed : Text → Known

-- The answers of the file system and of russh for one key: where the pins are, if anywhere, and
-- what looking and learning give. `learned` is the error of writing the pin.
pub record PinStore : Type 0 where
  pub path : Option Text
  pub opening : Opened
  pub known : Known
  pub learned : Option Text
  pub fingerprint : Text

-- The verdict, and whether a pin was written.
abbrev pub Decided : Type 0
Decided = HostKeyVerdict × Bool

unfoldable pub learn : Option Text → Decided
learn none = (accepted, true)
learn (some error) = (storage_failed error, false)

-- A host without a pin.
unfoldable pub check_absent : HostKeyPolicy → PinStore → Decided
unfolding learn
check_absent accept_new store = learn store.learned
check_absent strict store = (unknown store.fingerprint, false)
check_absent accept_any store = (unknown store.fingerprint, false)

unfoldable pub check_known : HostKeyPolicy → PinStore → Known → Decided
unfolding check_absent
check_known policy store matches = (accepted, false)
check_known policy store key_changed = (changed store.fingerprint, false)
check_known policy store (check_failed error) = (storage_failed error, false)
check_known policy store absent = check_absent policy store

unfoldable pub check_opened : HostKeyPolicy → PinStore → Opened → Decided
unfolding check_known
check_opened policy store opened = check_known policy store store.known
check_opened policy store not_found = check_known policy store store.known
check_opened policy store (open_failed error) = (storage_failed error, false)

unfoldable pub check_path : HostKeyPolicy → PinStore → Option Text → Decided
unfolding check_opened
check_path policy store none = (storage_failed (codes "No home directory for known_hosts."), false)
check_path policy store (some path) = check_opened policy store store.opening

-- `ClientHandler::check_server_key`
unfoldable pub check_server_key : HostKeyPolicy → PinStore → Decided
unfolding check_path
check_server_key accept_any store = (accepted, false)
check_server_key strict store = check_path strict store store.path
check_server_key accept_new store = check_path accept_new store store.path

unfoldable pub is_accepted : HostKeyVerdict → Bool
is_accepted accepted = true
is_accepted _ = false

-- The error of `SshSession::connect` when russh fails with `message`, from the recorded verdict.
unfoldable pub connect_error : Text → ℕ → Text → Option HostKeyVerdict → TransportError
connect_error host port message (some (unknown fingerprint)) =
    unknown_host_key host port fingerprint
connect_error host port message (some (changed fingerprint)) =
    host_key_mismatch host port fingerprint
connect_error host port message (some (storage_failed detail)) = host_key_storage detail
connect_error host port message (some accepted) = ssh message
connect_error host port message none = ssh message

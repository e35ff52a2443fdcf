-- ===== src/Transport/HostKey/Decision.antt =====
-- crates/sg-transport/src/session.rs: when a key is accepted, when a pin is written, and what a
-- refusal reports.
use server_glass.Base.{ℕ, ◌≡◌, refl, Bool, true, false, not, ◌&&◌, ◌||◌, some, is_some, Text, arith}
use server_glass.Transport.Error.{is_transient}
use server_glass.Transport.HostKey.{
  HostKeyPolicy, accept_new, accept_any, HostKeyVerdict, accepted, storage_failed, unknown, changed,
  Opened, open_failed, Known, matches, absent, PinStore, check_server_key, check_path, check_opened,
  check_known, check_absent, learn, is_accepted, connect_error,
}

abbrev pub trusts_any : HostKeyPolicy → Bool
trusts_any accept_any = true
trusts_any _ = false

abbrev pub trusts_new : HostKeyPolicy → Bool
trusts_new accept_new = true
trusts_new _ = false

-- The pins can be read, or there are none yet.
abbrev pub is_readable : Opened → Bool
is_readable (open_failed error) = false
is_readable _ = true

abbrev pub is_match : Known → Bool
is_match matches = true
is_match _ = false

abbrev pub is_absent : Known → Bool
is_absent absent = true
is_absent _ = false

-- There is a file of pins to consult.
abbrev pub consults : PinStore → Bool
consults store = is_some store.path && is_readable store.opening

-- A new host's pin is to be written, and writing succeeds.
abbrev pub pins_new : HostKeyPolicy → PinStore → Bool
pins_new policy store =
    trusts_new policy && (consults store && (is_absent store.known && not (is_some store.learned)))

-- A key is accepted exactly if the policy trusts any key, or the pins can be consulted and hold
-- this key, or the policy trusts new hosts, the pins can be consulted, hold nothing for the host
-- and take the new pin. A pin is written only in the last case. So a changed key is refused under
-- every policy that looks at the pins.
pub check_server_key_lem :
    (policy : HostKeyPolicy) (store : PinStore)
    → (is_accepted (check_server_key policy store).0 ≡ (
        trusts_any policy || ((consults store && is_match store.known) || pins_new policy store)))
      × ((check_server_key policy store).1 ≡ pins_new policy store)
unfolding check_server_key check_path check_opened check_known check_absent learn is_accepted
check_server_key_lem policy store = ground arith

refused_verdict :
    (host : Text) (port : ℕ) (message : Text) (v : HostKeyVerdict)
    → is_accepted v ≡ false
    → is_transient (connect_error host port message (some v)) ≡ false
unfolding is_accepted connect_error is_transient
refused_verdict host port message accepted h = ground (arith, h)
refused_verdict host port message (storage_failed detail) h = refl
refused_verdict host port message (unknown fingerprint) h = refl
refused_verdict host port message (changed fingerprint) h = refl

-- The error of a connection whose key was refused is one that is not retried.
pub refused-is_transient :
    (policy : HostKeyPolicy) (store : PinStore) (host : Text) (port : ℕ) (message : Text)
    → is_accepted (check_server_key policy store).0 ≡ false
    → is_transient (connect_error host port message (some (check_server_key policy store).0))
      ≡ false
refused-is_transient policy store host port message h =
    refused_verdict host port message (check_server_key policy store).0 h

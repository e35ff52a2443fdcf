-- ===== src/Ffi/Spec.antt =====
-- crates/sg-transport/src/auth.rs and crates/sg-ffi/src/view.rs: the settings of a connection.
pub mod Defaults
use server_glass.Base.{
  ℕ, Option, none, some, [], ◌∷◌, ◌++◌, Text, codes, text_eq, if◌then◌else◌, unwrap_or, ◌==◌,
  show_nat,
}
use server_glass.Transport.HostKey.{HostKeyPolicy, strict, accept_new, accept_any}

pub data Auth : Type 0 where
  agent : Auth
  key_file : Text → Option Text → Auth
  key_text : Text → Option Text → Auth
  password : Text → Auth

-- `Auth::describe`
unfoldable pub describe_auth : Auth → Text
describe_auth agent = codes "ssh-agent"
describe_auth (key_file path passphrase) = codes "key " ++ path
describe_auth (key_text key passphrase) = codes "pasted key"
describe_auth (password p) = codes "password"

pub record ConnectionSpec : Type 0 where
  pub host : Text
  pub port : ℕ
  pub user : Text
  pub auth : Auth
  pub host_key_policy : HostKeyPolicy
  pub connect_timeout_ms : ℕ
  pub batch_timeout_ms : ℕ
  pub keepalive_secs : ℕ
  pub known_hosts : Option Text

-- `ConnectionSpec::new`
unfoldable pub new_spec : Text → Text → ConnectionSpec
new_spec host user = record {
  host = host;
  port = 22;
  user = user;
  auth = agent;
  host_key_policy = strict;
  connect_timeout_ms = 15000;
  batch_timeout_ms = 10000;
  keepalive_secs = 30;
  known_hosts = none;
}

-- `ConnectionSpec::endpoint`
unfoldable pub endpoint : ConnectionSpec → Text
unfolding show_nat
endpoint spec =
    if spec.port == 22
    then spec.user ++ (codes "@" ++ spec.host)
    else spec.user ++ (codes "@" ++ (spec.host ++ (codes ":" ++ show_nat spec.port)))

pub record TargetConfig : Type 0 where
  pub host : Text
  pub port : ℕ
  pub user : Text
  pub auth_kind : Text
  pub key_path : Option Text
  pub key_text : Option Text
  pub secret : Option Text
  pub host_key_policy : Text
  pub known_hosts_path : Option Text
  pub refresh_ms : ℕ

-- `filter(|s| !s.is_empty())`
abbrev pub filled : Option Text → Option Text
filled none = none
filled (some []) = none
filled (some (c ∷ s)) = some (c ∷ s)

-- The match on `auth_kind`.
unfoldable pub auth_of : TargetConfig → Auth
unfolding text_eq
auth_of c =
    if text_eq c.auth_kind (codes "key")
    then key_file (unwrap_or [] c.key_path) (filled c.secret)
    else if text_eq c.auth_kind (codes "key_text")
    then key_text (unwrap_or [] c.key_text) (filled c.secret)
    else if text_eq c.auth_kind (codes "password")
    then password (unwrap_or [] c.secret)
    else agent

-- The match on `host_key_policy`.
unfoldable pub policy_of : Text → HostKeyPolicy
unfolding text_eq
policy_of name =
    if text_eq name (codes "accept_new")
    then accept_new
    else if text_eq name (codes "accept_any")
    then accept_any
    else strict

-- `connection_spec`
unfoldable pub connection_spec : TargetConfig → ConnectionSpec
unfolding new_spec auth_of policy_of
connection_spec c = record (new_spec c.host c.user) {
  port = if c.port == 0 then 22 else c.port;
  auth = auth_of c;
  host_key_policy = policy_of c.host_key_policy;
  known_hosts = filled c.known_hosts_path;
}

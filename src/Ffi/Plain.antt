-- ===== src/Ffi/Plain.antt =====
-- crates/sg-ffi/src/plain.rs: the sentences of the simple view. Unicode's lower case is a parameter.
use server_glass.Base.{
  ℕ, Bool, true, ◌||◌, Option, none, some, List, [], ◌∷◌, ◌++◌, Text, codes, text_eq, find,
  find_split, is_some, if◌then◌else◌, ◌>>=◌, strip_suffix,
}
use server_glass.Base.Float.{FloatOps}
use server_glass.Ffi.View.{MetricGauge}
use server_glass.Ffi.Format.{format_value}

pub record HostHealth : Type 0 where
  pub level : Text
  pub headline : Text
  pub detail : Text

-- The closure `health`.
abbrev pub health : Text → Text → Text → HostHealth
health level headline detail = record { level = level; headline = headline; detail = detail }

-- `contains` of `str`
abbrev pub holds : Text → Text → Bool
holds s pattern = is_some (find_split pattern s)

-- What a failure is called, by what its message holds in lower case.
unfoldable pub failure_text : Text → Text → Text
unfolding find_split
failure_text lower message =
    if holds lower (codes "authentication failed") || holds lower (codes "no usable identity")
    then codes "The username or key was not accepted. Check the sign-in details are the ones this "
      ++ codes "server expects."
    else if holds lower (codes "not in known_hosts")
    then codes "This is the first time connecting to this server, so its identity has not been "
      ++ codes
          "confirmed yet. Turn on \"Trust this server\" when adding it if you know it is the right "
      ++ codes "one."
    else if holds lower (codes "changed")
    then codes
        "This server's identity is different from last time. That can mean it was rebuilt — or "
      ++ codes "that something is impersonating it. Do not reconnect until you know which."
    else if holds lower (codes "could not reach") || holds lower (codes "timed out")
    then codes
        "Nothing answered at that address. Check the server is switched on and that you are on "
      ++ codes "the same network or VPN."
    else if holds lower (codes "no ssh-agent")
    then codes
        "No key agent is running, so there is no key to sign in with. Choose a key file instead, "
      ++ codes "or start your key agent."
    else if holds lower (codes "could not read the pasted private key")
    then codes "That key could not be read. Paste the whole key, including the -----BEGIN----- and "
      ++ codes "-----END----- lines, and add its passphrase below if it has one."
    else if holds lower (codes "could not read private key")
    then codes
        "That key file could not be read. Check the path is right and the passphrase matches."
    else if holds lower (codes "closed")
    then codes "The server closed the connection. It may be restarting."
    else codes "Something went wrong connecting. The technical detail was: " ++ message

-- `friendly_failure`
unfoldable pub friendly_failure : (Text → Text) → Text → Text
unfolding failure_text
friendly_failure to_lowercase message = failure_text (to_lowercase message) message

-- `plain_name`
unfoldable pub plain_name : Text → Option Text
plain_name metric =
    if text_eq metric (codes "cpu_usage")
    then some (codes "Processor")
    else if text_eq metric (codes "mem_usage")
    then some (codes "Memory")
    else if text_eq metric (codes "disk_usage")
    then some (codes "Storage")
    else if text_eq metric (codes "uptime")
    then some (codes "Running for")
    else if text_eq metric (codes "net_rx")
    then some (codes "Downloading")
    else if text_eq metric (codes "net_tx")
    then some (codes "Uploading")
    else none

-- The first verdict that is reached.
unfoldable pub first_of : List (Option HostHealth) → HostHealth → HostHealth
first_of [] default = default
first_of (none ∷ cs) default = first_of cs default
first_of (some h ∷ cs) default = h

-- `trim_end_matches(" .")` of a text
unfoldable pub trim_stop : ℕ → Text → Text
unfolding strip_suffix
trim_stop ℕ.zero s = s
trim_stop (ℕ.suc f) s = elim (strip_suffix (codes " .") s) [ none ↦ s | some r ↦ trim_stop f r ]

module _ {F : Type 0} ⦃fl : FloatOps F⦄ where
  -- The closures `value` and `pair`.
  unfoldable pub value_of : List (MetricGauge F) → Text → Option F
  unfolding find
  value_of gauges metric = find (λ g. text_eq g.metric metric) gauges >>= λ g. some g.value

  unfoldable pub free_of : F → F → Text
  unfolding format_value
  free_of used total =
      format_value (fl.sub total used) (codes "B") true
      ++ (codes " free of " ++ format_value total (codes "B") true)

  unfoldable pub pair_of : List (MetricGauge F) → Text → Text → Option Text
  unfolding value_of free_of
  pair_of gauges used total = do
    u ← value_of gauges used
    t ← value_of gauges total
    some (free_of u t)

  -- `or_else`
  abbrev pub either_of : Option F → Option F → Option F
  either_of (some x) y = some x
  either_of none y = y

  -- `if let Some(x) = value { if x >= limit { return … } }`
  abbrev pub at_least : ℕ → Option F → (F → HostHealth) → Option HostHealth
  at_least limit o verdict = o >>= λ x. if fl.le (fl.of_nat limit) x then some (verdict x) else none

  -- `{x:.0}`
  abbrev pub whole : F → Text
  whole x = fl.show_fixed 0 x

-- ===== src/Collect/Network.antt =====
-- crates/sg-collect/src/network.rs: the traffic of the interfaces from /proc/net/dev.
pub mod Totals
use server_glass.Base.{
  ℕ, true, false, Bool, not, ◌&&◌, ◌||◌, Option, none, some, List, [], ◌∷◌, ◌++◌, Text, codes,
  split_whitespace, split_once, parse_u64, unwrap_or, get_elem?, ◌==◌, ◌>>=◌, lines, text_eq,
  if◌then◌else◌, filter_map, filter, map, is_whitespace, is_empty, any, length, ltb, trim,
  add_where, show_bool,
}
use server_glass.Base.Float.{FloatOps}
use server_glass.Model.Measure.{bytes, packets, count}
use server_glass.Model.Ids.{SourceId}
use server_glass.Model.Entity.{network_interface, child_entity, label_entity, Entity}
use server_glass.Model.Caps.{needs_path, contains}
use server_glass.Model.Request.{Request, read_file, exec, Responses, text_of}
use server_glass.Model.Series.{counter, uint}
use server_glass.Model.Source.{Source, SourceDescriptor, TargetCtx}
use server_glass.Collect.Writes.{
  Write, emitted, declared, when_some, when, for_each, writing_source,
}

pub record InterfaceStats : Type 0 where
  pub name : Text
  pub rx_bytes : ℕ
  pub rx_packets : ℕ
  pub rx_errors : ℕ
  pub rx_dropped : ℕ
  pub tx_bytes : ℕ
  pub tx_packets : ℕ
  pub tx_errors : ℕ
  pub tx_dropped : ℕ

unfoldable pub is_loopback : InterfaceStats → Bool
is_loopback i = text_eq i.name (codes "lo")

-- `InterfaceStats::is_idle`
unfoldable pub is_idle : InterfaceStats → Bool
is_idle i = i.rx_bytes == 0 && i.tx_bytes == 0

-- One line of /proc/net/dev; `none` where the loop continues with the next line.
unfoldable pub parse_interface : Text → Option InterfaceStats
unfolding split_once trim any is_whitespace split_whitespace filter_map get_elem?
parse_interface line = do
  kv ← split_once (λ c. c == b':') line
  let name = trim (kv.0)
  let n = filter_map parse_u64 (split_whitespace (kv.1))
  (if is_empty name || any is_whitespace name || ltb (length n) 16
      then none
      else some (record {
        name = name;
        rx_bytes = unwrap_or 0 (get_elem? n 0);
        rx_packets = unwrap_or 0 (get_elem? n 1);
        rx_errors = unwrap_or 0 (get_elem? n 2);
        rx_dropped = unwrap_or 0 (get_elem? n 3);
        tx_bytes = unwrap_or 0 (get_elem? n 8);
        tx_packets = unwrap_or 0 (get_elem? n 9);
        tx_errors = unwrap_or 0 (get_elem? n 10);
        tx_dropped = unwrap_or 0 (get_elem? n 11);
      }))

unfoldable pub parse_net_dev : Text → List InterfaceStats
unfolding parse_interface filter_map lines
parse_net_dev text = filter_map parse_interface (lines text)

-- `PHYSICAL_ARGV`
abbrev pub physical_argv : List Text
physical_argv =
    codes "sh"
    ∷ codes "-c"
    ∷ codes "for d in /sys/class/net/*; do [ -e \"$d/device\" ] && echo \"${d##*/}\"; done; exit 0"
    ∷ []

unfoldable pub network_descriptor : SourceDescriptor
unfolding needs_path
network_descriptor = record {
  id = codes "proc.network";
  display = codes "Network";
  description = codes "Per-interface traffic, packets, errors and drops";
  produces = network_interface ∷ [];
  requires = needs_path (codes "/proc/net/dev");
  default_enabled = true;
}

abbrev pub net_dev_request : Request
net_dev_request = read_file (codes "/proc/net/dev")

abbrev pub physical_request : Request
physical_request = exec physical_argv

-- The non-empty lines, trimmed: what a listing command printed.
unfoldable pub listed_names : Option Text → List Text
unfolding filter lines trim
listed_names none = []
listed_names (some t) = filter (λ l. not (is_empty l)) (map trim (lines t))

-- The closure `counts_toward_total`.
unfoldable pub counts_toward_total : List Text → InterfaceStats → Bool
unfolding is_loopback any
counts_toward_total physical i =
    if is_loopback i
    then false
    else (elim physical [ [] ↦ true | p ∷ ps ↦ contains (p ∷ ps) i.name ])

-- An interface that the loop does not skip.
unfoldable pub is_shown : InterfaceStats → Bool
unfolding is_idle is_loopback
is_shown i = not (is_idle i && not (is_loopback i))

unfoldable pub is_counted : List Text → InterfaceStats → Bool
unfolding is_shown counts_toward_total
is_counted physical i = is_shown i && counts_toward_total physical i

unfoldable pub host_rx : List Text → List InterfaceStats → ℕ
unfolding is_counted add_where
host_rx physical all = add_where (is_counted physical) (λ i. i.rx_bytes) all 0

unfoldable pub host_tx : List Text → List InterfaceStats → ℕ
unfolding is_counted add_where
host_tx physical all = add_where (is_counted physical) (λ i. i.tx_bytes) all 0

module _ {F : Type 0} ⦃fl : FloatOps F⦄ where
  -- What the loop writes for an interface.
  unfoldable pub interface_writes : SourceId → Entity → List Text → InterfaceStats → List (Write F)
  unfolding is_loopback any child_entity label_entity counter
  interface_writes id host physical i =
      let entity =
        label_entity
          (label_entity (child_entity host network_interface i.name) (codes "loopback")
            (show_bool (is_loopback i)))
          (codes "physical") (show_bool (contains physical i.name)) in
      for_each
        ((codes "rx_bytes", codes "Received", i.rx_bytes, bytes)
          ∷ (codes "tx_bytes", codes "Sent", i.tx_bytes, bytes)
          ∷ (codes "rx_packets", codes "Packets in", i.rx_packets, packets)
          ∷ (codes "tx_packets", codes "Packets out", i.tx_packets, packets)
          ∷ (codes "rx_errors", codes "Errors in", i.rx_errors, count)
          ∷ (codes "tx_errors", codes "Errors out", i.tx_errors, count)
          ∷ (codes "rx_dropped", codes "Dropped in", i.rx_dropped, count)
          ∷ (codes "tx_dropped", codes "Dropped out", i.tx_dropped, count)
          ∷ [])
        (λ (metric, display, value, measure).
          emitted (counter id entity.id metric display measure) (uint value) ∷ [])
      ++ declared entity ∷ []

  unfoldable pub net_dev_writes : TargetCtx → List Text → List InterfaceStats → List (Write F)
  unfolding network_descriptor is_shown interface_writes counter host_rx host_tx
  net_dev_writes ctx physical all =
      let id = network_descriptor.id in
      for_each all (λ i. when (is_shown i) (interface_writes id ctx.host physical i))
      ++ emitted (counter id ctx.host.id (codes "net_rx") (codes "Download") bytes)
          (uint (host_rx physical all))
        ∷ emitted (counter id ctx.host.id (codes "net_tx") (codes "Upload") bytes)
            (uint (host_tx physical all))
        ∷ []

  unfoldable pub network_writes : TargetCtx → Responses → List (Write F)
  unfolding text_of listed_names net_dev_writes parse_net_dev
  network_writes ctx rs =
      when_some (text_of rs net_dev_request) (λ text.
        net_dev_writes ctx (listed_names (text_of rs physical_request)) (parse_net_dev text))

  unfoldable pub network_source : Source F
  unfolding writing_source network_descriptor network_writes
  network_source =
      writing_source network_descriptor (λ ctx. net_dev_request ∷ physical_request ∷ [])
        network_writes

-- ===== src/Ffi/View.antt =====
-- crates/sg-ffi/src/view.rs: gauges, their severity and the two groups of a host's readings.
pub mod Complete
use server_glass.Base.{
  ℕ, suc, Bool, true, false, ◌&&◌, ◌||◌, Option, none, some, List, [], ◌∷◌, ◌++◌, Text, codes,
  text_eq, filter, filter_map, map, if◌then◌else◌, ◌>>=◌, ◌^◌, ◌-◌, ltb, leb, ◌==◌, any,
}
use server_glass.Base.Int.{negsuc}
use server_glass.Base.Float.{FloatOps}
use server_glass.Base.Sort.{sort_with, text_le}
use server_glass.Model.Ids.{EntityId}
use server_glass.Model.Caps.{contains}
use server_glass.Model.Measure.{MeasureUnit, celsius, suffix, is_binary_scaled}
use server_glass.Model.Series.{SeriesDescriptor, SeriesKind, info_kind, effective_unit, display_max}
use server_glass.Core.Store.{LiveStore, latest, history_vec}
use server_glass.Core.Store.Views.{series_for}

pub record MetricGauge (F : Type 0) : Type 0 where
  pub series_id : Text
  pub metric : Text
  pub label : Text
  pub value : F
  pub max : Option F
  pub unit_suffix : Text
  pub binary_scaled : Bool
  pub history : List F
  pub severity : Text

pub record DetailGroup (F : Type 0) : Type 0 where
  pub title : Text
  pub gauges : List (MetricGauge F)

-- `HEADLINE`
abbrev pub headline : List Text
headline =
    codes "cpu_usage"
    ∷ codes "mem_usage"
    ∷ codes "disk_usage"
    ∷ codes "swap_usage"
    ∷ codes "cpu_temp"
    ∷ codes "load1"
    ∷ codes "net_rx"
    ∷ codes "net_tx"
    ∷ codes "uptime"
    ∷ []

-- `DETAIL_ORDER`
abbrev pub detail_order : List Text
detail_order =
    codes "cpu_user"
    ∷ codes "cpu_system"
    ∷ codes "cpu_iowait"
    ∷ codes "cpu_steal"
    ∷ codes "ctx_switches"
    ∷ codes "procs_running"
    ∷ codes "procs_blocked"
    ∷ codes "mem_total"
    ∷ codes "mem_used"
    ∷ codes "mem_available"
    ∷ codes "mem_free"
    ∷ codes "mem_cached"
    ∷ codes "mem_buffers"
    ∷ codes "swap_total"
    ∷ codes "swap_used"
    ∷ codes "load1"
    ∷ codes "load5"
    ∷ codes "load15"
    ∷ codes "procs_total"
    ∷ codes "uptime"
    ∷ codes "cpu_temp"
    ∷ codes "disk_read"
    ∷ codes "disk_write"
    ∷ codes "net_rx"
    ∷ codes "net_tx"
    ∷ codes "sockets"
    ∷ codes "tcp_established"
    ∷ codes "tcp_inuse"
    ∷ codes "tcp_timewait"
    ∷ codes "tcp_orphan"
    ∷ codes "udp_inuse"
    ∷ codes "tcp_in_segs"
    ∷ codes "tcp_out_segs"
    ∷ codes "tcp_retrans"
    ∷ codes "tcp_active_opens"
    ∷ codes "tcp_passive_opens"
    ∷ []

unfoldable pub group_title : Text → Option Text
group_title source =
    if text_eq source (codes "proc.cpu")
    then some (codes "CPU")
    else if text_eq source (codes "proc.memory")
    then some (codes "Memory")
    else if text_eq source (codes "proc.load")
    then some (codes "Load & processes")
    else if text_eq source (codes "proc.diskio")
    then some (codes "Disk I/O")
    else if text_eq source (codes "proc.network")
    then some (codes "Network totals")
    else if text_eq source (codes "proc.tcp")
    then some (codes "Sockets & TCP")
    else if text_eq source (codes "sys.sensors") || text_eq source (codes "proc.filesystem")
    then none
    else some (codes "Other")

-- `position`, or the length where the metric is not listed.
unfoldable pub rank_in : List Text → Text → ℕ
rank_in [] metric = 0
rank_in (m ∷ ms) metric = let rest = rank_in ms metric in if text_eq m metric then 0 else suc rest

unfoldable pub detail_rank : Text → ℕ
unfolding rank_in
detail_rank metric = rank_in detail_order metric

abbrev pub is_info : SeriesKind → Bool
is_info info_kind = true
is_info _ = false

abbrev pub is_celsius : MeasureUnit → Bool
is_celsius celsius = true
is_celsius _ = false

module _ {F : Type 0} ⦃fl : FloatOps F⦄ where
  -- `clamp`, which keeps what is not a number.
  abbrev pub clamp : F → F → F → F
  clamp x lo hi = if fl.lt x lo then lo else if fl.lt hi x then hi else x

  -- The constant `n` hundredths.
  abbrev pub hundredths : ℕ → F
  hundredths n = fl.of_decimal false n (negsuc 1)

  abbrev pub positive : Option F → Option F
  positive m = m >>= λ x. if fl.lt (fl.of_nat 0) x then some x else none

  -- The closure `level`.
  unfoldable pub level_of : F → F → F → Text
  level_of fraction warn bad =
      if fl.le bad fraction
      then codes "problem"
      else if fl.le warn fraction
      then codes "busy"
      else codes "ok"

  unfoldable pub severity_of : MeasureUnit → F → Option F → Text
  unfolding level_of
  severity_of measure value max =
      if is_celsius measure
      then (elim (positive max) [
        | some critical ↦ level_of (fl.div value critical) (hundredths 85) (hundredths 95)
        | none ↦ level_of value (fl.of_nat 80) (fl.of_nat 90)
      ])
      else (elim (positive max) [
        | some m ↦
            level_of (clamp (fl.div value m) (fl.of_nat 0) (fl.of_nat 1)) (hundredths 60)
              (hundredths 85)
        | none ↦ codes "none"
      ])

  unfoldable pub gauge_from : LiveStore F → SeriesDescriptor F → Option (MetricGauge F)
  unfolding latest history_vec effective_unit display_max suffix is_binary_scaled severity_of
  gauge_from store d = if is_info d.kind then none else (do
    newest ← latest store d.id
    let measure = effective_unit d
    some (record {
      series_id = d.id;
      metric = d.metric;
      label = d.display;
      value = newest.value;
      max = display_max d;
      unit_suffix = suffix measure;
      binary_scaled = is_binary_scaled measure;
      history = map (λ p. p.value) (history_vec store d.id);
      severity = severity_of measure newest.value (display_max d);
    }))

  abbrev pub is_headline : SeriesDescriptor F → Bool
  is_headline d = contains headline d.metric

  -- `host_gauges`: `sort_by_key` on the position in `HEADLINE`.
  unfoldable pub host_gauges : LiveStore F → EntityId → List (MetricGauge F)
  unfolding series_for filter filter_map gauge_from rank_in sort_with any
  host_gauges store host =
      sort_with (λ a b. leb (rank_in headline a.metric) (rank_in headline b.metric))
        (filter_map (gauge_from store) (filter is_headline (series_for store host)))

  -- `groups.iter_mut().find(…)` and the match on it.
  unfoldable pub add_to_group : Text → MetricGauge F → List (DetailGroup F) → List (DetailGroup F)
  add_to_group title g [] = record { title = title; gauges = g ∷ [] } ∷ []
  add_to_group title g (group ∷ rest) =
      let later = add_to_group title g rest in
      if text_eq group.title title
      then record group { gauges = group.gauges ++ g ∷ [] } ∷ rest
      else group ∷ later

  -- The title and the gauge of a descriptor that the loop does not skip.
  unfoldable pub detail_of : LiveStore F → SeriesDescriptor F → Option (Text × MetricGauge F)
  unfolding group_title gauge_from any
  detail_of store d =
      if is_headline d
      then none
      else (do title ← group_title d.source; g ← gauge_from store d; some (title, g))

  unfoldable pub group_details :
      LiveStore F → List (SeriesDescriptor F) → List (DetailGroup F) → List (DetailGroup F)
  unfolding detail_of add_to_group
  group_details store [] groups = groups
  group_details store (d ∷ ds) groups = elim (detail_of store d) [
    | none ↦ group_details store ds groups
    | some tg ↦ group_details store ds (add_to_group (tg.0) (tg.1) groups)
  ]

  -- The order of the gauges: by rank, then by metric.
  abbrev pub detail_le : MetricGauge F → MetricGauge F → Bool
  detail_le a b =
      let ra = detail_rank a.metric in
      let rb = detail_rank b.metric in ltb ra rb || (ra == rb && text_le a.metric b.metric)

  -- The rank of a group's first gauge.
  unfoldable pub group_rank : List (MetricGauge F) → ℕ
  unfolding detail_rank
  group_rank [] = 2 ^ 64 - 1
  group_rank (g ∷ gs) = detail_rank g.metric

  unfoldable pub sort_group : DetailGroup F → DetailGroup F
  unfolding sort_with text_le detail_rank
  sort_group group = record group { gauges = sort_with detail_le group.gauges }

  unfoldable pub host_details : LiveStore F → EntityId → List (DetailGroup F)
  unfolding series_for group_details sort_group sort_with group_rank
  host_details store host =
      sort_with (λ a b. leb (group_rank a.gauges) (group_rank b.gauges))
        (map sort_group (group_details store (series_for store host) []))

-- ===== src/Tests/Collect.antt =====
-- The built-in sources.
use server_glass.Base.{
  filter, ℕ, ◌+◌, ◌^◌, ◌%◌, ◌≡◌, refl, some, List, [], ◌∷◌, Text, codes, All, text_eq, get, map,
  filter_map, lines, arith, split_whitespace, parse_unsigned, as_bytes,
}
use server_glass.Base.Int.{pos}
use server_glass.Base.Search.{Lacks}
use server_glass.Model.Request.{Responses, is_ok, request_id, text_of, get_response}
use server_glass.Core.Collector.{Collector, collect}
use server_glass.Collect.Builtin.{builtin_sources}
use server_glass.Collect.Sound.Sinks.{ParsesSoundly, builtin_sources-ParsesSoundly}
use server_glass.Collect.Sound.Ticks.{IsPlaced, collect-builtin}
use server_glass.Collect.Memory.{meminfo_request, memory_writes, parse_meminfo}
use server_glass.Collect.Memory.Bounds.{Divided, memory_writes-Divided}
use server_glass.Collect.Process.{ProcessStat, process_table, parse_process, stat_row}
use server_glass.Collect.Process.Table.{IsTable, process_table-IsTable}
use server_glass.Collect.Process.Names.{stat_text, parse_process-stat_text}
use server_glass.Collect.Network.{InterfaceStats, host_rx, host_tx}
use server_glass.Collect.Network.Totals.{sum_of, is_traffic, host_totals_lem}
use server_glass.Collect.DiskIo.{DiskStats, parent_device}
use server_glass.Collect.DiskIo.Parents.{IsParent, parent_device-IsParent}
use server_glass.Collect.Cgroup.{parse_cgroups}
use server_glass.Collect.Cgroup.Sweep.{header, parse_cgroups-paths}
use server_glass.Collect.Cpu.{CpuTimes, breakdown, busy, total}
use server_glass.Collect.Cpu.Parts.{ticks_sum, breakdown-ticks_sum}
use server_glass.Core.Collector.{entity_ids}
use server_glass.Tests.Data.{whole, ctx, host}

abbrev meminfo : Text
meminfo = codes "MemTotal: 8 kB\nMemAvailable: 3 kB\n"

-- /proc/meminfo is the only file that was read.
abbrev answers : Responses
answers = (request_id meminfo_request, record { exit_code = pos 0; body = meminfo }) ∷ []

builtin_sources-ParsesSoundly_example :
    All (ParsesSoundly ctx answers (pos 1000)) (builtin_sources {F = ℕ})
builtin_sources-ParsesSoundly_example = builtin_sources-ParsesSoundly ℕ ctx answers (pos 1000)

abbrev builtin : Collector ℕ
builtin = record { sources = builtin_sources; disabled = []; rate = record { previous = [] } }

collect-builtin_example :
    ((collect builtin ctx answers (pos 1000)).1.errors ≡ [])
    × All
        (IsPlaced (host.id ∷ entity_ids (collect builtin ctx answers (pos 1000)).1))
        (collect builtin ctx answers (pos 1000)).1.descriptors
collect-builtin_example = collect-builtin builtin ctx answers (pos 1000) refl

meminfo_read : text_of answers meminfo_request ≡ some meminfo
unfolding text_of get_response get request_id is_ok text_eq as_bytes
meminfo_read = refl

meminfo_total : get (codes "MemTotal") (parse_meminfo meminfo) ≡ some 8192
unfolding parse_meminfo get parse_unsigned text_eq
meminfo_total = refl

memory_writes-Divided_example : Divided {F = ℕ} (memory_writes ctx answers) 8192
memory_writes-Divided_example =
    memory_writes-Divided ctx answers meminfo 8192 meminfo_read meminfo_total (omega arith)

abbrev process_of : ℕ → ℕ → ProcessStat
process_of pid rss = record {
  pid = pid;
  comm = codes "sh";
  state = b'S';
  cpu_ticks = 1;
  rss_pages = rss;
}

abbrev processes : List ProcessStat
processes = process_of 1 4 ∷ process_of 2 0 ∷ process_of 3 9 ∷ []

process_table-IsTable_example : IsTable processes (process_table processes)
process_table-IsTable_example = process_table-IsTable processes

row_fields_lack : Lacks b')' (codes " S 1")
row_fields_lack = (
  (λ e. ground (arith, e)),
  ((λ e. ground (arith, e)), ((λ e. ground (arith, e)), ((λ e. ground (arith, e)), tt))),
)

parse_process-stat_text_example :
    parse_process (stat_text 7 (codes "a) b (") (codes " S 1"))
    ≡ some (stat_row 7 (codes "a) b (") (split_whitespace (codes " S 1")))
parse_process-stat_text_example =
    parse_process-stat_text 7 (codes "a) b (") (codes " S 1") (omega arith) row_fields_lack

abbrev interface_of : Text → ℕ → InterfaceStats
interface_of name rx = record {
  name = name;
  rx_bytes = rx;
  rx_packets = 1;
  rx_errors = 0;
  rx_dropped = 0;
  tx_bytes = 2;
  tx_packets = 1;
  tx_errors = 0;
  tx_dropped = 0;
}

abbrev interfaces : List InterfaceStats
interfaces = interface_of (codes "lo") 5 ∷ interface_of (codes "eth0") 7 ∷ []

host_totals_lem_example :
    (host_rx (codes "eth0" ∷ []) interfaces
      ≡ sum_of (λ i. i.rx_bytes) (filter (is_traffic (codes "eth0" ∷ [])) interfaces) % 2 ^ 64)
    × (host_tx (codes "eth0" ∷ []) interfaces
        ≡ sum_of (λ i. i.tx_bytes) (filter (is_traffic (codes "eth0" ∷ [])) interfaces) % 2 ^ 64)
host_totals_lem_example = host_totals_lem (codes "eth0" ∷ []) interfaces

abbrev disk_of : Text → DiskStats
disk_of name = record {
  name = name;
  reads = 1;
  read_sectors = 1;
  read_ms = 1;
  writes = 1;
  write_sectors = 1;
  write_ms = 1;
  io_in_progress = 0;
  io_ms = 1;
}

abbrev disks : List DiskStats
disks = disk_of (codes "sda") ∷ disk_of (codes "nvme0n1") ∷ []

parent_device-IsParent_example :
    IsParent (codes "nvme0n1p2") disks (parent_device (codes "nvme0n1p2") disks)
parent_device-IsParent_example = parent_device-IsParent (codes "nvme0n1p2") disks

abbrev sweep : Text
sweep = codes "#/a\nusage_usec 4\n#/b\n"

parse_cgroups-paths_example :
    map (λ c. c.path) (parse_cgroups sweep) ≡ filter_map header (lines sweep)
parse_cgroups-paths_example = parse_cgroups-paths sweep

abbrev times : CpuTimes
times = record {
  user = 3;
  nice = 1;
  system = 2;
  idle = 9;
  iowait = 4;
  irq = 1;
  softirq = 0;
  steal = 5;
}

breakdown-ticks_sum_example :
    (ticks_sum (breakdown times) % 2 ^ 64 ≡ (busy times + times.iowait) % 2 ^ 64)
    × ((ticks_sum (breakdown times) + times.idle) % 2 ^ 64 ≡ total times)
breakdown-ticks_sum_example = breakdown-ticks_sum times

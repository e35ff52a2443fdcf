-- ===== src/Transport/Probe.antt =====
-- crates/sg-transport/src/probe.rs: what a host is found to have, from one batch of requests.
pub mod Listed
use server_glass.Base.{
  ℕ, ◌%◌, ◌^◌, ◌-◌, Bool, true, false, Option, none, some, Text, codes, List, [], ◌∷◌, ◌++◌, join,
  lines, trim, trim_matches, strip_prefix, find_split, is_some, is_digit, parse_unsigned, unwrap_or,
  filter, map, length, if◌then◌else◌, ◌>>=◌,
}
use server_glass.Model.Caps.{
  Capabilities, Coreutils, gnu, busybox, unknown, CgroupVersion, v1, v2, has, has_path,
}
use server_glass.Model.Request.{Request, read_file, exec, Responses, text_of}

-- `PROBED_BINARIES`
abbrev pub probed_binaries : List Text
probed_binaries =
    codes "busybox"
    ∷ codes "docker"
    ∷ codes "podman"
    ∷ codes "kubectl"
    ∷ codes "nvidia-smi"
    ∷ codes "rocm-smi"
    ∷ codes "smartctl"
    ∷ codes "zpool"
    ∷ codes "mdadm"
    ∷ codes "systemctl"
    ∷ codes "journalctl"
    ∷ codes "ss"
    ∷ codes "ip"
    ∷ codes "lsblk"
    ∷ codes "virsh"
    ∷ codes "qm"
    ∷ codes "upsc"
    ∷ codes "sensors"
    ∷ codes "fail2ban-client"
    ∷ codes "nft"
    ∷ codes "iptables"
    ∷ []

-- `PROBED_PATHS`
abbrev pub probed_paths : List Text
probed_paths =
    codes "/proc/stat"
    ∷ codes "/proc/meminfo"
    ∷ codes "/proc/loadavg"
    ∷ codes "/proc/uptime"
    ∷ codes "/proc/net/dev"
    ∷ codes "/proc/net/snmp"
    ∷ codes "/proc/net/sockstat"
    ∷ codes "/proc/diskstats"
    ∷ codes "/proc/mounts"
    ∷ codes "/proc/pressure/cpu"
    ∷ codes "/sys/class/hwmon"
    ∷ codes "/sys/class/thermal"
    ∷ codes "/sys/block"
    ∷ codes "/sys/fs/cgroup/cgroup.controllers"
    ∷ codes "/sys/fs/cgroup/cpu"
    ∷ []

abbrev pub kernel_request : Request
kernel_request = exec (codes "uname" ∷ codes "-r" ∷ [])

abbrev pub arch_request : Request
arch_request = exec (codes "uname" ∷ codes "-m" ∷ [])

abbrev pub hostname_request : Request
hostname_request = exec (codes "uname" ∷ codes "-n" ∷ [])

abbrev pub os_release_request : Request
os_release_request = read_file (codes "/etc/os-release")

abbrev pub clock_ticks_request : Request
clock_ticks_request = exec (codes "getconf" ∷ codes "CLK_TCK" ∷ [])

abbrev pub page_size_request : Request
page_size_request = exec (codes "getconf" ∷ codes "PAGESIZE" ∷ [])

abbrev pub stat_request : Request
stat_request = read_file (codes "/proc/stat")

abbrev pub coreutils_request : Request
coreutils_request = exec (codes "ls" ∷ codes "--version" ∷ [])

unfoldable pub binaries_request : Request
unfolding join
binaries_request = exec (
    codes "sh"
    ∷ codes "-c"
    ∷ (codes "for b in "
        ++ join (codes " ") probed_binaries
        ++ codes "; do command -v \"$b\" >/dev/null 2>&1 && echo \"$b\"; done; exit 0")
    ∷ [])

unfoldable pub paths_request : Request
unfolding join
paths_request = exec (
    codes "sh"
    ∷ codes "-c"
    ∷ (codes "for p in "
        ++ join (codes " ") probed_paths
        ++ codes "; do [ -r \"$p\" ] && echo \"$p\"; done; exit 0")
    ∷ [])

-- `requests`
unfoldable pub probe_requests : List Request
unfolding binaries_request paths_request
probe_requests =
    kernel_request ∷ arch_request ∷ hostname_request ∷ os_release_request ∷ clock_ticks_request
    ∷ page_size_request ∷ stat_request ∷ coreutils_request ∷ binaries_request ∷ paths_request ∷ []

abbrev pub is_filled : Text → Bool
is_filled [] = false
is_filled (c ∷ s) = true

abbrev pub when_filled : Text → Option Text
when_filled s = if is_filled s then some s else none

-- The closure `line`.
unfoldable pub probe_line : Responses → Request → Option Text
unfolding trim text_of
probe_line rs r = do t ← text_of rs r; when_filled (trim t)

-- `find_map` over the lines of os-release.
unfoldable pub pretty_name_in : List Text → Option Text
unfolding strip_prefix trim trim_matches
pretty_name_in [] = none
pretty_name_in (l ∷ ls) = elim (strip_prefix (codes "PRETTY_NAME=") l) [
  | none ↦ pretty_name_in ls
  | some value ↦ some (trim_matches b'"' (trim value))
]

unfoldable pub parse_pretty_name : Text → Option Text
unfolding pretty_name_in lines
parse_pretty_name os_release = pretty_name_in (lines os_release)

-- A line `cpuN`: the byte behind `cpu` is a digit.
unfoldable pub is_cpu_line : Text → Bool
unfolding strip_prefix is_digit
is_cpu_line l = elim (strip_prefix (codes "cpu") l) [
  | none ↦ false
  | some rest ↦ elim rest [ [] ↦ false | c ∷ s ↦ is_digit c ]
]

unfoldable pub count_cpus : Text → ℕ
unfolding is_cpu_line lines
count_cpus stat = length (filter is_cpu_line (lines stat)) % 2 ^ 32

-- The non-empty lines of a listing, trimmed.
unfoldable pub listed : Text → List Text
unfolding lines trim
listed t = filter is_filled (map trim (lines t))

abbrev pub u64_max : ℕ
u64_max = 2 ^ 64 - 1

-- The match that sets `caps.coreutils`.
unfoldable pub coreutils_of : Option Text → Capabilities → Coreutils
unfolding find_split has
coreutils_of (some text) caps =
    if is_some (find_split (codes "GNU coreutils") text)
    then gnu
    else if has caps (codes "busybox")
    then busybox
    else unknown
coreutils_of none caps = if has caps (codes "busybox") then busybox else unknown

unfoldable pub cgroup_of : Capabilities → CgroupVersion
unfolding has_path
cgroup_of caps =
    if has_path caps (codes "/sys/fs/cgroup/cgroup.controllers")
    then v2
    else if has_path caps (codes "/sys/fs/cgroup/cpu")
    then v1
    else unknown

-- What the batch says before the two kinds are told apart.
unfoldable pub parse_fields : Responses → Capabilities
unfolding probe_line text_of parse_pretty_name parse_unsigned count_cpus listed binaries_request
    paths_request
parse_fields rs = record {
  kernel = unwrap_or [] (probe_line rs kernel_request);
  distro = unwrap_or [] (text_of rs os_release_request >>= parse_pretty_name);
  arch = unwrap_or [] (probe_line rs arch_request);
  hostname = unwrap_or [] (probe_line rs hostname_request);
  coreutils = unknown;
  cgroup = unknown;
  cpu_count = unwrap_or 0 (text_of rs stat_request >>= (λ t. some (count_cpus t)));
  clock_ticks = unwrap_or 100 (probe_line rs clock_ticks_request >>= parse_unsigned u64_max);
  page_size = unwrap_or 4096 (probe_line rs page_size_request >>= parse_unsigned u64_max);
  binaries = unwrap_or [] (text_of rs binaries_request >>= (λ t. some (listed t)));
  paths = unwrap_or [] (text_of rs paths_request >>= (λ t. some (listed t)));
}

-- `parse`
unfoldable pub parse_probe : Responses → Capabilities
unfolding parse_fields coreutils_of cgroup_of
parse_probe rs =
    let caps = parse_fields rs in
    record caps {
      coreutils = coreutils_of (text_of rs coreutils_request) caps;
      cgroup = cgroup_of caps;
    }

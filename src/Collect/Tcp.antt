-- ===== src/Collect/Tcp.antt =====
-- crates/sg-collect/src/tcp.rs: sockets and TCP segments.
use server_glass.Base.{
  ℕ, ◌^◌, ◌-◌, true, Option, none, some, List, [], ◌∷◌, ◌++◌, Text, codes, split_whitespace,
  split_once, parse_u64, parse_signed, unwrap_or, ◌==◌, ◌>>=◌, lines, Map, get, insert, trim, pairs,
  zip,
}
use server_glass.Base.Int.{ℤ, pos, negsuc}
use server_glass.Base.Float.{FloatOps}
use server_glass.Model.Measure.{count}
use server_glass.Model.Ids.{SourceId, EntityId}
use server_glass.Model.Entity.{host_kind}
use server_glass.Model.Caps.{needs_path}
use server_glass.Model.Request.{Request, read_file, Responses, text_of}
use server_glass.Model.Series.{gauge, counter, uint, int}
use server_glass.Model.Source.{Source, SourceDescriptor, TargetCtx}
use server_glass.Collect.Writes.{Write, emitted, when_some, for_each, writing_source}

-- The loop over the name and value pairs of a line.
unfoldable pub insert_fields : List (Text × Text) → Map ℕ → Map ℕ
unfolding insert
insert_fields [] entry = entry
insert_fields ((name, value) ∷ ps) entry = elim (parse_u64 value) [
  | none ↦ insert_fields ps entry
  | some v ↦ insert_fields ps (insert name v entry)
]

unfoldable pub sockstat_of : List Text → Map (Map ℕ) → Map (Map ℕ)
unfolding insert_fields insert get split_once trim pairs split_whitespace
sockstat_of [] out = out
sockstat_of (l ∷ ls) out = elim (split_once (λ c. c == b':') l) [
  | none ↦ sockstat_of ls out
  | some kv ↦
      let proto = trim (kv.0) in
      sockstat_of ls (
        insert proto
          (insert_fields (pairs (split_whitespace (kv.1))) (unwrap_or [] (get proto out))) out)
]

unfoldable pub parse_sockstat : Text → Map (Map ℕ)
unfolding sockstat_of lines
parse_sockstat text = sockstat_of (lines text) []

-- `parse::<i64>()`
abbrev pub parse_i64 : Text → Option ℤ
parse_i64 = parse_signed (2 ^ 63 - 1)

unfoldable pub insert_columns : List (Text × Text) → Map ℤ → Map ℤ
unfolding insert
insert_columns [] entry = entry
insert_columns ((name, value) ∷ ps) entry = elim (parse_i64 value) [
  | none ↦ insert_columns ps entry
  | some v ↦ insert_columns ps (insert name v entry)
]

-- The loop over the lines: the names of a protocol's columns, then its values.
unfoldable pub snmp_of : List Text → Map (List Text) → Map (Map ℤ) → Map (Map ℤ)
unfolding insert_columns insert get split_once trim zip split_whitespace
snmp_of [] headers out = out
snmp_of (l ∷ ls) headers out = elim (split_once (λ c. c == b':') l) [
  | none ↦ snmp_of ls headers out
  | some kv ↦
      let proto = trim (kv.0) in
      let fields = split_whitespace (kv.1) in
      elim (get proto headers) [
        | none ↦ snmp_of ls (insert proto fields headers) out
        | some names ↦
            snmp_of ls headers
              (insert proto (insert_columns (zip names fields) (unwrap_or [] (get proto out))) out)
      ]
]

unfoldable pub parse_snmp : Text → Map (Map ℤ)
unfolding snmp_of lines
parse_snmp text = snmp_of (lines text) [] []

unfoldable pub tcp_descriptor : SourceDescriptor
unfolding needs_path
tcp_descriptor = record {
  id = codes "proc.tcp";
  display = codes "Sockets & TCP";
  description = codes "Socket counts, established connections and TCP segment rates";
  produces = host_kind ∷ [];
  requires = needs_path (codes "/proc/net/sockstat");
  default_enabled = true;
}

abbrev pub sockstat_request : Request
sockstat_request = read_file (codes "/proc/net/sockstat")

abbrev pub snmp_request : Request
snmp_request = read_file (codes "/proc/net/snmp")

-- `u64::try_from` of an `i64`
abbrev pub unsigned_of : ℤ → Option ℕ
unsigned_of (pos n) = some n
unsigned_of (negsuc n) = none

module _ {F : Type 0} ⦃fl : FloatOps F⦄ where
  unfoldable pub sockstat_writes : SourceId → EntityId → Map (Map ℕ) → List (Write F)
  unfolding gauge get
  sockstat_writes id host sockstat =
      when_some (get (codes "sockets") sockstat >>= get (codes "used"))
        (λ used. emitted (gauge id host (codes "sockets") (codes "Sockets") count) (uint used) ∷ [])
      ++ for_each
          ((codes "TCP", codes "inuse", codes "tcp_inuse", codes "TCP in use")
            ∷ (codes "TCP", codes "tw", codes "tcp_timewait", codes "TCP time-wait")
            ∷ (codes "TCP", codes "orphan", codes "tcp_orphan", codes "TCP orphaned")
            ∷ (codes "UDP", codes "inuse", codes "udp_inuse", codes "UDP in use")
            ∷ [])
          (λ (proto, field, metric, display).
            when_some (get proto sockstat >>= get field)
              (λ value. emitted (gauge id host metric display count) (uint value) ∷ []))

  unfoldable pub snmp_writes : SourceId → EntityId → Map (Map ℤ) → List (Write F)
  unfolding gauge counter get
  snmp_writes id host snmp = when_some (get (codes "Tcp") snmp) (λ tcp.
      when_some (get (codes "CurrEstab") tcp) (λ established.
        emitted (gauge id host (codes "tcp_established") (codes "Established") count)
          (int established)
        ∷ [])
      ++ for_each
          ((codes "InSegs", codes "tcp_in_segs", codes "Segments in")
            ∷ (codes "OutSegs", codes "tcp_out_segs", codes "Segments out")
            ∷ (codes "RetransSegs", codes "tcp_retrans", codes "Retransmits")
            ∷ (codes "ActiveOpens", codes "tcp_active_opens", codes "Active opens")
            ∷ (codes "PassiveOpens", codes "tcp_passive_opens", codes "Passive opens")
            ∷ [])
          (λ (field, metric, display).
            when_some (get field tcp >>= unsigned_of)
              (λ value. emitted (counter id host metric display count) (uint value) ∷ [])))

  unfoldable pub tcp_writes : TargetCtx → Responses → List (Write F)
  unfolding tcp_descriptor text_of parse_sockstat parse_snmp sockstat_writes snmp_writes
  tcp_writes ctx rs =
      let id = tcp_descriptor.id in
      let host = ctx.host.id in
      when_some (text_of rs sockstat_request)
        (λ text. sockstat_writes id host (parse_sockstat text))
      ++ when_some (text_of rs snmp_request) (λ text. snmp_writes id host (parse_snmp text))

  unfoldable pub tcp_source : Source F
  unfolding writing_source tcp_descriptor tcp_writes
  tcp_source =
      writing_source tcp_descriptor (λ ctx. sockstat_request ∷ snmp_request ∷ []) tcp_writes

-- ===== src/Tests/Data.antt =====
-- Values that the tests share: numbers in place of `f64`, and a host with one counter and one gauge.
use server_glass.Base.{
  ℕ, ◌+◌, ◌-◌, ◌*◌, ◌/◌, ◌^◌, max, min, show_nat, true, Option, none, some, Text, codes, List, [],
  ◌∷◌, ltb, leb, ◌==◌, inl, inr,
}
use server_glass.Base.Int.{ℤ, pos, negsuc}
use server_glass.Base.Float.{FloatOps}
use server_glass.Model.Measure.{bytes, percent}
use server_glass.Model.Series.{SeriesDescriptor, counter_kind, gauge_kind, uint, float}
use server_glass.Model.Entity.{Entity, host_kind}
use server_glass.Model.Caps.{Capabilities, gnu, v2}
use server_glass.Model.Request.{exec}
use server_glass.Model.Sample.{Sample}
use server_glass.Model.Source.{Source, TargetCtx, ParseError}
use server_glass.Core.Collector.{Collector}
use server_glass.Core.Runtime.{Network}
use server_glass.Core.Store.{LiveStore}
use server_glass.Transport.Error.{closed}

abbrev pub nat_of : ℤ → ℕ
nat_of (pos n) = n
nat_of (negsuc n) = 0

-- A decimal number, rounded down.
abbrev scaled : ℕ → ℤ → ℕ
scaled m (pos e) = m * 10 ^ e
scaled m (negsuc e) = m / 10 ^ (e + 1)

-- Whole numbers, rounded down.
instance abbrev pub whole : FloatOps ℕ
whole = record {
  of_nat = λ n. n;
  of_int = nat_of;
  add = λ a b. a + b;
  sub = λ a b. a - b;
  mul = λ a b. a * b;
  div = λ a b. a / b;
  lt = ltb;
  le = leb;
  eq = λ a b. a == b;
  is_finite = λ n. true;
  of_decimal = λ b m e. scaled m e;
  infinity = λ b. 0;
  nan = 0;
  abs = λ n. n;
  neg = λ n. n;
  greater = max;
  lesser = min;
  fract = λ n. 0;
  lowest = 0;
  highest = 2 ^ 64;
  to_u64 = λ n. n;
  show_fixed = λ k n. show_nat n;
}

abbrev pub rx : Text
rx = codes "rx"

abbrev pub load : Text
load = codes "load"

abbrev pub host_id : Text
host_id = codes "host"

abbrev pub rx_series : SeriesDescriptor ℕ
rx_series = record {
  id = rx;
  source = codes "net";
  entity = host_id;
  metric = rx;
  display = rx;
  measure = bytes;
  kind = counter_kind;
  max = none;
  scale = 1;
  labels = [];
}

abbrev pub load_series : SeriesDescriptor ℕ
load_series = record {
  id = load;
  source = codes "load";
  entity = host_id;
  metric = load;
  display = load;
  measure = percent;
  kind = gauge_kind;
  max = none;
  scale = 1;
  labels = [];
}

abbrev pub described_series : List (SeriesDescriptor ℕ)
described_series = rx_series ∷ load_series ∷ []

abbrev pub rx_at : ℕ → ℕ → Sample ℕ
rx_at t n = record { series = rx; at_ms = pos t; value = uint n }

abbrev pub load_at : ℕ → ℕ → Sample ℕ
load_at t n = record { series = load; at_ms = pos t; value = float n }

abbrev pub host : Entity
host = record { id = host_id; kind = host_kind; display = codes "web"; parent = none; labels = [] }

abbrev pub caps : Capabilities
caps = record {
  kernel = codes "6.1";
  distro = codes "Debian";
  arch = codes "x86_64";
  hostname = codes "web";
  coreutils = gnu;
  cgroup = v2;
  cpu_count = 4;
  clock_ticks = 100;
  page_size = 4096;
  binaries = [];
  paths = [];
}

abbrev pub ctx : TargetCtx
ctx = record { target = codes "t"; host = host; caps = caps; interval_ms = 1000 }

-- A source that asks for one command and reports `out` or an error.
abbrev pub source_of : Text → Option ParseError → List (Sample ℕ) → Source ℕ
source_of name error samples = record {
  descriptor = record {
    id = name;
    display = name;
    description = [];
    produces = [];
    requires = record { binaries = []; paths = [] };
    default_enabled = true;
  };
  requests = λ c. exec (codes "cat" ∷ name ∷ []) ∷ exec (codes "uptime" ∷ []) ∷ [];
  parse = λ c rs sink. (
    error,
    record sink { entities = host ∷ []; descriptors = described_series; samples = samples },
  );
}

abbrev pub good_source : Source ℕ
good_source = source_of (codes "good") none (load_at 1 7 ∷ [])

abbrev pub bad_source : Source ℕ
bad_source =
    source_of (codes "bad") (some (record { source = codes "bad"; detail = codes "no number" }))
      (load_at 1 9 ∷ [])

abbrev pub sources : List (Source ℕ)
sources = good_source ∷ bad_source ∷ []

abbrev pub both : Collector ℕ
both = record { sources = sources; disabled = []; rate = record { previous = [] } }

-- A network that connects and answers every batch with nothing, and one that drops each batch.
abbrev pub answering : Network ℕ
answering = record {
  connect = inr 1;
  batch = λ s qs. (s + 1, inr []);
  message = λ e. codes "error";
}

abbrev pub dropping : Network ℕ
dropping = record {
  connect = inr 1;
  batch = λ s qs. (s + 1, inl closed);
  message = λ e. codes "error";
}

abbrev pub store : LiveStore ℕ
store = record {
  window = 2;
  history =
      (load, record { at_ms = pos 1; value = 4 } ∷ record { at_ms = pos 2; value = 5 } ∷ []) ∷ [];
  descriptors = (load, load_series) ∷ [];
  entities = (host_id, host) ∷ [];
  texts = [];
}

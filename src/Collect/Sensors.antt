-- ===== src/Collect/Sensors.antt =====
-- crates/sg-collect/src/sensors.rs: temperatures, fan speeds and power from sysfs.
use server_glass.Base.{
  true, false, Bool, ◌&&◌, Option, none, some, List, [], ◌∷◌, ◌++◌, Text, codes, split_on,
  parse_float, unwrap_or, get_elem?, ◌>>=◌, lines, if◌then◌else◌, trim, strip_prefix, starts_with,
  is_empty, any, filter, map,
}
use server_glass.Base.Float.{FloatOps}
use server_glass.Model.Measure.{MeasureUnit, celsius, rpm, watts}
use server_glass.Model.Ids.{SourceId}
use server_glass.Model.Entity.{sensor, child_entity, label_entity, Entity}
use server_glass.Model.Caps.{needs_path, contains}
use server_glass.Model.Request.{Request, exec, Responses, text_of}
use server_glass.Model.Series.{gauge, float}
use server_glass.Model.Source.{Source, SourceDescriptor, TargetCtx}
use server_glass.Collect.Writes.{
  Write, emitted, declared, when_some, for_each, with_limit, writing_source,
}

pub record Reading (F : Type 0) : Type 0 where
  pub chip : Text
  pub key : Text
  pub label : Text
  pub value : F
  pub critical : Option F

pub data Quantity : Type 0 where
  temperature fan power : Quantity

-- `Quantity::unit` and `Quantity::metric`
unfoldable pub quantity_unit : Quantity → MeasureUnit
quantity_unit temperature = celsius
quantity_unit fan = rpm
quantity_unit power = watts

unfoldable pub quantity_metric : Quantity → Text
quantity_metric temperature = codes "temp"
quantity_metric fan = codes "fan"
quantity_metric power = codes "power"

-- `Reading::quantity`, by the key.
unfoldable pub quantity_of : Text → Quantity
unfolding starts_with
quantity_of key =
    if starts_with (codes "temp") key
    then temperature
    else if starts_with (codes "fan") key
    then fan
    else power

abbrev is_temperature : Quantity → Bool
is_temperature temperature = true
is_temperature _ = false

abbrev pub cpu_chips : List Text
cpu_chips =
    codes "coretemp"
    ∷ codes "k10temp"
    ∷ codes "k8temp"
    ∷ codes "zenpower"
    ∷ codes "cpu_thermal"
    ∷ codes "x86_pkg_temp"
    ∷ []

-- `SENSORS_ARGV`
abbrev pub sensors_argv : List Text
sensors_argv =
    codes "sh"
    ∷ codes "-c"
    ∷ (codes "for d in /sys/class/hwmon/hwmon*; do "
        ++ codes "[ -d \"$d\" ] || continue; "
        ++ codes "printf '#|%s\\n' \"$(cat \"$d/name\" 2>/dev/null)\"; "
        ++ codes "for f in \"$d\"/temp*_input \"$d\"/fan*_input \"$d\"/power*_input; do "
        ++ codes "[ -f \"$f\" ] || continue; "
        ++ codes "b=${f##*/}; b=${b%_input}; "
        ++ codes "printf '%s|%s|%s|%s\\n' \"$b\" \"$(cat \"$f\" 2>/dev/null)\" "
        ++ codes
            "\"$(cat \"$d/${b}_crit\" 2>/dev/null)\" \"$(cat \"$d/${b}_label\" 2>/dev/null)\"; "
        ++ codes "done; done; "
        ++ codes "for z in /sys/class/thermal/thermal_zone*; do "
        ++ codes "[ -d \"$z\" ] || continue; "
        ++ codes "printf '#|%s\\n' \"$(cat \"$z/type\" 2>/dev/null)\"; "
        ++ codes "printf 'temp|%s||\\n' \"$(cat \"$z/temp\" 2>/dev/null)\"; "
        ++ codes "done; exit 0")
    ∷ []

unfoldable pub sensors_descriptor : SourceDescriptor
unfolding needs_path
sensors_descriptor = record {
  id = codes "sys.sensors";
  display = codes "Sensors";
  description = codes "Temperatures, fan speeds and power draw, straight from sysfs";
  produces = sensor ∷ [];
  requires = needs_path (codes "/sys/class/hwmon");
  default_enabled = true;
}

abbrev pub sensors_request : Request
sensors_request = exec sensors_argv

module _ {F : Type 0} where
  unfoldable pub display_of : Reading F → Text
  display_of r = if is_empty r.label then r.chip ++ (codes " " ++ r.key) else r.label

  unfoldable pub is_cpu_temperature : Reading F → Bool
  unfolding quantity_of any
  is_cpu_temperature r = is_temperature (quantity_of r.key) && contains cpu_chips r.chip

module _ {F : Type 0} ⦃fl : FloatOps F⦄ where
  -- The match on the quantity: from the unit of sysfs to that of the series.
  unfoldable pub convert : Quantity → F → Option F → F × Option F
  convert temperature raw critical =
      (fl.div raw (fl.of_nat 1000), critical >>= λ c. some (fl.div c (fl.of_nat 1000)))
  convert power raw critical = (fl.div raw (fl.of_nat 1000000), none)
  convert fan raw critical = (raw, none)

  -- A line of the chip, split at `|`; `none` where the loop continues or drops the reading.
  unfoldable pub parse_reading : Text → List Text → Option (Reading F)
  unfolding get_elem? trim parse_float convert quantity_of
  parse_reading chip fields = do
    key ← get_elem? fields 0
    column ← get_elem? fields 1
    raw ← parse_float (trim column)
    let critical = get_elem? fields 2 >>= λ c. parse_float (trim c)
    let label = trim (unwrap_or [] (get_elem? fields 3))
    let converted = convert (quantity_of (trim key)) raw critical
    (if fl.lt (fl.of_nat 0) (converted.0)
        then some (record {
          chip = chip;
          key = trim key;
          label = label;
          value = converted.0;
          critical = converted.1;
        })
        else none)

  -- The loop over the lines, with the chip that the readings belong to.
  unfoldable pub readings_of : Text → List Text → List (Reading F)
  unfolding strip_prefix trim parse_reading split_on
  readings_of chip [] = []
  readings_of chip (l ∷ ls) = elim (strip_prefix (codes "#|") l) [
    | some name ↦ readings_of (trim name) ls
    | none ↦
        let rest = readings_of chip ls in
        if is_empty chip
        then rest
        else (elim (parse_reading chip (split_on b'|' l)) [ none ↦ rest | some r ↦ r ∷ rest ])
  ]

  unfoldable pub parse_sensors : Text → List (Reading F)
  unfolding readings_of lines
  parse_sensors text = readings_of [] (lines text)

  -- `max_by` on `partial_cmp`: a later value replaces the one held unless it is smaller.
  unfoldable pub hottest : F → List F → F
  hottest x [] = x
  hottest x (y ∷ ys) = hottest (if fl.lt y x then x else y) ys

  unfoldable pub cpu_temperature : List (Reading F) → Option F
  unfolding hottest filter is_cpu_temperature
  cpu_temperature rs = elim (map (λ r. r.value) (filter is_cpu_temperature rs)) [
    | [] ↦ none
    | x ∷ xs ↦ some (hottest x xs)
  ]

  unfoldable pub reading_writes : SourceId → Entity → Reading F → List (Write F)
  unfolding quantity_of quantity_metric quantity_unit display_of child_entity label_entity gauge
  reading_writes id host r =
      let quantity = quantity_of r.key in
      let display = display_of r in
      let entity = label_entity (child_entity host sensor display) (codes "chip") r.chip in
      let series = gauge id entity.id (quantity_metric quantity) display (quantity_unit quantity) in
      emitted (with_limit r.critical series) (float r.value) ∷ declared entity ∷ []

  unfoldable pub sensors_writes_of : TargetCtx → List (Reading F) → List (Write F)
  unfolding sensors_descriptor cpu_temperature gauge reading_writes
  sensors_writes_of ctx readings =
      let id = sensors_descriptor.id in
      when_some (cpu_temperature readings) (λ hot.
        emitted (gauge id ctx.host.id (codes "cpu_temp") (codes "CPU temperature") celsius)
          (float hot)
        ∷ [])
      ++ for_each readings (reading_writes id ctx.host)

  unfoldable pub sensors_writes : TargetCtx → Responses → List (Write F)
  unfolding text_of parse_sensors sensors_writes_of
  sensors_writes ctx rs =
      when_some (text_of rs sensors_request) (λ text. sensors_writes_of ctx (parse_sensors text))

  unfoldable pub sensors_source : Source F
  unfolding writing_source sensors_descriptor sensors_writes
  sensors_source = writing_source sensors_descriptor (λ ctx. sensors_request ∷ []) sensors_writes

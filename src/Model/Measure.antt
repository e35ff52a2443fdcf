-- ===== src/Model/Measure.antt =====
-- crates/sg-model/src/unit.rs: the enum `Unit`, here `MeasureUnit`.
use server_glass.Base.{Bool, true, false, Option, none, some, Text, codes}
use server_glass.Base.Float.{FloatOps}

pub data MeasureUnit : Type 0 where
  percent ratio bytes bytes_per_second bits bits_per_second packets packets_per_second : MeasureUnit
  count count_per_second operations operations_per_second seconds milliseconds : MeasureUnit
  celsius watts volts amperes hertz rpm dimensionless : MeasureUnit

unfoldable pub per_second : MeasureUnit → MeasureUnit
per_second bytes = bytes_per_second
per_second bits = bits_per_second
per_second packets = packets_per_second
per_second count = count_per_second
per_second operations = operations_per_second
per_second other = other

unfoldable pub is_binary_scaled : MeasureUnit → Bool
is_binary_scaled bytes = true
is_binary_scaled bytes_per_second = true
is_binary_scaled _ = false

unfoldable pub suffix : MeasureUnit → Text
suffix percent = codes "%"
suffix ratio = codes ""
suffix bytes = codes "B"
suffix bytes_per_second = codes "B/s"
suffix bits = codes "b"
suffix bits_per_second = codes "b/s"
suffix packets = codes "pkt"
suffix packets_per_second = codes "pkt/s"
suffix count = codes ""
suffix count_per_second = codes "/s"
suffix operations = codes "IO"
suffix operations_per_second = codes "IO/s"
suffix seconds = codes "s"
suffix milliseconds = codes "ms"
suffix celsius = codes "°C"
suffix watts = codes "W"
suffix volts = codes "V"
suffix amperes = codes "A"
suffix hertz = codes "Hz"
suffix rpm = codes "rpm"
suffix dimensionless = codes ""

unfoldable pub natural_max : {F : Type 0} ⦃fl : FloatOps F⦄ → MeasureUnit → Option F
natural_max ⦃fl⦄ percent = some (fl.of_nat 100)
natural_max ⦃fl⦄ ratio = some (fl.of_nat 1)
natural_max ⦃fl⦄ _ = none

-- ===== src/Base/Float.antt =====
-- `f64` by its operations: the program's arithmetic on measured values is the same for every
-- choice of them. Constants such as `1000.0` are conversions of the number.
use mathlib.Core.Bool.{Bool}
use mathlib.Core.List.{List}
use Prim.Native.Nat.{ℕ}
use server_glass.Base.Int.{ℤ}

pub record FloatOps (F : Type 0) : Type 0 where
  -- `n as f64` of an unsigned and of a signed integer
  pub of_nat : ℕ → F
  pub of_int : ℤ → F
  pub add : F → F → F
  pub sub : F → F → F
  pub mul : F → F → F
  pub div : F → F → F
  -- `<`, `<=` and `==`, all false on a NaN
  pub lt : F → F → Bool
  pub le : F → F → Bool
  pub eq : F → F → Bool
  pub is_finite : F → Bool
  -- The number nearest to `m` times ten to the power of `e`, negated if the test holds.
  pub of_decimal : Bool → ℕ → ℤ → F
  pub infinity : Bool → F
  pub nan : F
  -- `abs`, `-x`, `max`, `min` and `fract` of `f64`
  pub abs : F → F
  pub neg : F → F
  pub greater : F → F → F
  pub lesser : F → F → F
  pub fract : F → F
  -- `f64::MIN` and `f64::MAX`
  pub lowest : F
  pub highest : F
  -- `as u64`, which saturates, and `{:.k}` for the number of digits `k`
  pub to_u64 : F → ℕ
  pub show_fixed : ℕ → F → List ℕ

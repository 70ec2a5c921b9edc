-- ===== src/Base/Float.antt =====
-- Go's float64, as a parameter: a type of numbers with the operations that the source applies.
use srne_inverter_to_mqtt.Base.Int.{ℤ}
use srne_inverter_to_mqtt.Base.{ℕ, String, Bool, Option}

pub record Float64 (Num : Type 0) : Type 0 where
  -- `float64(i)` and `int64(x)`
  pub of_ℤ : ℤ → Num
  pub to_ℤ : Num → ℤ
  -- a decimal constant, by numerator and decimals: `ratio 32 1` is 3.2
  pub ratio : ℕ → ℕ → Num
  pub add : Num → Num → Num
  pub sub : Num → Num → Num
  pub mul : Num → Num → Num
  pub div : Num → Num → Num
  pub round : Num → Num
  pub abs : Num → Num
  -- `<`, `<=` and `==`
  pub lt : Num → Num → Bool
  pub le : Num → Num → Bool
  pub eq : Num → Num → Bool
  -- `strconv.ParseFloat(s, 64)` and `strconv.FormatFloat(x, 'f', precision, 64)`
  pub parse : String → Option Num
  pub format : Num → ℕ → String

-- ===== src/Base/Whole.antt =====
-- Whole numbers in place of float64, for tests.
use srne_inverter_to_mqtt.Base.{ℕ, ◌+◌, ◌-◌, ◌*◌, ◌/◌, ◌^◌, none, ltb, leb, ◌==◌}
use srne_inverter_to_mqtt.Base.Int.{pos, pos_part}
use srne_inverter_to_mqtt.Base.Text.{decimal}
use srne_inverter_to_mqtt.Base.Float.{Float64}

abbrev pub whole_numbers : Float64 ℕ
whole_numbers = record {
  of_ℤ = λ z. pos_part z;
  to_ℤ = λ n. pos n;
  ratio = λ n d. n / 10 ^ d;
  add = λ a b. a + b;
  sub = λ a b. a - b;
  mul = λ a b. a * b;
  div = λ a b. a / b;
  round = λ a. a;
  abs = λ a. a;
  lt = ltb;
  le = leb;
  eq = λ a b. a == b;
  parse = λ s. none;
  format = λ a p. decimal a;
}

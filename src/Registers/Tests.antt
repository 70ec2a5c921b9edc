-- ===== src/Registers/Tests.antt =====
-- Runs of the register code on small inputs.
use srne_inverter_to_mqtt.Base.{ℕ, ◌≡◌, refl, false, String, List, [], ◌∷◌, All, ok, arith}
use srne_inverter_to_mqtt.Base.Int.{negsuc}
use mathlib.Core.List.{Perm}
use srne_inverter_to_mqtt.Registers.Types.{Register, uint16, int32, slow, high_low, low_high}
use srne_inverter_to_mqtt.Registers.Words.{
  words_from_bytes, words_of_bytes, raw_of_type, join_words32,
}
use srne_inverter_to_mqtt.Registers.WordsLaws.{
  bytes_of_words, words_from_bytes-bytes_of_words, Represents, raw_of_type-Represents,
}
use srne_inverter_to_mqtt.Registers.Plan.{
  build_read_plan, sort_by_address, insert_register, plan_of_sorted, merge_ranges, single_range,
  extend_range, range_end, register_end,
}
use srne_inverter_to_mqtt.Registers.PlanShape.{IsExact, Apart, registers_of}
use srne_inverter_to_mqtt.Registers.PlanLaws.{build_read_plan_lem}

-- A numeric register.
abbrev register_at : String → ℕ → ℕ → Register ℕ
register_at id address count = record {
  id = id;
  name = id;
  address = address;
  count = count;
  value_type = uint16;
  word_order = high_low;
  synthetic = false;
  raw_only = false;
  scale = 1;
  precision = 0;
  unit = "";
  device_class = "";
  state_class = "";
  icon = "";
  component = "sensor";
  group = slow;
  writable = false;
  write_only = false;
  entity = "";
  entity_category = "";
  enum = [];
  write_min = 0;
  write_max = 0;
  write_step = 0;
  button_class = "";
}

abbrev three_registers : List (Register ℕ)
three_registers =
    register_at "battery_soc" 0x0100 1
    ∷ register_at "pv_power" 0x0109 1
    ∷ register_at "battery_voltage" 0x0101 1
    ∷ []

two_ranges :
    build_read_plan three_registers
    ≡ record {
      start = 0x0100;
      count = 2;
      registers = register_at "battery_soc" 0x0100 1 ∷ register_at "battery_voltage" 0x0101 1 ∷ [];
    }
      ∷ record { start = 0x0109; count = 1; registers = register_at "pv_power" 0x0109 1 ∷ [] }
      ∷ []
unfolding build_read_plan sort_by_address insert_register plan_of_sorted merge_ranges single_range
    extend_range range_end register_end
two_ranges = refl

build_read_plan_lem_example :
    Perm (registers_of (build_read_plan three_registers)) three_registers
    × All IsExact (build_read_plan three_registers)
    × Apart (build_read_plan three_registers)
build_read_plan_lem_example = build_read_plan_lem three_registers (ground arith)

words_from_bytes-bytes_of_words_example :
    words_from_bytes (bytes_of_words (0x1234 ∷ 0xFF00 ∷ [])) 2 ≡ ok (0x1234 ∷ 0xFF00 ∷ [])
words_from_bytes-bytes_of_words_example =
    words_from_bytes-bytes_of_words (0x1234 ∷ 0xFF00 ∷ []) 2 (ground arith) (omega arith)

three_words : words_from_bytes (0 ∷ 1 ∷ 0 ∷ 2 ∷ 0 ∷ 3 ∷ []) 2 ≡ ok (1 ∷ 2 ∷ 3 ∷ [])
unfolding words_from_bytes words_of_bytes
three_words = refl

minus_two : raw_of_type "battery_power" low_high int32 (0xFFFE ∷ 0xFFFF ∷ []) ≡ ok (negsuc 1)
unfolding raw_of_type join_words32
minus_two = refl

raw_of_type-Represents_example : Represents low_high int32 (0xFFFE ∷ 0xFFFF ∷ []) (negsuc 1)
raw_of_type-Represents_example =
    raw_of_type-Represents "battery_power" low_high int32 (0xFFFE ∷ 0xFFFF ∷ []) (negsuc 1)
      (omega arith) (omega arith) minus_two

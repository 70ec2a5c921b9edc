-- ===== src/Store/Battery.antt =====
-- internal/state/store.go: `nominalBatteryVoltage` and `batteryEnergyTelemetry`. A text is the list
-- of its code points.
use package.text.Mathlib.Text.{◌==◌ as str_eq}
use mathlib.Core.List.{reverse}
use srne_inverter_to_mqtt.Base.{
  ℕ, String, Bool, true, false, List, [], ◌∷◌, ◌++◌, Option, none, some, if◌then◌else◌,
}
use srne_inverter_to_mqtt.Base.Int.{ℤ, pos, leb_ℤ}
use srne_inverter_to_mqtt.Base.Letters.{codes, is_blank, after_prefix}
use srne_inverter_to_mqtt.Base.Numeral.{signed}
use srne_inverter_to_mqtt.Base.Float.{Float64}
use srne_inverter_to_mqtt.Registers.Types.{DecodedValue, Value, float64, text, slow}
use srne_inverter_to_mqtt.Store.Values.{value_at, blank_value, numeric_value}
use srne_inverter_to_mqtt.Store.Numbers.{round_float}

-- `strings.Fields(s)`: the word that is read, in reverse, and the rest of the text.
abbrev close_word : List ℕ → List (List ℕ) → List (List ℕ)
close_word [] words = words
close_word (c ∷ cs) words = reverse (c ∷ cs) ∷ words

unfoldable pub fields : List ℕ → List ℕ → List (List ℕ)
fields word [] = close_word word []
fields word (c ∷ cs) =
    let closed = close_word word (fields [] cs) in
    let longer = fields (c ∷ word) cs in if is_blank c then closed else longer

unfoldable pub last_of_two : List (List ℕ) → Option (List ℕ)
last_of_two [] = none
last_of_two (w ∷ []) = none
last_of_two (w ∷ v ∷ []) = some v
last_of_two (w ∷ v ∷ u ∷ ws) = last_of_two (v ∷ u ∷ ws)

-- The number of cells behind an `x`, when it is positive.
unfoldable pub cell_count : Option (List ℕ) → Option ℤ
cell_count none = none
cell_count (some token) = elim (after_prefix (codes "x") token) [
  | none ↦ none
  | some digits ↦ elim (signed digits) [
    | none ↦ none
    | some cells ↦ if leb_ℤ cells (pos 0) then none else some cells
  ]
]

abbrev has_prefix : String → String → Bool
has_prefix s start = elim (after_prefix (codes start) (codes s)) [ some rest ↦ true | none ↦ false ]

module _ {Num : Type 0} (fl : Float64 Num) where
  -- The text, or the value where it is one and the text is empty.
  unfoldable pub label_text : String → Value Num → String
  label_text rendered (text s) = if str_eq rendered "" then s else rendered
  label_text rendered _ = rendered

  unfoldable pub voltage_of : String → Option ℤ → Option Num
  voltage_of label none = none
  voltage_of label (some cells) =
      if has_prefix label "LFP "
      then some (fl.mul (fl.of_ℤ cells) (fl.ratio 32 1))
      else if has_prefix label "Ternary Li "
      then some (fl.mul (fl.of_ℤ cells) (fl.ratio 37 1))
      else none

  unfoldable pub nominal_battery_voltage : DecodedValue Num → Option Num
  nominal_battery_voltage value =
      let label = label_text value.rendered value.value in
      voltage_of label (cell_count (last_of_two (fields [] (codes label))))

  unfoldable pub battery_energy_value :
      String → String → ℕ → String → Num → Num → ℕ → DecodedValue Num
  battery_energy_value id name address icon amp_hours nominal_voltage updated_at =
      let kwh = round_float fl (fl.div (fl.mul amp_hours nominal_voltage) (fl.ratio 1000 0)) 1 in
      record (blank_value fl) {
        id = id;
        name = name;
        address = address;
        group = slow;
        component = "sensor";
        entity = "diagnostic";
        unit = "kWh";
        device_class = "energy";
        state_class = "total_increasing";
        icon = icon;
        value = float64 kwh;
        rendered = fl.format kwh 1;
        updated_at = updated_at;
      }

  -- The estimate of one total, when it is there.
  unfoldable pub energy_estimate :
      String → String → ℕ → String → Option Num → Num → ℕ → List (DecodedValue Num)
  energy_estimate id name address icon none nominal_voltage updated_at = []
  energy_estimate id name address icon (some amp_hours) nominal_voltage updated_at =
      battery_energy_value id name address icon amp_hours nominal_voltage updated_at ∷ []

  unfoldable pub battery_energy_at :
      List (String × DecodedValue Num) → Option Num → List (DecodedValue Num)
  battery_energy_at index none = []
  battery_energy_at index (some nominal_voltage) =
      let charged = value_at fl index "total_battery_charge_ah" in
      let discharged = value_at fl index "total_battery_discharge_ah" in
      energy_estimate "battery_charge_energy_total_estimate" "Battery Charge Energy Total Estimate"
        0xFFF6 "mdi:battery-plus" (numeric_value fl charged) nominal_voltage charged.updated_at
      ++ energy_estimate "battery_discharge_energy_total_estimate"
          "Battery Discharge Energy Total Estimate" 0xFFF7 "mdi:battery-minus"
          (numeric_value fl discharged) nominal_voltage discharged.updated_at

  unfoldable pub battery_energy_telemetry :
      List (String × DecodedValue Num) → List (DecodedValue Num)
  battery_energy_telemetry index =
      battery_energy_at index (nominal_battery_voltage (value_at fl index "battery_type"))

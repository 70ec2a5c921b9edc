-- ===== src/Store/Numbers.antt =====
-- internal/state/store.go: `roundFloat`, `threePhasePowerTelemetry` and `phasePowerSumTelemetry`.
use srne_inverter_to_mqtt.Base.{
  ℕ, ◌^◌, String, Bool, true, false, List, [], ◌∷◌, ◌++◌, Option, none, some, ltb, if◌then◌else◌,
}
use srne_inverter_to_mqtt.Base.Text.{decimal_ℤ}
use srne_inverter_to_mqtt.Base.Float.{Float64}
use srne_inverter_to_mqtt.Registers.Types.{DecodedValue, int64, fast}
use srne_inverter_to_mqtt.Store.Values.{lookup_value, blank_value, numeric_value}

-- The running sum of the loop over the phases.
pub record PhaseSum (Num : Type 0) : Type 0 where
  pub total : Num
  pub found : Bool
  pub updated_at : ℕ

module _ {Num : Type 0} (fl : Float64 Num) where
  -- The precision is never negative in the source's calls.
  unfoldable pub round_float : Num → ℕ → Num
  round_float value precision =
      fl.div (fl.round (fl.mul value (fl.ratio (10 ^ precision) 0))) (fl.ratio (10 ^ precision) 0)

  unfoldable pub add_number : DecodedValue Num → Option Num → PhaseSum Num → PhaseSum Num
  add_number phase none sum = sum
  add_number phase (some value) sum = record {
    total = fl.add sum.total value;
    found = true;
    updated_at = if ltb sum.updated_at phase.updated_at then phase.updated_at else sum.updated_at;
  }

  unfoldable pub add_phase : Option (DecodedValue Num) → PhaseSum Num → PhaseSum Num
  add_phase none sum = sum
  add_phase (some phase) sum = add_number phase (numeric_value fl phase) sum

  unfoldable pub sum_phases :
      List (String × DecodedValue Num) → List String → PhaseSum Num → PhaseSum Num
  sum_phases index [] sum = sum
  sum_phases index (id ∷ ids) sum = sum_phases index ids (add_phase (lookup_value index id) sum)

  unfoldable pub phase_power_sum_telemetry :
      String
      → String
      → ℕ
      → String
      → List (String × DecodedValue Num)
      → List String
      → List (DecodedValue Num)
  phase_power_sum_telemetry id name address icon index phase_ids =
      let sum =
        sum_phases index phase_ids
          (record { total = fl.ratio 0 0; found = false; updated_at = 0 }) in
      let rounded = fl.to_ℤ (fl.round sum.total) in
      if sum.found
      then record (blank_value fl) {
        id = id;
        name = name;
        address = address;
        group = fast;
        component = "sensor";
        entity = "diagnostic";
        unit = "W";
        device_class = "power";
        state_class = "measurement";
        icon = icon;
        raw = rounded;
        value = int64 rounded;
        rendered = decimal_ℤ rounded;
        updated_at = sum.updated_at;
      }
        ∷ []
      else []

  unfoldable pub three_phase_power_telemetry :
      List (String × DecodedValue Num) → List (DecodedValue Num)
  three_phase_power_telemetry index =
      phase_power_sum_telemetry "pv_power" "PV Power" 0xFFFA "mdi:white-balance-sunny" index
        ("pv1_power" ∷ "pv2_power" ∷ [])
      ++ phase_power_sum_telemetry "load_power" "Load Power" 0xFFF8
          "mdi:home-lightning-bolt-outline" index
          ("load_power_phase_a" ∷ "load_power_phase_b" ∷ "load_power_phase_c" ∷ [])
      ++ phase_power_sum_telemetry "grid_power" "Grid Power" 0xFFF9 "mdi:transmission-tower" index
          ("grid_power_phase_a" ∷ "grid_power_phase_b" ∷ "grid_power_phase_c" ∷ [])

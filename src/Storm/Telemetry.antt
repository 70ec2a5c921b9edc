-- ===== src/Storm/Telemetry.antt =====
-- internal/stormcharge/manager.go: the questions that the manager asks a snapshot, and the checks
-- of the settings.
use text.Mathlib.Text.{◌==◌ as str_eq}
use srne_inverter_to_mqtt.Config.Types.{StormChargeConfig}
use srne_inverter_to_mqtt.Base.{
  ℕ, ◌*◌, ◌^◌, String, Bool, false, not, ◌&&◌, ◌||◌, Option, none, some, List, [], ◌∷◌, Result, ok,
  err, ◌>>=◌, ◌>>◌, fail_if, if◌then◌else◌,
}
use srne_inverter_to_mqtt.Base.Int.{ℤ, pos, ltb_ℤ, eqb_ℤ}
use srne_inverter_to_mqtt.Base.Float.{Float64}
use srne_inverter_to_mqtt.Registers.Types.{DecodedValue, Value, float64, int64, int}
use srne_inverter_to_mqtt.Store.Types.{Snapshot, ServiceStatus}
use srne_inverter_to_mqtt.Storm.Types.{
  Settings, StormError, target_soc_range, current_range, timeout_range, telemetry_missing,
  grid_voltage_out, grid_frequency_out,
}

-- Durations in nanoseconds.
abbrev pub minute : ℕ
minute = 60 * 10 ^ 9

abbrev pub hour : ℕ
hour = 3600 * 10 ^ 9

unfoldable pub is_managed_register : String → Bool
is_managed_register id =
    str_eq id "battery_charge_cutoff_soc" || str_eq id "mains_charge_current_limit"

unfoldable pub modbus_connected : List (String × ServiceStatus) → Bool
modbus_connected [] = false
modbus_connected ((name, status) ∷ services) =
    if str_eq name "modbus" then status.connected else modbus_connected services

module _ {Num : Type 0} where
  -- The first value of the telemetry with that identifier.
  unfoldable pub find_value : List (DecodedValue Num) → String → Option (DecodedValue Num)
  find_value [] id = none
  find_value (v ∷ vs) id = if str_eq v.id id then some v else find_value vs id

  unfoldable pub has_value : List (DecodedValue Num) → String → Bool
  has_value [] id = false
  has_value (v ∷ vs) id = str_eq v.id id || has_value vs id

  unfoldable pub has_required_telemetry : Snapshot Num → Bool
  has_required_telemetry snapshot =
      has_value snapshot.telemetry "battery_soc"
      && has_value snapshot.telemetry "battery_charge_cutoff_soc"
      && has_value snapshot.telemetry "mains_charge_current_limit"
      && has_value snapshot.telemetry "grid_voltage_phase_a"
      && has_value snapshot.telemetry "grid_voltage_phase_b"
      && has_value snapshot.telemetry "grid_voltage_phase_c"
      && has_value snapshot.telemetry "grid_frequency"

  -- The first value with that identifier and a raw number other than 0.
  unfoldable pub nonzero_raw : List (DecodedValue Num) → String → Option ℤ
  nonzero_raw [] id = none
  nonzero_raw (v ∷ vs) id =
      if str_eq v.id id && not (eqb_ℤ v.raw (pos 0)) then some v.raw else nonzero_raw vs id

  unfoldable pub active_fault : Snapshot Num → Option (ℤ × String)
  active_fault snapshot = elim (nonzero_raw snapshot.telemetry "fault_code_1") [
    | some code ↦ some (code, "fault_code_1")
    | none ↦ elim (nonzero_raw snapshot.telemetry "fault_code_2") [
      | some code ↦ some (code, "fault_code_2")
      | none ↦ none
    ]
  ]

module _ {Num : Type 0} (fl : Float64 Num) where
  unfoldable pub numeric_of : Value Num → String → Option Num
  numeric_of (float64 x) rendered = some x
  numeric_of (int64 i) rendered = some (fl.of_ℤ i)
  numeric_of (int i) rendered = some (fl.of_ℤ i)
  numeric_of _ rendered = fl.parse rendered

  unfoldable pub optional_numeric : Snapshot Num → String → Option Num
  optional_numeric snapshot id = elim (find_value snapshot.telemetry id) [
    | none ↦ none
    | some v ↦ numeric_of v.value v.rendered
  ]

  module _ {E : Type 0} where
    unfoldable pub required_numeric : Snapshot Num → String → Result (StormError E Num) Num
    required_numeric snapshot id = elim (optional_numeric snapshot id) [
      | some x ↦ ok x
      | none ↦ err (telemetry_missing id)
    ]

    unfoldable pub require_voltage : Snapshot Num → String → Result (StormError E Num) (Unit {0})
    require_voltage snapshot id = do
      voltage ← required_numeric snapshot id
      fail_if (fl.lt voltage (fl.ratio 170 0) || fl.lt (fl.ratio 280 0) voltage)
          (grid_voltage_out id voltage)

    unfoldable pub require_grid : Snapshot Num → Result (StormError E Num) (Unit {0})
    require_grid snapshot = do
      require_voltage snapshot "grid_voltage_phase_a"
      require_voltage snapshot "grid_voltage_phase_b"
      require_voltage snapshot "grid_voltage_phase_c"
      frequency ← required_numeric snapshot "grid_frequency"
      fail_if (fl.lt frequency (fl.ratio 45 0) || fl.lt (fl.ratio 65 0) frequency)
          (grid_frequency_out frequency)

    unfoldable pub validate_settings : Settings Num → Result (StormError E Num) (Unit {0})
    validate_settings settings = do
      fail_if (ltb_ℤ settings.target_soc (pos 50) || ltb_ℤ (pos 100) settings.target_soc)
          target_soc_range
      fail_if
          (fl.le settings.max_current_a (fl.ratio 0 0)
            || fl.lt (fl.ratio 120 0) settings.max_current_a)
          current_range
      fail_if
          (ltb_ℤ settings.timeout (pos (5 * minute)) || ltb_ℤ (pos (24 * hour)) settings.timeout)
          timeout_range

unfoldable pub settings_from_config : {Num : Type 0} → StormChargeConfig Num → Settings Num
settings_from_config cfg = record {
  target_soc = cfg.target_soc;
  max_current_a = cfg.max_current_a;
  timeout = cfg.timeout;
}

-- ===== src/Registers/Catalog/Facts.antt =====
-- Computed facts about the catalogs of internal/registers/catalog.go.
use srne_inverter_to_mqtt.Base.{
  ◌+◌, String, Bool, true, false, ◌&&◌, not, ◌||◌, List, [], ◌∷◌, ltb, leb, ◌≡◌, refl, if_cases,
}
use srne_inverter_to_mqtt.Base.Float.{Float64}
use text.Mathlib.Text.{◌==◌ as str_eq}
use srne_inverter_to_mqtt.Registers.Types.{Register}
use srne_inverter_to_mqtt.Registers.Catalog.Timed.{
  inverter_clock_register, timed_charge_register, timed_charge_enabled_register,
  grid_operating_mode_register, on_grid_max_power_register, zero_export_power_register,
}
use srne_inverter_to_mqtt.Registers.Catalog.Phases.{
  pv_voltage_register, pv_current_register, pv_power_register, power_sum_register,
  phase_voltage_register, phase_current_register, phase_power_register,
  phase_apparent_power_register,
}
use srne_inverter_to_mqtt.Registers.Catalog.Battery.{battery_and_solar_registers}
use srne_inverter_to_mqtt.Registers.Catalog.Grid.{grid_and_inverter_registers}
use srne_inverter_to_mqtt.Registers.Catalog.Load.{load_and_charge_voltage_registers}
use srne_inverter_to_mqtt.Registers.Catalog.Limits.{charge_limit_registers}
use srne_inverter_to_mqtt.Registers.Catalog.Controls.{control_registers}
use srne_inverter_to_mqtt.Registers.Catalog.Switches.{switch_registers}
use srne_inverter_to_mqtt.Registers.Catalog.Daily.{temperature_and_daily_registers}
use srne_inverter_to_mqtt.Registers.Catalog.Totals.{total_registers}
use srne_inverter_to_mqtt.Registers.Catalog.Estimates.{estimate_registers}
use srne_inverter_to_mqtt.Registers.Catalog.ThreePhase.{
  three_phase_registers, grid_control_registers,
}
use srne_inverter_to_mqtt.Registers.Catalog.Selection.{
  base_catalog, three_phase_catalog, filtered_for_three_phase, with_three_phase_limits,
  is_single_phase_only, catalog_for_inverter_type, normalize_inverter_type,
  is_three_phase_inverter_type,
}

module _ {Num : Type 0} where
  -- No register ends behind the last address of 16 bits.
  unfoldable pub all_fit : List (Register Num) → Bool
  all_fit [] = true
  all_fit (r ∷ rs) = ltb (r.address + r.count) 65536 && all_fit rs

  unfoldable pub is_free : String → List (Register Num) → Bool
  is_free id [] = true
  is_free id (r ∷ rs) = not (str_eq id r.id) && is_free id rs

  unfoldable pub all_distinct : List (Register Num) → Bool
  all_distinct [] = true
  all_distinct (r ∷ rs) = is_free r.id rs && all_distinct rs

  unfoldable pub all_encodable : List (Register Num) → Bool
  all_encodable [] = true
  all_encodable (r ∷ rs) = (not r.writable || leb r.count 1 && leb 1 r.count) && all_encodable rs

  unfoldable pub is_sound : List (Register Num) → Bool
  is_sound rs = all_fit rs && all_distinct rs && all_encodable rs

module _ {Num : Type 0} (F : Float64 Num) where
  base-is_sound : is_sound (base_catalog F) ≡ true
  unfolding is_sound all_fit all_distinct is_free all_encodable base_catalog
      battery_and_solar_registers grid_and_inverter_registers load_and_charge_voltage_registers
      charge_limit_registers control_registers switch_registers temperature_and_daily_registers
      total_registers estimate_registers
  base-is_sound = refl

  three_phase-is_sound :
      (grid_controls : Bool)
      → is_sound (three_phase_catalog F (base_catalog F) grid_controls) ≡ true
  unfolding is_sound all_fit all_distinct is_free all_encodable base_catalog
      battery_and_solar_registers grid_and_inverter_registers load_and_charge_voltage_registers
      charge_limit_registers control_registers switch_registers temperature_and_daily_registers
      total_registers estimate_registers three_phase_catalog filtered_for_three_phase
      with_three_phase_limits is_single_phase_only three_phase_registers grid_control_registers
      inverter_clock_register timed_charge_register timed_charge_enabled_register
      grid_operating_mode_register on_grid_max_power_register zero_export_power_register
      pv_voltage_register pv_current_register pv_power_register power_sum_register
      phase_voltage_register phase_current_register phase_power_register
      phase_apparent_power_register
  three_phase-is_sound true = refl
  three_phase-is_sound false = refl

  -- Every catalog is sound, whatever text names the type of the inverter.
  pub catalog-is_sound : (t : String) → is_sound (catalog_for_inverter_type F t) ≡ true
  unfolding catalog_for_inverter_type
  catalog-is_sound t =
      if_cases (λ (c : List (Register Num)). is_sound c ≡ true)
        (is_three_phase_inverter_type (normalize_inverter_type t))
        (λ _. three_phase-is_sound (str_eq (normalize_inverter_type t) "hesp_sh3"))
        (λ _. base-is_sound)

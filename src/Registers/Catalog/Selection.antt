-- ===== src/Registers/Catalog/Selection.antt =====
-- internal/registers/catalog.go: `CatalogForInverterType`, `normalizeInverterType` and
-- `threePhaseCatalog`.
use srne_inverter_to_mqtt.Base.{String, Bool, ◌||◌, List, [], ◌∷◌, ◌++◌, if◌then◌else◌}
use srne_inverter_to_mqtt.Base.Letters.{means}
use srne_inverter_to_mqtt.Base.Float.{Float64}
use text.Mathlib.Text.{◌==◌ as str_eq}
use srne_inverter_to_mqtt.Registers.Types.{Register}
use srne_inverter_to_mqtt.Registers.Catalog.Battery.{battery_and_solar_registers}
use srne_inverter_to_mqtt.Registers.Catalog.Grid.{grid_and_inverter_registers}
use srne_inverter_to_mqtt.Registers.Catalog.Load.{load_and_charge_voltage_registers}
use srne_inverter_to_mqtt.Registers.Catalog.Limits.{charge_limit_registers}
use srne_inverter_to_mqtt.Registers.Catalog.Controls.{control_registers}
use srne_inverter_to_mqtt.Registers.Catalog.Switches.{switch_registers}
use srne_inverter_to_mqtt.Registers.Catalog.Daily.{temperature_and_daily_registers}
use srne_inverter_to_mqtt.Registers.Catalog.Totals.{total_registers}
use srne_inverter_to_mqtt.Registers.Catalog.Estimates.{estimate_registers}
use srne_inverter_to_mqtt.Registers.Catalog.ThreePhase.{
  three_phase_registers, grid_control_registers,
}

unfoldable pub normalize_inverter_type : String → String
normalize_inverter_type t =
    if means t "three_phase" || means t "three-phase" || means t "three" || means t "3p"
    then "spi_h3p"
    else if means t "spi_h3p" || means t "spi-h3p" || means t "spi"
    then "spi_h3p"
    else if means t "hesp_sh3" || means t "hesp-sh3" || means t "hesp"
    then "hesp_sh3"
    else "single_phase"

unfoldable pub is_three_phase_inverter_type : String → Bool
unfolding normalize_inverter_type
is_three_phase_inverter_type t =
    str_eq (normalize_inverter_type t) "spi_h3p" || str_eq (normalize_inverter_type t) "hesp_sh3"

-- A register without the fields that a three-phase inverter measures for each phase.
unfoldable pub is_single_phase_only : String → Bool
is_single_phase_only id =
    str_eq id "pv_voltage"
    || str_eq id "pv_current"
    || str_eq id "pv_power"
    || str_eq id "load_power"
    || str_eq id "load_current"
    || str_eq id "load_apparent_power"
    || str_eq id "grid_voltage"
    || str_eq id "grid_current"
    || str_eq id "grid_power"

module _ {Num : Type 0} (F : Float64 Num) where
  unfoldable pub base_catalog : List (Register Num)
  base_catalog =
      battery_and_solar_registers F
      ++ grid_and_inverter_registers F
      ++ load_and_charge_voltage_registers F
      ++ charge_limit_registers F
      ++ control_registers F
      ++ switch_registers F
      ++ temperature_and_daily_registers F
      ++ total_registers F
      ++ estimate_registers F

  unfoldable pub with_three_phase_limits : Register Num → Register Num
  with_three_phase_limits reg =
      if str_eq reg.id "pv_charge_current_setup" || str_eq reg.id "maximum_charge_current"
      then record reg { write_max = F.ratio 260 0 }
      else if str_eq reg.id "mains_charge_current_limit"
      then record reg { write_max = F.ratio 120 0 }
      else reg

  unfoldable pub filtered_for_three_phase : List (Register Num) → List (Register Num)
  filtered_for_three_phase [] = []
  filtered_for_three_phase (reg ∷ regs) =
      let rest = filtered_for_three_phase regs in
      if is_single_phase_only reg.id then rest else with_three_phase_limits reg ∷ rest

  unfoldable pub three_phase_catalog : List (Register Num) → Bool → List (Register Num)
  three_phase_catalog catalog include_grid_controls =
      filtered_for_three_phase catalog
      ++ three_phase_registers F
      ++ (if include_grid_controls then grid_control_registers F else [])

  unfoldable pub catalog_for_inverter_type : String → List (Register Num)
  catalog_for_inverter_type t =
      if is_three_phase_inverter_type (normalize_inverter_type t)
      then three_phase_catalog base_catalog (str_eq (normalize_inverter_type t) "hesp_sh3")
      else base_catalog

-- ===== src/Registers/Catalog/ThreePhase.antt =====
-- internal/registers/catalog.go: the registers that `threePhaseCatalog` appends.
use srne_inverter_to_mqtt.Base.{List, [], ◌∷◌}
use srne_inverter_to_mqtt.Base.Float.{Float64}
use srne_inverter_to_mqtt.Registers.Types.{Register}
use srne_inverter_to_mqtt.Registers.Catalog.Timed.{
  inverter_clock_register, timed_charge_register, timed_charge_enabled_register,
  grid_operating_mode_register, on_grid_max_power_register, zero_export_power_register,
}
use srne_inverter_to_mqtt.Registers.Catalog.Phases.{
  pv_voltage_register, pv_current_register, pv_power_register, power_sum_register,
  phase_voltage_register, phase_current_register, phase_power_register,
  phase_apparent_power_register,
}

module _ {Num : Type 0} (F : Float64 Num) where
  unfoldable pub three_phase_registers : List (Register Num)
  three_phase_registers =
      inverter_clock_register F
      ∷ timed_charge_register F "timed_charge_slot_1_start" "Timed Utility Charge Slot 1 Start"
          0xE026
      ∷ timed_charge_register F "timed_charge_slot_1_end" "Timed Utility Charge Slot 1 End" 0xE027
      ∷ timed_charge_register F "timed_charge_slot_2_start" "Timed Utility Charge Slot 2 Start"
          0xE028
      ∷ timed_charge_register F "timed_charge_slot_2_end" "Timed Utility Charge Slot 2 End" 0xE029
      ∷ timed_charge_register F "timed_charge_slot_3_start" "Timed Utility Charge Slot 3 Start"
          0xE02A
      ∷ timed_charge_register F "timed_charge_slot_3_end" "Timed Utility Charge Slot 3 End" 0xE02B
      ∷ timed_charge_enabled_register F
      ∷ power_sum_register F "pv_power" "PV Power" 0xFFFA "mdi:white-balance-sunny"
      ∷ pv_voltage_register F "pv1_voltage" "PV1 Voltage" 0x0107
      ∷ pv_current_register F "pv1_current" "PV1 Current" 0x0108
      ∷ pv_power_register F "pv1_power" "PV1 Power" 0x0109
      ∷ pv_voltage_register F "pv2_voltage" "PV2 Voltage" 0x010F
      ∷ pv_current_register F "pv2_current" "PV2 Current" 0x0110
      ∷ pv_power_register F "pv2_power" "PV2 Power" 0x0111
      ∷ power_sum_register F "load_power" "Load Power" 0xFFF8 "mdi:home-lightning-bolt-outline"
      ∷ power_sum_register F "grid_power" "Grid Power" 0xFFF9 "mdi:transmission-tower"
      ∷ phase_voltage_register F "grid_voltage_phase_a" "Grid Voltage Phase A" 0x0213
          "mdi:transmission-tower"
      ∷ phase_current_register F "grid_current_phase_a" "Grid Current Phase A" 0x0214
      ∷ phase_current_register F "load_current_phase_a" "Load Current Phase A" 0x0219
      ∷ phase_power_register F "load_power_phase_a" "Load Power Phase A" 0x021B (F.ratio 1 0)
          "mdi:home-lightning-bolt-outline"
      ∷ phase_apparent_power_register F "load_apparent_power_phase_a" "Load Apparent Power Phase A"
          0x021C
      ∷ phase_voltage_register F "grid_voltage_phase_b" "Grid Voltage Phase B" 0x022A
          "mdi:transmission-tower"
      ∷ phase_voltage_register F "grid_voltage_phase_c" "Grid Voltage Phase C" 0x022B
          "mdi:transmission-tower"
      ∷ phase_current_register F "load_current_phase_b" "Load Current Phase B" 0x0230
      ∷ phase_current_register F "load_current_phase_c" "Load Current Phase C" 0x0231
      ∷ phase_power_register F "load_power_phase_b" "Load Power Phase B" 0x0232 (F.ratio 1 0)
          "mdi:home-lightning-bolt-outline"
      ∷ phase_power_register F "load_power_phase_c" "Load Power Phase C" 0x0233 (F.ratio 1 0)
          "mdi:home-lightning-bolt-outline"
      ∷ phase_current_register F "grid_current_phase_b" "Grid Current Phase B" 0x0238
      ∷ phase_current_register F "grid_current_phase_c" "Grid Current Phase C" 0x0239
      ∷ phase_power_register F "grid_power_phase_a" "Grid Power Phase A" 0x023A (F.ratio 1 0)
          "mdi:transmission-tower"
      ∷ phase_power_register F "grid_power_phase_b" "Grid Power Phase B" 0x023B (F.ratio 1 0)
          "mdi:transmission-tower"
      ∷ phase_power_register F "grid_power_phase_c" "Grid Power Phase C" 0x023C (F.ratio 1 0)
          "mdi:transmission-tower"
      ∷ []

  unfoldable pub grid_control_registers : List (Register Num)
  grid_control_registers =
      grid_operating_mode_register F
      ∷ on_grid_max_power_register F
      ∷ zero_export_power_register F
      ∷ []

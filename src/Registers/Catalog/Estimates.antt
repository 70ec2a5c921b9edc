-- ===== src/Registers/Catalog/Estimates.antt =====
-- internal/registers/catalog.go: `baseCatalog`, from `system_energy_efficiency_total` to `battery_discharge_energy_total_estimate`.
use srne_inverter_to_mqtt.Base.{true, List, [], ◌∷◌}
use srne_inverter_to_mqtt.Base.Float.{Float64}
use srne_inverter_to_mqtt.Registers.Types.{Register, uint16, slow}
use srne_inverter_to_mqtt.Registers.Catalog.Blank.{blank}

unfoldable pub estimate_registers : {Num : Type 0} → Float64 Num → List (Register Num)
estimate_registers F =
    record (blank F) {
      id = "system_energy_efficiency_total";
      name = "System Energy Efficiency Total";
      address = 0xFFF1;
      count = 0;
      value_type = uint16;
      synthetic = true;
      scale = F.ratio 1 0;
      precision = 1;
      unit = "%";
      icon = "mdi:percent-outline";
      component = "sensor";
      group = slow;
      entity = "diagnostic";
    }
    ∷ record (blank F) {
      id = "last_switch_to_grid_at";
      name = "Last Switch To Grid At";
      address = 0xFFF2;
      count = 0;
      value_type = uint16;
      synthetic = true;
      device_class = "timestamp";
      icon = "mdi:transmission-tower-import";
      component = "sensor";
      group = slow;
      entity = "diagnostic";
    }
    ∷ record (blank F) {
      id = "last_switch_to_grid_soc";
      name = "Last Switch To Grid SOC";
      address = 0xFFF3;
      count = 0;
      value_type = uint16;
      synthetic = true;
      scale = F.ratio 1 0;
      precision = 0;
      unit = "%";
      device_class = "battery";
      icon = "mdi:battery-arrow-down";
      component = "sensor";
      group = slow;
      entity = "diagnostic";
    }
    ∷ record (blank F) {
      id = "last_switch_to_battery_at";
      name = "Last Switch To Battery At";
      address = 0xFFF4;
      count = 0;
      value_type = uint16;
      synthetic = true;
      device_class = "timestamp";
      icon = "mdi:battery-arrow-up";
      component = "sensor";
      group = slow;
      entity = "diagnostic";
    }
    ∷ record (blank F) {
      id = "last_switch_to_battery_soc";
      name = "Last Switch To Battery SOC";
      address = 0xFFF5;
      count = 0;
      value_type = uint16;
      synthetic = true;
      scale = F.ratio 1 0;
      precision = 0;
      unit = "%";
      device_class = "battery";
      icon = "mdi:battery-heart-variant";
      component = "sensor";
      group = slow;
      entity = "diagnostic";
    }
    ∷ record (blank F) {
      id = "battery_charge_energy_total_estimate";
      name = "Battery Charge Energy Total Estimate";
      address = 0xFFF6;
      count = 0;
      value_type = uint16;
      synthetic = true;
      scale = F.ratio 1 0;
      precision = 1;
      unit = "kWh";
      device_class = "energy";
      state_class = "total_increasing";
      icon = "mdi:battery-plus";
      component = "sensor";
      group = slow;
      entity = "diagnostic";
    }
    ∷ record (blank F) {
      id = "battery_discharge_energy_total_estimate";
      name = "Battery Discharge Energy Total Estimate";
      address = 0xFFF7;
      count = 0;
      value_type = uint16;
      synthetic = true;
      scale = F.ratio 1 0;
      precision = 1;
      unit = "kWh";
      device_class = "energy";
      state_class = "total_increasing";
      icon = "mdi:battery-minus";
      component = "sensor";
      group = slow;
      entity = "diagnostic";
    }
    ∷ []

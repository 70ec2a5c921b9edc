-- ===== src/Registers/Catalog/Totals.antt =====
-- internal/registers/catalog.go: `baseCatalog`, from `total_battery_charge_ah` to `system_energy_losses_total`.
use srne_inverter_to_mqtt.Base.{true, List, [], ◌∷◌}
use srne_inverter_to_mqtt.Base.Float.{Float64}
use srne_inverter_to_mqtt.Registers.Types.{Register, uint16, uint32, low_high, slow}
use srne_inverter_to_mqtt.Registers.Catalog.Blank.{blank}

unfoldable pub total_registers : {Num : Type 0} → Float64 Num → List (Register Num)
total_registers F =
    record (blank F) {
      id = "total_battery_charge_ah";
      name = "Total Battery Charge";
      address = 0xF034;
      count = 2;
      value_type = uint32;
      word_order = low_high;
      scale = F.ratio 1 0;
      precision = 0;
      unit = "Ah";
      state_class = "total_increasing";
      icon = "mdi:battery-plus";
      component = "sensor";
      group = slow;
      entity = "diagnostic";
    }
    ∷ record (blank F) {
      id = "total_battery_discharge_ah";
      name = "Total Battery Discharge";
      address = 0xF036;
      count = 2;
      value_type = uint32;
      word_order = low_high;
      scale = F.ratio 1 0;
      precision = 0;
      unit = "Ah";
      state_class = "total_increasing";
      icon = "mdi:battery-minus";
      component = "sensor";
      group = slow;
      entity = "diagnostic";
    }
    ∷ record (blank F) {
      id = "total_production";
      name = "Total Production";
      address = 0xF038;
      count = 2;
      value_type = uint32;
      word_order = low_high;
      scale = F.ratio 1 1;
      precision = 1;
      unit = "kWh";
      device_class = "energy";
      state_class = "total_increasing";
      icon = "mdi:solar-power";
      component = "sensor";
      group = slow;
      entity = "diagnostic";
    }
    ∷ record (blank F) {
      id = "total_load_consumption";
      name = "Total Load Consumption";
      address = 0xF03A;
      count = 2;
      value_type = uint32;
      word_order = low_high;
      scale = F.ratio 1 1;
      precision = 1;
      unit = "kWh";
      device_class = "energy";
      state_class = "total_increasing";
      icon = "mdi:home-lightning-bolt-outline";
      component = "sensor";
      group = slow;
      entity = "diagnostic";
    }
    ∷ record (blank F) {
      id = "today_battery_grid_charge_ah";
      name = "Today Battery Grid Charge";
      address = 0xF03C;
      count = 1;
      value_type = uint16;
      scale = F.ratio 1 0;
      precision = 0;
      unit = "Ah";
      state_class = "total_increasing";
      icon = "mdi:battery-plus";
      component = "sensor";
      group = slow;
      entity = "diagnostic";
    }
    ∷ record (blank F) {
      id = "today_energy_import";
      name = "Today Energy Import";
      address = 0xF03D;
      count = 1;
      value_type = uint16;
      scale = F.ratio 1 1;
      precision = 1;
      unit = "kWh";
      device_class = "energy";
      state_class = "total_increasing";
      icon = "mdi:transmission-tower-export";
      component = "sensor";
      group = slow;
      entity = "diagnostic";
    }
    ∷ record (blank F) {
      id = "total_battery_grid_charge_ah";
      name = "Total Battery Grid Charge";
      address = 0xF046;
      count = 2;
      value_type = uint32;
      word_order = low_high;
      scale = F.ratio 1 0;
      precision = 0;
      unit = "Ah";
      state_class = "total_increasing";
      icon = "mdi:battery-plus";
      component = "sensor";
      group = slow;
      entity = "diagnostic";
    }
    ∷ record (blank F) {
      id = "total_energy_import";
      name = "Total Energy Import";
      address = 0xF048;
      count = 2;
      value_type = uint32;
      word_order = low_high;
      scale = F.ratio 1 1;
      precision = 1;
      unit = "kWh";
      device_class = "energy";
      state_class = "total_increasing";
      icon = "mdi:transmission-tower-export";
      component = "sensor";
      group = slow;
      entity = "diagnostic";
    }
    ∷ record (blank F) {
      id = "system_energy_losses_total";
      name = "System Energy Losses Total";
      address = 0xFFF0;
      count = 0;
      value_type = uint16;
      synthetic = true;
      scale = F.ratio 1 0;
      precision = 1;
      unit = "kWh";
      device_class = "energy";
      state_class = "total_increasing";
      icon = "mdi:transmission-tower-off";
      component = "sensor";
      group = slow;
      entity = "diagnostic";
    }
    ∷ []

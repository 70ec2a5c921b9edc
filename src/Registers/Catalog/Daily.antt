-- ===== src/Registers/Catalog/Daily.antt =====
-- internal/registers/catalog.go: `baseCatalog`, from `dc_to_ac_temperature` to `total_energy_export`.
use srne_inverter_to_mqtt.Base.{List, [], ◌∷◌}
use srne_inverter_to_mqtt.Base.Int.{negsuc}
use srne_inverter_to_mqtt.Base.Float.{Float64}
use srne_inverter_to_mqtt.Registers.Types.{Register, uint16, int16, uint32, low_high, slow}
use srne_inverter_to_mqtt.Registers.Catalog.Blank.{blank}

unfoldable pub temperature_and_daily_registers : {Num : Type 0} → Float64 Num → List (Register Num)
temperature_and_daily_registers F =
    record (blank F) {
      id = "dc_to_ac_temperature";
      name = "DC to AC Temperature";
      address = 0x0221;
      count = 1;
      value_type = int16;
      scale = F.ratio 1 1;
      precision = 1;
      unit = "°C";
      device_class = "temperature";
      state_class = "measurement";
      icon = "mdi:thermometer";
      component = "sensor";
      group = slow;
      entity = "diagnostic";
    }
    ∷ record (blank F) {
      id = "transformer_temperature";
      name = "Transformer Temperature";
      address = 0x0222;
      count = 1;
      value_type = int16;
      scale = F.ratio 1 1;
      precision = 1;
      unit = "°C";
      device_class = "temperature";
      state_class = "measurement";
      icon = "mdi:thermometer";
      component = "sensor";
      group = slow;
      entity = "diagnostic";
    }
    ∷ record (blank F) {
      id = "grid_power";
      name = "Grid Power";
      address = 0x023A;
      count = 1;
      value_type = int16;
      scale = F.of_ℤ (negsuc 0);
      precision = 0;
      unit = "W";
      device_class = "power";
      state_class = "measurement";
      icon = "mdi:transmission-tower";
      component = "sensor";
      group = slow;
      entity = "diagnostic";
    }
    ∷ record (blank F) {
      id = "today_energy_export";
      name = "Today Energy Export";
      address = 0xF02C;
      count = 1;
      value_type = uint16;
      scale = F.ratio 1 1;
      precision = 1;
      unit = "kWh";
      device_class = "energy";
      state_class = "total_increasing";
      icon = "mdi:transmission-tower-import";
      component = "sensor";
      group = slow;
      entity = "diagnostic";
    }
    ∷ record (blank F) {
      id = "today_battery_charge_ah";
      name = "Today Battery Charge";
      address = 0xF02D;
      count = 1;
      value_type = uint16;
      scale = F.ratio 1 0;
      precision = 0;
      unit = "Ah";
      state_class = "total_increasing";
      icon = "mdi:battery-plus";
      component = "sensor";
      group = slow;
      entity = "diagnostic";
    }
    ∷ record (blank F) {
      id = "today_battery_discharge_ah";
      name = "Today Battery Discharge";
      address = 0xF02E;
      count = 1;
      value_type = uint16;
      scale = F.ratio 1 0;
      precision = 0;
      unit = "Ah";
      state_class = "total_increasing";
      icon = "mdi:battery-minus";
      component = "sensor";
      group = slow;
      entity = "diagnostic";
    }
    ∷ record (blank F) {
      id = "today_production";
      name = "Today Production";
      address = 0xF02F;
      count = 1;
      value_type = uint16;
      scale = F.ratio 1 1;
      precision = 1;
      unit = "kWh";
      device_class = "energy";
      state_class = "total_increasing";
      icon = "mdi:solar-power";
      component = "sensor";
      group = slow;
      entity = "diagnostic";
    }
    ∷ record (blank F) {
      id = "today_load_consumption";
      name = "Today Load Consumption";
      address = 0xF030;
      count = 1;
      value_type = uint16;
      scale = F.ratio 1 1;
      precision = 1;
      unit = "kWh";
      device_class = "energy";
      state_class = "total_increasing";
      icon = "mdi:home-lightning-bolt-outline";
      component = "sensor";
      group = slow;
      entity = "diagnostic";
    }
    ∷ record (blank F) {
      id = "total_energy_export";
      name = "Total Energy Export";
      address = 0xF032;
      count = 2;
      value_type = uint32;
      word_order = low_high;
      scale = F.ratio 1 1;
      precision = 1;
      unit = "kWh";
      device_class = "energy";
      state_class = "total_increasing";
      icon = "mdi:transmission-tower-import";
      component = "sensor";
      group = slow;
      entity = "diagnostic";
    }
    ∷ []

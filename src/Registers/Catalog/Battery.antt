-- ===== src/Registers/Catalog/Battery.antt =====
-- internal/registers/catalog.go: `baseCatalog`, from `battery_soc` to `pv_ac_power`.
use srne_inverter_to_mqtt.Base.{List, [], ◌∷◌}
use srne_inverter_to_mqtt.Base.Float.{Float64}
use srne_inverter_to_mqtt.Registers.Types.{Register, uint16, int16, fast, slow}
use srne_inverter_to_mqtt.Registers.Catalog.Blank.{blank}

unfoldable pub battery_and_solar_registers : {Num : Type 0} → Float64 Num → List (Register Num)
battery_and_solar_registers F =
    record (blank F) {
      id = "battery_soc";
      name = "Battery SOC";
      address = 0x0100;
      count = 1;
      value_type = uint16;
      scale = F.ratio 1 0;
      precision = 0;
      unit = "%";
      device_class = "battery";
      state_class = "measurement";
      icon = "mdi:battery";
      component = "sensor";
      group = fast;
      entity = "diagnostic";
    }
    ∷ record (blank F) {
      id = "battery_voltage";
      name = "Battery Voltage";
      address = 0x0101;
      count = 1;
      value_type = uint16;
      scale = F.ratio 1 1;
      precision = 1;
      unit = "V";
      device_class = "voltage";
      state_class = "measurement";
      icon = "mdi:car-battery";
      component = "sensor";
      group = fast;
      entity = "diagnostic";
    }
    ∷ record (blank F) {
      id = "battery_current";
      name = "Battery Current";
      address = 0x0102;
      count = 1;
      value_type = int16;
      scale = F.ratio 1 1;
      precision = 1;
      unit = "A";
      device_class = "current";
      state_class = "measurement";
      icon = "mdi:current-dc";
      component = "sensor";
      group = fast;
      entity = "diagnostic";
    }
    ∷ record (blank F) {
      id = "battery_temperature";
      name = "Battery Temperature";
      address = 0x0103;
      count = 1;
      value_type = int16;
      scale = F.ratio 1 1;
      precision = 1;
      unit = "°C";
      device_class = "temperature";
      state_class = "measurement";
      icon = "mdi:thermometer";
      component = "sensor";
      group = slow;
      entity = "diagnostic";
    }
    ∷ record (blank F) {
      id = "pv_voltage";
      name = "PV Voltage";
      address = 0x0107;
      count = 1;
      value_type = uint16;
      scale = F.ratio 1 1;
      precision = 1;
      unit = "V";
      device_class = "voltage";
      state_class = "measurement";
      icon = "mdi:solar-power";
      component = "sensor";
      group = fast;
      entity = "diagnostic";
    }
    ∷ record (blank F) {
      id = "pv_current";
      name = "PV Current";
      address = 0x0108;
      count = 1;
      value_type = uint16;
      scale = F.ratio 1 1;
      precision = 1;
      unit = "A";
      device_class = "current";
      state_class = "measurement";
      icon = "mdi:solar-power";
      component = "sensor";
      group = fast;
      entity = "diagnostic";
    }
    ∷ record (blank F) {
      id = "pv_power";
      name = "PV Power";
      address = 0x0109;
      count = 1;
      value_type = uint16;
      scale = F.ratio 1 0;
      precision = 0;
      unit = "W";
      device_class = "power";
      state_class = "measurement";
      icon = "mdi:white-balance-sunny";
      component = "sensor";
      group = fast;
      entity = "diagnostic";
    }
    ∷ record (blank F) {
      id = "pv_total_power";
      name = "PV Total Power";
      address = 0x010A;
      count = 1;
      value_type = uint16;
      scale = F.ratio 1 0;
      precision = 0;
      unit = "W";
      device_class = "power";
      state_class = "measurement";
      icon = "mdi:solar-power-variant";
      component = "sensor";
      group = slow;
      entity = "diagnostic";
    }
    ∷ record (blank F) {
      id = "pv_ac_power";
      name = "PV+AC Power";
      address = 0x010E;
      count = 1;
      value_type = uint16;
      scale = F.ratio 1 0;
      precision = 0;
      unit = "W";
      device_class = "power";
      state_class = "measurement";
      icon = "mdi:solar-power-variant";
      component = "sensor";
      group = slow;
      entity = "diagnostic";
    }
    ∷ []

-- ===== src/Registers/Catalog/Limits.antt =====
-- internal/registers/catalog.go: `baseCatalog`, from `boost_return_voltage` to `battery_discharge_start`.
use srne_inverter_to_mqtt.Base.{true, List, [], ◌∷◌}
use srne_inverter_to_mqtt.Base.Float.{Float64}
use srne_inverter_to_mqtt.Registers.Types.{Register, uint16, slow}
use srne_inverter_to_mqtt.Registers.Catalog.Blank.{blank}

unfoldable pub charge_limit_registers : {Num : Type 0} → Float64 Num → List (Register Num)
charge_limit_registers F =
    record (blank F) {
      id = "boost_return_voltage";
      name = "Boost Return Voltage";
      address = 0xE00A;
      count = 1;
      value_type = uint16;
      scale = F.ratio 2 1;
      precision = 2;
      unit = "V";
      device_class = "voltage";
      icon = "mdi:car-battery";
      component = "sensor";
      group = slow;
      entity = "config";
    }
    ∷ record (blank F) {
      id = "boost_charging_time";
      name = "Boost Charging Time";
      address = 0xE012;
      count = 1;
      value_type = uint16;
      scale = F.ratio 1 0;
      precision = 0;
      unit = "min";
      icon = "mdi:timer-outline";
      component = "sensor";
      group = slow;
      entity = "config";
    }
    ∷ record (blank F) {
      id = "battery_discharge_cutoff_soc";
      name = "Battery Discharge Cut-off SOC";
      address = 0xE00F;
      count = 1;
      value_type = uint16;
      scale = F.ratio 1 0;
      precision = 0;
      unit = "%";
      device_class = "battery";
      icon = "mdi:battery-off-outline";
      component = "sensor";
      group = slow;
      entity = "config";
      writable = true;
      write_min = F.ratio 0 0;
      write_max = F.ratio 100 0;
      write_step = F.ratio 1 0;
    }
    ∷ record (blank F) {
      id = "charge_termination_current";
      name = "Charge Termination Current";
      address = 0xE01C;
      count = 1;
      value_type = uint16;
      scale = F.ratio 1 1;
      precision = 1;
      unit = "A";
      device_class = "current";
      icon = "mdi:battery-charging-outline";
      component = "sensor";
      group = slow;
      entity = "config";
      writable = true;
      write_min = F.ratio 0 0;
      write_max = F.ratio 10 0;
      write_step = F.ratio 1 1;
    }
    ∷ record (blank F) {
      id = "battery_charge_cutoff_soc";
      name = "Battery Charge Cut-off SOC";
      address = 0xE01D;
      count = 1;
      value_type = uint16;
      scale = F.ratio 1 0;
      precision = 0;
      unit = "%";
      device_class = "battery";
      icon = "mdi:battery-check-outline";
      component = "sensor";
      group = slow;
      entity = "config";
      writable = true;
      write_min = F.ratio 0 0;
      write_max = F.ratio 100 0;
      write_step = F.ratio 1 0;
    }
    ∷ record (blank F) {
      id = "battery_low_soc_alarm";
      name = "Battery Low SOC Alarm";
      address = 0xE01E;
      count = 1;
      value_type = uint16;
      scale = F.ratio 1 0;
      precision = 0;
      unit = "%";
      device_class = "battery";
      icon = "mdi:battery-alert-variant-outline";
      component = "sensor";
      group = slow;
      entity = "config";
      writable = true;
      write_min = F.ratio 0 0;
      write_max = F.ratio 100 0;
      write_step = F.ratio 1 0;
    }
    ∷ record (blank F) {
      id = "battery_discharge_stop";
      name = "Switch to Utility SOC";
      address = 0xE01F;
      count = 1;
      value_type = uint16;
      scale = F.ratio 1 0;
      precision = 0;
      unit = "%";
      device_class = "battery";
      icon = "mdi:battery";
      component = "sensor";
      group = slow;
      entity = "config";
      writable = true;
      write_min = F.ratio 0 0;
      write_max = F.ratio 100 0;
      write_step = F.ratio 1 0;
    }
    ∷ record (blank F) {
      id = "battery_discharge_start";
      name = "Switch to Inverter SOC";
      address = 0xE020;
      count = 1;
      value_type = uint16;
      scale = F.ratio 1 0;
      precision = 0;
      unit = "%";
      device_class = "battery";
      icon = "mdi:battery";
      component = "sensor";
      group = slow;
      entity = "config";
      writable = true;
      write_min = F.ratio 1 0;
      write_max = F.ratio 100 0;
      write_step = F.ratio 1 0;
    }
    ∷ []

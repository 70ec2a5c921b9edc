-- ===== src/Registers/Catalog/Switches.antt =====
-- internal/registers/catalog.go: `baseCatalog`, from `overload_auto_restart` to `dc_to_dc_temperature`.
use srne_inverter_to_mqtt.Base.{true, List, [], ◌∷◌}
use srne_inverter_to_mqtt.Base.Int.{pos}
use srne_inverter_to_mqtt.Base.Float.{Float64}
use srne_inverter_to_mqtt.Registers.Types.{Register, uint16, int16, slow}
use srne_inverter_to_mqtt.Registers.Catalog.Blank.{blank}

unfoldable pub switch_registers : {Num : Type 0} → Float64 Num → List (Register Num)
switch_registers F =
    record (blank F) {
      id = "overload_auto_restart";
      name = "Overload Auto Restart";
      address = 0xE20D;
      count = 1;
      value_type = uint16;
      precision = 0;
      icon = "mdi:restart-alert";
      component = "sensor";
      group = slow;
      entity = "config";
      writable = true;
      write_min = F.ratio 0 0;
      write_max = F.ratio 1 0;
      write_step = F.ratio 1 0;
      enum = (pos 0, "Disabled") ∷ (pos 1, "Enabled") ∷ [];
    }
    ∷ record (blank F) {
      id = "overtemperature_auto_restart";
      name = "Overtemperature Auto Restart";
      address = 0xE20E;
      count = 1;
      value_type = uint16;
      precision = 0;
      icon = "mdi:thermometer-alert";
      component = "sensor";
      group = slow;
      entity = "config";
      writable = true;
      write_min = F.ratio 0 0;
      write_max = F.ratio 1 0;
      write_step = F.ratio 1 0;
      enum = (pos 0, "Disabled") ∷ (pos 1, "Enabled") ∷ [];
    }
    ∷ record (blank F) {
      id = "buzzer_alarm";
      name = "Buzzer Alarm";
      address = 0xE210;
      count = 1;
      value_type = uint16;
      precision = 0;
      icon = "mdi:volume-high";
      component = "sensor";
      group = slow;
      entity = "config";
      writable = true;
      write_min = F.ratio 0 0;
      write_max = F.ratio 1 0;
      write_step = F.ratio 1 0;
      enum = (pos 0, "Disabled") ∷ (pos 1, "Enabled") ∷ [];
    }
    ∷ record (blank F) {
      id = "source_change_alert";
      name = "Source Change Alert";
      address = 0xE211;
      count = 1;
      value_type = uint16;
      precision = 0;
      icon = "mdi:bell-alert-outline";
      component = "sensor";
      group = slow;
      entity = "config";
      writable = true;
      write_min = F.ratio 0 0;
      write_max = F.ratio 1 0;
      write_step = F.ratio 1 0;
      enum = (pos 0, "Disabled") ∷ (pos 1, "Enabled") ∷ [];
    }
    ∷ record (blank F) {
      id = "overload_bypass";
      name = "Bypass on Overload";
      address = 0xE212;
      count = 1;
      value_type = uint16;
      precision = 0;
      icon = "mdi:electric-switch";
      component = "sensor";
      group = slow;
      entity = "config";
      writable = true;
      write_min = F.ratio 0 0;
      write_max = F.ratio 1 0;
      write_step = F.ratio 1 0;
      enum = (pos 0, "Disabled") ∷ (pos 1, "Enabled") ∷ [];
    }
    ∷ record (blank F) {
      id = "bms_communication_enable";
      name = "BMS Communication Enable";
      address = 0xE215;
      count = 1;
      value_type = uint16;
      precision = 0;
      icon = "mdi:battery-sync-outline";
      component = "sensor";
      group = slow;
      entity = "config";
      enum = (pos 0, "Disabled") ∷ (pos 1, "RS485 BMS") ∷ (pos 2, "CAN BMS") ∷ [];
    }
    ∷ record (blank F) {
      id = "bms_protocol";
      name = "BMS Protocol";
      address = 0xE21B;
      count = 1;
      value_type = uint16;
      precision = 0;
      icon = "mdi:protocol";
      component = "sensor";
      group = slow;
      entity = "config";
    }
    ∷ record (blank F) {
      id = "dc_to_dc_temperature";
      name = "DC to DC Temperature";
      address = 0x0220;
      count = 1;
      value_type = int16;
      scale = F.ratio 1 1;
      precision = 1;
      unit = "°C";
      device_class = "temperature";
      state_class = "measurement";
      icon = "mdi:thermometer";
      component = "sensor";
      group = slow;
      entity = "diagnostic";
    }
    ∷ []

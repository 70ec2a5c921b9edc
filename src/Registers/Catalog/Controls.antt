-- ===== src/Registers/Catalog/Controls.antt =====
-- internal/registers/catalog.go: `baseCatalog`, from `bms_charge_limit_mode` to `power_saving_mode`.
use srne_inverter_to_mqtt.Base.{true, List, [], ◌∷◌}
use srne_inverter_to_mqtt.Base.Int.{pos}
use srne_inverter_to_mqtt.Base.Float.{Float64}
use srne_inverter_to_mqtt.Registers.Types.{Register, uint16, fast, slow}
use srne_inverter_to_mqtt.Registers.Catalog.Blank.{blank}

unfoldable pub control_registers : {Num : Type 0} → Float64 Num → List (Register Num)
control_registers F =
    record (blank F) {
      id = "bms_charge_limit_mode";
      name = "BMS Charge Limit Mode";
      address = 0xE025;
      count = 1;
      value_type = uint16;
      precision = 0;
      icon = "mdi:battery-sync";
      component = "sensor";
      group = slow;
      entity = "config";
      writable = true;
      write_min = F.ratio 0 0;
      write_max = F.ratio 2 0;
      write_step = F.ratio 1 0;
      enum = (pos 0, "Setting") ∷ (pos 1, "BMS") ∷ (pos 2, "Inverter Logic") ∷ [];
    }
    ∷ record (blank F) {
      id = "output_source_priority";
      name = "Output Source Priority";
      address = 0xE204;
      count = 1;
      value_type = uint16;
      precision = 0;
      icon = "mdi:home-switch-outline";
      component = "sensor";
      group = slow;
      entity = "config";
      writable = true;
      write_min = F.ratio 0 0;
      write_max = F.ratio 2 0;
      write_step = F.ratio 1 0;
      enum = (pos 0, "Solar") ∷ (pos 1, "Utility") ∷ (pos 2, "Solar, Battery, Utility") ∷ [];
    }
    ∷ record (blank F) {
      id = "mains_charge_current_limit";
      name = "Mains Charge Current Limit";
      address = 0xE205;
      count = 1;
      value_type = uint16;
      scale = F.ratio 1 1;
      precision = 1;
      unit = "A";
      device_class = "current";
      icon = "mdi:transmission-tower";
      component = "sensor";
      group = slow;
      entity = "config";
      writable = true;
      write_min = F.ratio 0 0;
      write_max = F.ratio 100 0;
      write_step = F.ratio 1 1;
    }
    ∷ record (blank F) {
      id = "maximum_charge_current";
      name = "Maximum Charge Current";
      address = 0xE20A;
      count = 1;
      value_type = uint16;
      scale = F.ratio 1 1;
      precision = 1;
      unit = "A";
      device_class = "current";
      icon = "mdi:battery-charging-high";
      component = "sensor";
      group = fast;
      entity = "config";
      writable = true;
      write_min = F.ratio 0 0;
      write_max = F.ratio 150 0;
      write_step = F.ratio 1 1;
    }
    ∷ record (blank F) {
      id = "reset_machine";
      name = "Reset Machine";
      address = 0xDF01;
      count = 1;
      value_type = uint16;
      precision = 0;
      icon = "mdi:restart-alert";
      component = "sensor";
      group = slow;
      entity = "config";
      writable = true;
      write_only = true;
      write_min = F.ratio 1 0;
      write_max = F.ratio 1 0;
      write_step = F.ratio 1 0;
      button_class = "restart";
      enum = (pos 1, "Reset") ∷ [];
    }
    ∷ record (blank F) {
      id = "charger_source_priority";
      name = "Charger Source Priority";
      address = 0xE20F;
      count = 1;
      value_type = uint16;
      precision = 0;
      icon = "mdi:battery-charging-outline";
      component = "sensor";
      group = slow;
      entity = "config";
      writable = true;
      write_min = F.ratio 0 0;
      write_max = F.ratio 3 0;
      write_step = F.ratio 1 0;
      enum =
          (pos 0, "PV Priority")
          ∷ (pos 1, "Utility Priority")
          ∷ (pos 2, "Hybrid")
          ∷ (pos 3, "PV Only")
          ∷ [];
    }
    ∷ record (blank F) {
      id = "power_saving_mode";
      name = "Power Saving Mode";
      address = 0xE20C;
      count = 1;
      value_type = uint16;
      precision = 0;
      icon = "mdi:leaf";
      component = "sensor";
      group = slow;
      entity = "config";
      writable = true;
      write_min = F.ratio 0 0;
      write_max = F.ratio 1 0;
      write_step = F.ratio 1 0;
      enum = (pos 0, "Disabled") ∷ (pos 1, "Enabled") ∷ [];
    }
    ∷ []

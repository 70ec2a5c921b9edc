-- ===== src/Registers/Catalog/Load.antt =====
-- internal/registers/catalog.go: `baseCatalog`, from `load_current` to `float_charge_voltage`.
use srne_inverter_to_mqtt.Base.{true, List, [], ◌∷◌}
use srne_inverter_to_mqtt.Base.Int.{pos}
use srne_inverter_to_mqtt.Base.Float.{Float64}
use srne_inverter_to_mqtt.Registers.Types.{Register, uint16, slow}
use srne_inverter_to_mqtt.Registers.Catalog.Blank.{blank}

unfoldable pub load_and_charge_voltage_registers :
    {Num : Type 0} → Float64 Num → List (Register Num)
load_and_charge_voltage_registers F =
    record (blank F) {
      id = "load_current";
      name = "Load Current";
      address = 0x0219;
      count = 1;
      value_type = uint16;
      scale = F.ratio 1 1;
      precision = 1;
      unit = "A";
      device_class = "current";
      state_class = "measurement";
      icon = "mdi:current-ac";
      component = "sensor";
      group = slow;
      entity = "diagnostic";
    }
    ∷ record (blank F) {
      id = "load_apparent_power";
      name = "Load Apparent Power";
      address = 0x021C;
      count = 1;
      value_type = uint16;
      scale = F.ratio 1 0;
      precision = 0;
      unit = "VA";
      icon = "mdi:flash-outline";
      component = "sensor";
      group = slow;
      entity = "diagnostic";
    }
    ∷ record (blank F) {
      id = "machine_state";
      name = "Machine State";
      address = 0x0210;
      count = 1;
      value_type = uint16;
      precision = 0;
      icon = "mdi:state-machine";
      component = "sensor";
      group = slow;
      entity = "diagnostic";
      enum =
          (pos 0, "Power-on Delay")
          ∷ (pos 1, "Standby")
          ∷ (pos 2, "Initialization")
          ∷ (pos 3, "Soft Start")
          ∷ (pos 4, "AC Power Operation")
          ∷ (pos 5, "Inverter Operation")
          ∷ (pos 6, "Inverter to AC Power")
          ∷ (pos 7, "AC Power to Inverter")
          ∷ (pos 8, "Battery Activation")
          ∷ (pos 9, "Manual Shutdown")
          ∷ (pos 10, "Fault")
          ∷ [];
    }
    ∷ record (blank F) {
      id = "pv_charge_current_setup";
      name = "PV Charge Current Setup";
      address = 0xE001;
      count = 1;
      value_type = uint16;
      scale = F.ratio 1 1;
      precision = 1;
      unit = "A";
      device_class = "current";
      icon = "mdi:solar-power";
      component = "sensor";
      group = slow;
      entity = "config";
      writable = true;
      write_min = F.ratio 0 0;
      write_max = F.ratio 100 0;
      write_step = F.ratio 1 1;
    }
    ∷ record (blank F) {
      id = "battery_type";
      name = "Battery Type";
      address = 0xE004;
      count = 1;
      value_type = uint16;
      precision = 0;
      icon = "mdi:battery-heart-variant";
      component = "sensor";
      group = slow;
      entity = "config";
      enum =
          (pos 0, "User Defined")
          ∷ (pos 1, "SLD")
          ∷ (pos 2, "FLD")
          ∷ (pos 3, "GEL")
          ∷ (pos 4, "LFP x14")
          ∷ (pos 5, "LFP x15")
          ∷ (pos 6, "LFP x16")
          ∷ (pos 7, "LFP x7")
          ∷ (pos 8, "LFP x8")
          ∷ (pos 9, "LFP x9")
          ∷ (pos 10, "Ternary Li x7")
          ∷ (pos 11, "Ternary Li x8")
          ∷ (pos 12, "Ternary Li x13")
          ∷ (pos 13, "Ternary Li x14")
          ∷ [];
    }
    ∷ record (blank F) {
      id = "boost_charge_voltage";
      name = "Boost Charge Voltage";
      address = 0xE008;
      count = 1;
      value_type = uint16;
      scale = F.ratio 2 1;
      precision = 2;
      unit = "V";
      device_class = "voltage";
      icon = "mdi:car-battery";
      component = "sensor";
      group = slow;
      entity = "config";
    }
    ∷ record (blank F) {
      id = "float_charge_voltage";
      name = "Float Charge Voltage";
      address = 0xE009;
      count = 1;
      value_type = uint16;
      scale = F.ratio 2 1;
      precision = 2;
      unit = "V";
      device_class = "voltage";
      icon = "mdi:car-battery";
      component = "sensor";
      group = slow;
      entity = "config";
    }
    ∷ []

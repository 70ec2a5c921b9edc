-- ===== src/Registers/Catalog/Grid.antt =====
-- internal/registers/catalog.go: `baseCatalog`, from `charge_state` to `inverter_frequency`.
use srne_inverter_to_mqtt.Base.{List, [], ◌∷◌}
use srne_inverter_to_mqtt.Base.Int.{pos}
use srne_inverter_to_mqtt.Base.Float.{Float64}
use srne_inverter_to_mqtt.Registers.Types.{Register, uint16, fast, slow}
use srne_inverter_to_mqtt.Registers.Catalog.Blank.{blank}

unfoldable pub grid_and_inverter_registers : {Num : Type 0} → Float64 Num → List (Register Num)
grid_and_inverter_registers F =
    record (blank F) {
      id = "charge_state";
      name = "Charge State";
      address = 0x010B;
      count = 1;
      value_type = uint16;
      precision = 0;
      icon = "mdi:battery-charging";
      component = "sensor";
      group = slow;
      entity = "diagnostic";
      enum =
          (pos 0, "Charge Off")
          ∷ (pos 1, "Quick Charge")
          ∷ (pos 2, "Constant Voltage Charge")
          ∷ (pos 4, "Float Charge")
          ∷ (pos 5, "Reserved")
          ∷ (pos 6, "Li Battery Active")
          ∷ (pos 8, "Full")
          ∷ [];
    }
    ∷ record (blank F) {
      id = "fault_code_1";
      name = "Fault Code 1";
      address = 0x0204;
      count = 1;
      value_type = uint16;
      precision = 0;
      icon = "mdi:alert-circle-outline";
      component = "sensor";
      group = slow;
      entity = "diagnostic";
    }
    ∷ record (blank F) {
      id = "fault_code_2";
      name = "Fault Code 2";
      address = 0x0205;
      count = 1;
      value_type = uint16;
      precision = 0;
      icon = "mdi:alert-circle-outline";
      component = "sensor";
      group = slow;
      entity = "diagnostic";
    }
    ∷ record (blank F) {
      id = "load_power";
      name = "Load Power";
      address = 0x021B;
      count = 1;
      value_type = uint16;
      scale = F.ratio 1 0;
      precision = 0;
      unit = "W";
      device_class = "power";
      state_class = "measurement";
      icon = "mdi:home-lightning-bolt-outline";
      component = "sensor";
      group = fast;
      entity = "diagnostic";
    }
    ∷ record (blank F) {
      id = "grid_voltage";
      name = "Grid Voltage";
      address = 0x0213;
      count = 1;
      value_type = uint16;
      scale = F.ratio 1 1;
      precision = 1;
      unit = "V";
      device_class = "voltage";
      state_class = "measurement";
      icon = "mdi:transmission-tower";
      component = "sensor";
      group = fast;
      entity = "diagnostic";
    }
    ∷ record (blank F) {
      id = "grid_current";
      name = "Grid Current";
      address = 0x0214;
      count = 1;
      value_type = uint16;
      scale = F.ratio 1 1;
      precision = 1;
      unit = "A";
      device_class = "current";
      state_class = "measurement";
      icon = "mdi:transmission-tower";
      component = "sensor";
      group = fast;
      entity = "diagnostic";
    }
    ∷ record (blank F) {
      id = "grid_frequency";
      name = "Grid Frequency";
      address = 0x0215;
      count = 1;
      value_type = uint16;
      scale = F.ratio 1 2;
      precision = 2;
      unit = "Hz";
      device_class = "frequency";
      state_class = "measurement";
      icon = "mdi:sine-wave";
      component = "sensor";
      group = fast;
      entity = "diagnostic";
    }
    ∷ record (blank F) {
      id = "inverter_voltage";
      name = "Inverter Voltage";
      address = 0x0216;
      count = 1;
      value_type = uint16;
      scale = F.ratio 1 1;
      precision = 1;
      unit = "V";
      device_class = "voltage";
      state_class = "measurement";
      icon = "mdi:flash";
      component = "sensor";
      group = fast;
      entity = "diagnostic";
    }
    ∷ record (blank F) {
      id = "inverter_frequency";
      name = "Inverter Frequency";
      address = 0x0218;
      count = 1;
      value_type = uint16;
      scale = F.ratio 1 2;
      precision = 2;
      unit = "Hz";
      device_class = "frequency";
      state_class = "measurement";
      icon = "mdi:sine-wave";
      component = "sensor";
      group = fast;
      entity = "diagnostic";
    }
    ∷ []

-- ===== src/Registers/Catalog/Phases.antt =====
-- internal/registers/catalog.go: the registers of strings of panels and of phases.
use srne_inverter_to_mqtt.Base.{ℕ, String, true}
use srne_inverter_to_mqtt.Base.Float.{Float64}
use srne_inverter_to_mqtt.Registers.Types.{Register, uint16, int16, fast, slow}
use srne_inverter_to_mqtt.Registers.Catalog.Blank.{blank}

module _ {Num : Type 0} (F : Float64 Num) where
  unfoldable pub phase_voltage_register : String → String → ℕ → String → Register Num
  phase_voltage_register id name address icon = record (blank F) {
    id = id;
    name = name;
    address = address;
    count = 1;
    value_type = uint16;
    scale = F.ratio 1 1;
    precision = 1;
    unit = "V";
    device_class = "voltage";
    state_class = "measurement";
    icon = icon;
    component = "sensor";
    group = fast;
    entity = "diagnostic";
  }

  unfoldable pub pv_voltage_register : String → String → ℕ → Register Num
  pv_voltage_register id name address = phase_voltage_register id name address "mdi:solar-power"

  unfoldable pub pv_current_register : String → String → ℕ → Register Num
  pv_current_register id name address = record (blank F) {
    id = id;
    name = name;
    address = address;
    count = 1;
    value_type = uint16;
    scale = F.ratio 1 1;
    precision = 1;
    unit = "A";
    device_class = "current";
    state_class = "measurement";
    icon = "mdi:solar-power";
    component = "sensor";
    group = fast;
    entity = "diagnostic";
  }

  unfoldable pub pv_power_register : String → String → ℕ → Register Num
  pv_power_register id name address = record (blank F) {
    id = id;
    name = name;
    address = address;
    count = 1;
    value_type = uint16;
    scale = F.ratio 1 0;
    precision = 0;
    unit = "W";
    device_class = "power";
    state_class = "measurement";
    icon = "mdi:white-balance-sunny";
    component = "sensor";
    group = fast;
    entity = "diagnostic";
  }

  unfoldable pub power_sum_register : String → String → ℕ → String → Register Num
  power_sum_register id name address icon = record (blank F) {
    id = id;
    name = name;
    address = address;
    count = 1;
    value_type = uint16;
    synthetic = true;
    scale = F.ratio 1 0;
    precision = 0;
    unit = "W";
    device_class = "power";
    state_class = "measurement";
    icon = icon;
    component = "sensor";
    group = fast;
    entity = "diagnostic";
  }

  unfoldable pub phase_power_register : String → String → ℕ → Num → String → Register Num
  phase_power_register id name address scale icon = record (blank F) {
    id = id;
    name = name;
    address = address;
    count = 1;
    value_type = int16;
    scale = scale;
    precision = 0;
    unit = "W";
    device_class = "power";
    state_class = "measurement";
    icon = icon;
    component = "sensor";
    group = fast;
    entity = "diagnostic";
  }

  unfoldable pub phase_current_register : String → String → ℕ → Register Num
  phase_current_register id name address = record (blank F) {
    id = id;
    name = name;
    address = address;
    count = 1;
    value_type = uint16;
    scale = F.ratio 1 1;
    precision = 1;
    unit = "A";
    device_class = "current";
    state_class = "measurement";
    icon = "mdi:current-ac";
    component = "sensor";
    group = fast;
    entity = "diagnostic";
  }

  unfoldable pub phase_apparent_power_register : String → String → ℕ → Register Num
  phase_apparent_power_register id name address = record (blank F) {
    id = id;
    name = name;
    address = address;
    count = 1;
    value_type = uint16;
    scale = F.ratio 1 0;
    precision = 0;
    unit = "VA";
    icon = "mdi:flash-outline";
    component = "sensor";
    group = slow;
    entity = "diagnostic";
  }

-- ===== src/Registers/Catalog/Timed.antt =====
-- internal/registers/catalog.go: the registers of the clock, of timed charging and of the grid controls.
use srne_inverter_to_mqtt.Base.{ℕ, String, true, [], ◌∷◌}
use srne_inverter_to_mqtt.Base.Int.{pos, negsuc}
use srne_inverter_to_mqtt.Base.Float.{Float64}
use srne_inverter_to_mqtt.Registers.Types.{Register, uint16, int16, datetime, packed_time, slow}
use srne_inverter_to_mqtt.Registers.Catalog.Blank.{blank}

module _ {Num : Type 0} (F : Float64 Num) where
  unfoldable pub inverter_clock_register : Register Num
  inverter_clock_register = record (blank F) {
    id = "inverter_clock";
    name = "Inverter Clock";
    address = 0x020C;
    count = 3;
    value_type = datetime;
    icon = "mdi:clock-outline";
    component = "sensor";
    group = slow;
    entity = "diagnostic";
    entity_category = "diagnostic";
    raw_only = true;
  }

  unfoldable pub timed_charge_register : String → String → ℕ → Register Num
  timed_charge_register id name address = record (blank F) {
    id = id;
    name = name;
    address = address;
    count = 1;
    value_type = packed_time;
    icon = "mdi:clock-outline";
    component = "sensor";
    group = slow;
    entity = "diagnostic";
    entity_category = "diagnostic";
    raw_only = true;
  }

  unfoldable pub timed_charge_enabled_register : Register Num
  timed_charge_enabled_register = record (blank F) {
    id = "timed_utility_charging";
    name = "Timed Utility Charging";
    address = 0xE02C;
    count = 1;
    value_type = uint16;
    icon = "mdi:battery-clock-outline";
    component = "sensor";
    group = slow;
    entity = "diagnostic";
    entity_category = "diagnostic";
    raw_only = true;
    enum = (pos 0, "Disabled") ∷ (pos 1, "Enabled") ∷ [];
  }

  unfoldable pub grid_operating_mode_register : Register Num
  grid_operating_mode_register = record (blank F) {
    id = "grid_operating_mode";
    name = "Grid Operating Mode";
    address = 0xE037;
    count = 1;
    value_type = uint16;
    precision = 0;
    icon = "mdi:transmission-tower-export";
    component = "sensor";
    group = slow;
    entity = "config";
    writable = true;
    write_min = F.ratio 0 0;
    write_max = F.ratio 2 0;
    write_step = F.ratio 1 0;
    enum = (pos 0, "Disabled") ∷ (pos 1, "Grid-connected Export") ∷ (pos 2, "Anti-backflow") ∷ [];
  }

  unfoldable pub on_grid_max_power_register : Register Num
  on_grid_max_power_register = record (blank F) {
    id = "on_grid_max_power";
    name = "Grid-connected Active Power";
    address = 0xE400;
    count = 1;
    value_type = int16;
    scale = F.ratio 1 0;
    precision = 0;
    unit = "%";
    icon = "mdi:transmission-tower-export";
    component = "sensor";
    group = slow;
    entity = "config";
    writable = true;
    write_min = F.of_ℤ (negsuc 99);
    write_max = F.ratio 100 0;
    write_step = F.ratio 1 0;
  }

  unfoldable pub zero_export_power_register : Register Num
  zero_export_power_register = record (blank F) {
    id = "zero_export_power";
    name = "Zero-export Target Power";
    address = 0xE42C;
    count = 1;
    value_type = uint16;
    scale = F.ratio 1 0;
    precision = 0;
    unit = "W";
    device_class = "power";
    icon = "mdi:transmission-tower-off";
    component = "sensor";
    group = slow;
    entity = "config";
    writable = true;
    write_min = F.ratio 0 0;
    write_max = F.ratio 500 0;
    write_step = F.ratio 1 0;
  }

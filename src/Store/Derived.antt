-- ===== src/Store/Derived.antt =====
-- internal/state/store.go: `derivedTelemetry`, `switchTelemetry` and `switchSOCTelemetry`.
use srne_inverter_to_mqtt.Base.{
  ℕ, String, true, List, [], ◌∷◌, ◌++◌, map, Option, some, ◌==◌, if◌then◌else◌,
}
use srne_inverter_to_mqtt.Base.Float.{Float64}
use srne_inverter_to_mqtt.Registers.Types.{DecodedValue, float64, text, slow}
use srne_inverter_to_mqtt.Store.Values.{
  SwitchEvent, put_values, value_at, blank_value, numeric_value, newest_updated_at,
}
use srne_inverter_to_mqtt.Store.Numbers.{round_float, three_phase_power_telemetry}
use srne_inverter_to_mqtt.Store.Battery.{battery_energy_telemetry}

abbrev pub as_synthetic : {Num : Type 0} → DecodedValue Num → DecodedValue Num
as_synthetic value = record value { synthetic = true }

-- `format_time` is `time.Time.Format` with the layout of RFC 3339.
module _ {Num : Type 0} (fl : Float64 Num) (format_time : ℕ → String) where
  unfoldable pub switch_telemetry :
      String → String → ℕ → String → SwitchEvent Num → List (DecodedValue Num)
  switch_telemetry id name address icon event =
      if event.at == 0
      then []
      else record (blank_value fl) {
        id = id;
        name = name;
        address = address;
        group = slow;
        component = "sensor";
        entity = "diagnostic";
        device_class = "timestamp";
        icon = icon;
        value = text (format_time event.at);
        rendered = format_time event.at;
        updated_at = event.updated_at;
      }
        ∷ []

  unfoldable pub switch_soc_telemetry :
      String → String → ℕ → String → SwitchEvent Num → List (DecodedValue Num)
  switch_soc_telemetry id name address icon event =
      let soc = round_float fl event.soc 0 in
      if event.at == 0
      then []
      else record (blank_value fl) {
        id = id;
        name = name;
        address = address;
        group = slow;
        component = "sensor";
        entity = "diagnostic";
        unit = "%";
        device_class = "battery";
        icon = icon;
        value = float64 soc;
        rendered = fl.format soc 0;
        updated_at = event.updated_at;
      }
        ∷ []

  unfoldable pub energy_balance : Num → Num → Num → Num → ℕ → List (DecodedValue Num)
  energy_balance produced imported consumed exported updated_at =
      let input = fl.add produced imported in
      let output = fl.add consumed exported in
      let losses = round_float fl (fl.sub input output) 1 in
      let efficiency = round_float fl (fl.mul (fl.div output input) (fl.ratio 100 0)) 1 in
      if fl.lt (fl.ratio 0 0) input
      then record (blank_value fl) {
        id = "system_energy_losses_total";
        name = "System Energy Losses Total";
        address = 0xFFF0;
        group = slow;
        component = "sensor";
        entity = "diagnostic";
        unit = "kWh";
        device_class = "energy";
        state_class = "total_increasing";
        icon = "mdi:transmission-tower-off";
        value = float64 losses;
        rendered = fl.format losses 1;
        updated_at = updated_at;
      }
        ∷ record (blank_value fl) {
          id = "system_energy_efficiency_total";
          name = "System Energy Efficiency Total";
          address = 0xFFF1;
          group = slow;
          component = "sensor";
          entity = "diagnostic";
          unit = "%";
          icon = "mdi:percent-outline";
          value = float64 efficiency;
          rendered = fl.format efficiency 1;
          updated_at = updated_at;
        }
        ∷ []
      else []

  -- Only when all four totals are numbers.
  unfoldable pub energy_balance_of :
      Option Num → Option Num → Option Num → Option Num → ℕ → List (DecodedValue Num)
  energy_balance_of (some produced) (some imported) (some consumed) (some exported) updated_at =
      energy_balance produced imported consumed exported updated_at
  energy_balance_of _ _ _ _ updated_at = []

  unfoldable pub derived_telemetry :
      List (DecodedValue Num) → SwitchEvent Num → SwitchEvent Num → List (DecodedValue Num)
  derived_telemetry values last_switch_grid last_switch_batt =
      let index = put_values values [] in
      let produced = value_at fl index "total_production" in
      let imported = value_at fl index "total_energy_import" in
      let consumed = value_at fl index "total_load_consumption" in
      let exported = value_at fl index "total_energy_export" in
      map as_synthetic (
        energy_balance_of (numeric_value fl produced) (numeric_value fl imported)
          (numeric_value fl consumed) (numeric_value fl exported)
          (newest_updated_at (produced ∷ imported ∷ consumed ∷ exported ∷ []))
        ++ three_phase_power_telemetry fl index
        ++ battery_energy_telemetry fl index
        ++ switch_telemetry "last_switch_to_grid_at" "Last Switch To Grid At" 0xFFF2
            "mdi:transmission-tower-import" last_switch_grid
        ++ switch_soc_telemetry "last_switch_to_grid_soc" "Last Switch To Grid SOC" 0xFFF3
            "mdi:battery-arrow-down" last_switch_grid
        ++ switch_telemetry "last_switch_to_battery_at" "Last Switch To Battery At" 0xFFF4
            "mdi:battery-arrow-up" last_switch_batt
        ++ switch_soc_telemetry "last_switch_to_battery_soc" "Last Switch To Battery SOC" 0xFFF5
            "mdi:battery-heart-variant" last_switch_batt)

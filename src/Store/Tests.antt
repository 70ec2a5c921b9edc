-- ===== src/Store/Tests.antt =====
-- Runs of the store on a machine that turns from the inverter to the grid.
use mathlib.Core.List.{Perm}
use srne_inverter_to_mqtt.Base.{ℕ, String, List, [], ◌∷◌, ◌++◌, All, ◌≡◌, refl}
use srne_inverter_to_mqtt.Base.Whole.{whole_numbers}
use srne_inverter_to_mqtt.Registers.Types.{DecodedValue, int64, text}
use srne_inverter_to_mqtt.Base.Int.{pos}
use srne_inverter_to_mqtt.Store.Values.{
  Telemetry, upsert_telemetry, lookup_value, value_at, new_telemetry, blank_value, put_values,
  put_value, switch_event, switch_soc, first_with_id, record_switch, newest_updated_at,
  numeric_value, number_of,
}
use srne_inverter_to_mqtt.Store.ValueLaws.{last_with_id, lookup-upsert_telemetry}
use srne_inverter_to_mqtt.Store.SwitchLaws.{IsSwitch, upsert_telemetry-IsSwitch}
use srne_inverter_to_mqtt.Store.Derived.{derived_telemetry}
use srne_inverter_to_mqtt.Store.View.{snapshot, values_in}
use srne_inverter_to_mqtt.Store.ViewLaws.{Ordered, IsSynthetic, snapshot-Ordered}

abbrev machine_state : String → ℕ → DecodedValue ℕ
machine_state state now = record (blank_value whole_numbers) {
  id = "machine_state";
  rendered = state;
  value = text state;
  updated_at = now;
}

abbrev charge : ℕ → ℕ → DecodedValue ℕ
charge soc now = record (blank_value whole_numbers) {
  id = "battery_soc";
  value = int64 (pos soc);
  updated_at = now;
}

abbrev on_battery : Telemetry ℕ
on_battery = record (new_telemetry whole_numbers) {
  values = ("machine_state", machine_state "Inverter Operation" 5) ∷ [];
}

abbrev to_grid : List (DecodedValue ℕ)
to_grid = machine_state "AC Power Operation" 9 ∷ charge 44 8 ∷ []

-- The switch is recorded with its moment and the charge that came with it.
switched_to_grid :
    (upsert_telemetry whole_numbers to_grid on_battery).last_switch_grid
    ≡ record { at = 9; soc = 44; updated_at = 9 }
unfolding upsert_telemetry put_values put_value value_at lookup_value switch_event switch_soc
    first_with_id record_switch newest_updated_at numeric_value number_of new_telemetry
switched_to_grid = refl

lookup-upsert_telemetry_example :
    lookup_value (upsert_telemetry whole_numbers to_grid on_battery).values "battery_soc"
    ≡ last_with_id "battery_soc" to_grid (lookup_value on_battery.values "battery_soc")
lookup-upsert_telemetry_example =
    lookup-upsert_telemetry whole_numbers to_grid on_battery "battery_soc"

upsert_telemetry-IsSwitch_example :
    let before = value_at whole_numbers on_battery.values "machine_state" in
    let after =
      value_at whole_numbers
        (upsert_telemetry whole_numbers to_grid on_battery).values
        "machine_state" in
    IsSwitch whole_numbers "AC Power Operation" before after on_battery.last_switch_grid
      (upsert_telemetry whole_numbers to_grid on_battery).last_switch_grid
    × IsSwitch whole_numbers "Inverter Operation" before after on_battery.last_switch_batt
        (upsert_telemetry whole_numbers to_grid on_battery).last_switch_batt
upsert_telemetry-IsSwitch_example = upsert_telemetry-IsSwitch whole_numbers to_grid on_battery

abbrev no_text : ℕ → String
no_text t = ""

snapshot-Ordered_example :
    let derived =
      derived_telemetry whole_numbers no_text
        (values_in on_battery.values)
        on_battery.last_switch_grid
        on_battery.last_switch_batt in
    Perm
      (snapshot whole_numbers no_text [] on_battery).telemetry
      (values_in on_battery.values ++ derived)
    × Ordered (snapshot whole_numbers no_text [] on_battery).telemetry
    × All IsSynthetic derived
snapshot-Ordered_example = snapshot-Ordered whole_numbers no_text [] on_battery

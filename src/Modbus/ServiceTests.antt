-- ===== src/Modbus/ServiceTests.antt =====
-- Runs of writes of one register and of polls on small devices.
use srne_inverter_to_mqtt.Base.{
  ℕ, ◌≤◌, ◌≡◌, refl, String, true, List, [], ◌∷◌, map, length, All, none, ok, err, arith,
}
use srne_inverter_to_mqtt.Base.Whole.{whole_numbers}
use srne_inverter_to_mqtt.Registers.Types.{Register, ReadRange, DecodedValue}
use srne_inverter_to_mqtt.Store.Values.{new_telemetry, blank_value}
use srne_inverter_to_mqtt.Modbus.Types.{Link, Bus}
use srne_inverter_to_mqtt.Modbus.Service.{Service, lookup_register, state_of}
use srne_inverter_to_mqtt.Modbus.Thresholds.{validate_write}
use srne_inverter_to_mqtt.Modbus.ThresholdLaws.{
  Thresholds, IsSpaced, Shows, put_threshold, validate_write-IsSpaced,
}
use srne_inverter_to_mqtt.Modbus.Writing.{write_register}
use srne_inverter_to_mqtt.Modbus.WriteOutcomes.{IsWritten, write_register-IsWritten}
use srne_inverter_to_mqtt.Modbus.Polling.{poll_ranges, empty_cycle}
use srne_inverter_to_mqtt.Modbus.PollingLaws.{IsOf, value_id, poll_ranges-registers_of}
use srne_inverter_to_mqtt.Modbus.UnreachableLaws.{IsUnreachable, poll_ranges-unreachable}
use srne_inverter_to_mqtt.Base.Int.{pos}
use srne_inverter_to_mqtt.Base.Letters.{means, is_empty, equal_fold}
use srne_inverter_to_mqtt.Config.Endpoint.{
  normalized_inverter_type, connection_mode, tcp_address, tcp_rest, is_tcp_port,
}
use srne_inverter_to_mqtt.Registers.Types.{uint16, text}
use srne_inverter_to_mqtt.Registers.Words.{words_from_bytes, words_of_bytes, raw_value, raw_of_type}
use srne_inverter_to_mqtt.Registers.Decode.{decode, value_of, is_empty_map, enum_value, label_of}
use srne_inverter_to_mqtt.Registers.Write.{
  encode_write, enum_raw_value, raw_of_label, checked_uint16,
}
use srne_inverter_to_mqtt.Registers.Catalog.Blank.{blank}
use srne_inverter_to_mqtt.Registers.Catalog.Battery.{battery_and_solar_registers}
use srne_inverter_to_mqtt.Registers.Catalog.Grid.{grid_and_inverter_registers}
use srne_inverter_to_mqtt.Registers.Catalog.Load.{load_and_charge_voltage_registers}
use srne_inverter_to_mqtt.Registers.Catalog.Limits.{charge_limit_registers}
use srne_inverter_to_mqtt.Registers.Catalog.Controls.{control_registers}
use srne_inverter_to_mqtt.Registers.Catalog.Switches.{switch_registers}
use srne_inverter_to_mqtt.Registers.Catalog.Selection.{
  base_catalog, catalog_for_inverter_type, is_three_phase_inverter_type, normalize_inverter_type,
}
use srne_inverter_to_mqtt.Registers.Catalog.Queries.{find_in, find_by_id_for_inverter_type}
use srne_inverter_to_mqtt.Modbus.Connection.{
  ensure_client, open_client, reopen, keep_client, close_locked, wrap_connect, call,
  read_holding_with_retry,
}
use srne_inverter_to_mqtt.Modbus.Holding.{unlock_before_write}
use srne_inverter_to_mqtt.Modbus.Service.{decode_payload}
use srne_inverter_to_mqtt.Modbus.Writing.{
  write_found, with_client, encode_and_send, send_register, settle_write, after_write, read_back,
  confirm_decoded, confirm,
}
use srne_inverter_to_mqtt.Registers.Types.{int64}
use srne_inverter_to_mqtt.Registers.Catalog.Queries.{
  sort_values, insert_value, comes_before, same_group,
}
use srne_inverter_to_mqtt.Store.View.{snapshot}
use srne_inverter_to_mqtt.Store.Values.{
  put_values, put_value, value_at, lookup_value, numeric_value, number_of,
}
use srne_inverter_to_mqtt.Store.Numbers.{
  three_phase_power_telemetry, phase_power_sum_telemetry, sum_phases, add_phase,
}
use srne_inverter_to_mqtt.Store.Battery.{
  battery_energy_telemetry, battery_energy_at, nominal_battery_voltage, label_text, fields,
  last_of_two, cell_count, voltage_of,
}
use srne_inverter_to_mqtt.Store.Derived.{
  derived_telemetry, energy_balance_of, switch_telemetry, switch_soc_telemetry,
}
use srne_inverter_to_mqtt.Modbus.Types.{connect_failed}
use srne_inverter_to_mqtt.Modbus.Service.{raw_from_snapshot, in_uint16, current_register_raw}
use srne_inverter_to_mqtt.Modbus.Thresholds.{check_alarm, check_against, with_gap}
use srne_inverter_to_mqtt.Modbus.Polling.{
  read_range, decode_bytes, decode_range, decode_register, note_decoded, note_value, decode_at,
}
use srne_inverter_to_mqtt.Modbus.Tests.{one_block, one_block-HoldsWords, settings}

abbrev no_text : ℕ → String
no_text t = ""

abbrev idle : Service (List ℕ) (Unit {0}) ℕ
idle = record {
  bus = record { key = []; client = none; services = []; outside = [] };
  store = new_telemetry whole_numbers;
}

abbrev buzzer_alarm : Register ℕ
buzzer_alarm = record (blank whole_numbers) {
  id = "buzzer_alarm";
  name = "Buzzer Alarm";
  address = 0xE210;
  count = 1;
  value_type = uint16;
  icon = "mdi:volume-high";
  component = "sensor";
  entity = "config";
  writable = true;
  write_max = 1;
  write_step = 1;
  enum = (pos 0, "Disabled") ∷ (pos 1, "Enabled") ∷ [];
}

buzzer_known :
    lookup_register one_block whole_numbers no_text settings "buzzer_alarm" ≡ ok buzzer_alarm
unfolding lookup_register normalized_inverter_type means find_by_id_for_inverter_type find_in
    catalog_for_inverter_type is_three_phase_inverter_type normalize_inverter_type base_catalog
    battery_and_solar_registers grid_and_inverter_registers load_and_charge_voltage_registers
    charge_limit_registers control_registers switch_registers
buzzer_known = refl

buzzer_written :
    (write_register one_block whole_numbers no_text settings "buzzer_alarm" (text "enabled") idle).0
    ≡ ok tt
unfolding write_register write_found with_client encode_and_send send_register settle_write
    after_write read_back confirm_decoded confirm decode_payload validate_write encode_write
    enum_raw_value raw_of_label equal_fold checked_uint16 decode raw_value raw_of_type value_of
    is_empty_map enum_value label_of is_empty ensure_client reopen keep_client open_client
    connection_mode means tcp_address tcp_rest is_tcp_port wrap_connect call read_holding_with_retry
    close_locked unlock_before_write words_from_bytes words_of_bytes
buzzer_written = rw (buzzer_known, write_register) refl

write_register-IsWritten_example :
    IsWritten one_block whole_numbers no_text settings one_block-HoldsWords buzzer_alarm
      (text "enabled")
      (write_register one_block whole_numbers no_text settings "buzzer_alarm"
        (text "enabled")
        idle).1
write_register-IsWritten_example =
    write_register-IsWritten one_block whole_numbers no_text settings one_block-HoldsWords
      "buzzer_alarm" (text "enabled") idle buzzer_alarm buzzer_known refl buzzer_written

abbrev threshold : String → ℕ → ℕ → String × DecodedValue ℕ
threshold id address value = (
  id,
  record (blank_value whole_numbers) {
    id = id;
    address = address;
    raw = pos value;
    value = int64 (pos value);
  },
)

abbrev with_thresholds : Service (List ℕ) (Unit {0}) ℕ
with_thresholds = record idle {
  store = record (new_telemetry whole_numbers) {
    values =
        threshold "battery_discharge_cutoff_soc" 0xE00F 20
        ∷ threshold "battery_low_soc_alarm" 0xE011 30
        ∷ threshold "battery_discharge_stop" 0xE01F 35
        ∷ threshold "battery_discharge_start" 0xE020 50
        ∷ [];
  };
}

abbrev four_thresholds : Thresholds
four_thresholds = record { cutoff = 20; alarm = 30; stop = 35; start = 50 }

abbrev alarm_register : Register ℕ
alarm_register = record (blank whole_numbers) {
  id = "battery_low_soc_alarm";
  address = 0xE011;
  count = 1;
  value_type = uint16;
  writable = true;
}

thresholds_shown :
    Shows (state_of one_block whole_numbers no_text settings with_thresholds) four_thresholds
unfolding new_telemetry snapshot raw_from_snapshot in_uint16 sort_values insert_value comes_before
    same_group derived_telemetry put_values put_value value_at lookup_value numeric_value number_of
    energy_balance_of three_phase_power_telemetry phase_power_sum_telemetry sum_phases add_phase
    battery_energy_telemetry battery_energy_at nominal_battery_voltage label_text fields last_of_two
    cell_count voltage_of switch_telemetry switch_soc_telemetry
thresholds_shown = record { cutoff = refl; alarm = refl; stop = refl; start = refl }

alarm_allowed :
    (validate_write one_block whole_numbers no_text settings alarm_register 40 with_thresholds).0
    ≡ ok tt
unfolding validate_write check_alarm check_against current_register_raw with_gap new_telemetry
    snapshot raw_from_snapshot in_uint16 sort_values insert_value comes_before same_group
    derived_telemetry put_values put_value value_at lookup_value numeric_value number_of
    energy_balance_of three_phase_power_telemetry phase_power_sum_telemetry sum_phases add_phase
    battery_energy_telemetry battery_energy_at nominal_battery_voltage label_text fields last_of_two
    cell_count voltage_of switch_telemetry switch_soc_telemetry
alarm_allowed = refl

validate_write-IsSpaced_example :
    IsSpaced (put_threshold "battery_low_soc_alarm" 40 four_thresholds)
validate_write-IsSpaced_example =
    validate_write-IsSpaced one_block whole_numbers no_text settings alarm_register 40
      with_thresholds four_thresholds thresholds_shown (ground arith) (omega arith) (ground arith)
      alarm_allowed

abbrev buzzer_plan : List (ReadRange ℕ)
buzzer_plan = record { start = 0xE210; count = 1; registers = buzzer_alarm ∷ [] } ∷ []

abbrev enabled_bus : Bus (List ℕ) (Unit {0})
enabled_bus = record idle.bus { outside = 0 ∷ 1 ∷ [] }

buzzer_polled :
    (poll_ranges one_block whole_numbers settings true 7 buzzer_plan enabled_bus
      (empty_cycle one_block whole_numbers settings)).0.errors
    ≡ []
unfolding poll_ranges read_range decode_bytes decode_range decode_register note_decoded note_value
    decode_at decode raw_value raw_of_type value_of is_empty_map enum_value label_of ensure_client
    reopen keep_client open_client connection_mode means tcp_address tcp_rest is_tcp_port
    wrap_connect call read_holding_with_retry close_locked words_from_bytes words_of_bytes
buzzer_polled = refl

poll_ranges-registers_of_example :
    (map value_id
        (poll_ranges one_block whole_numbers settings true 7 buzzer_plan enabled_bus
          (empty_cycle one_block whole_numbers settings)).0.values
      ≡ "buzzer_alarm" ∷ [])
    × All
        (IsOf 7)
        (poll_ranges one_block whole_numbers settings true 7 buzzer_plan enabled_bus
          (empty_cycle one_block whole_numbers settings)).0.values
poll_ranges-registers_of_example =
    poll_ranges-registers_of one_block whole_numbers settings 7 true buzzer_plan enabled_bus
      buzzer_polled

-- The same device behind a port that never opens.
abbrev no_port : Link (List ℕ) (Unit {0}) String
no_port = record one_block {
  connect_serial = λ c parity slave s. (err "no port", s);
  connect_rtu_over_tcp = λ address slave timeout s. (err "no port", s);
  connect_modbus_tcp = λ address timeout slave s. (err "no port", s);
}

no_port-IsUnreachable : IsUnreachable no_port whole_numbers settings 7
unfolding open_client connection_mode means tcp_address tcp_rest is_tcp_port wrap_connect
no_port-IsUnreachable s = (connect_failed "no port", refl)

poll_ranges-unreachable_example :
    ((poll_ranges no_port whole_numbers settings true 7 buzzer_plan idle.bus
        (empty_cycle no_port whole_numbers settings)).0.values
      ≡ [])
    × (length
          (poll_ranges no_port whole_numbers settings true 7 buzzer_plan idle.bus
            (empty_cycle no_port whole_numbers settings)).0.errors
        ≤ 3)
poll_ranges-unreachable_example =
    poll_ranges-unreachable no_port whole_numbers settings 7 true buzzer_plan idle.bus
      no_port-IsUnreachable refl

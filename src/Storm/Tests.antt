-- ===== src/Storm/Tests.antt =====
-- Runs of the manager on the small world.
use srne_inverter_to_mqtt.Base.{
  some, none, ℕ, String, true, false, ◌≡◌, refl, [], ◌∷◌, none, ok, err, ◌⊎◌,
}
use srne_inverter_to_mqtt.Base.Int.{pos}
use srne_inverter_to_mqtt.Base.Whole.{whole_numbers}
use srne_inverter_to_mqtt.Registers.Types.{DecodedValue, fast, float64}
use srne_inverter_to_mqtt.Store.Types.{Snapshot}
use srne_inverter_to_mqtt.Storm.Types.{Runtime, cancelled, manual_cancel, PreviousSettings, Machine}
use srne_inverter_to_mqtt.Storm.World.{
  accept_runtime, no_phase, load, save_steps, now, save_locked, outside,
}
use srne_inverter_to_mqtt.Storm.Manager.{
  start, cancel, restore_locked, empty_runtime, update, save_ignoring, restore_end, restore_done,
  settle_restore, check_start, check_soc, check_bms_limit, previous_settings, with_previous,
  begin_session, new_session, settle_record, settle_apply, confirm_start, settle_confirm,
}
use srne_inverter_to_mqtt.Base.State.{◌>>=◌, ◌>>◌, gets, modify, pure}
use srne_inverter_to_mqtt.Storm.Registers.{
  restore_settings, restore_schedule, write_setting, failures, apply_storm_settings, and_then,
  write_timed_charge_schedule, write_slots, write_enable,
}
use srne_inverter_to_mqtt.Storm.Telemetry.{
  validate_settings, required_numeric, optional_numeric, find_value, numeric_of, require_grid,
  require_voltage,
}
use srne_inverter_to_mqtt.Storm.Evaluate.{evaluate}
use srne_inverter_to_mqtt.Storm.Disk.{Stored, save_steps_lem}
use srne_inverter_to_mqtt.Storm.Session.{IsRecoverable}
use srne_inverter_to_mqtt.Storm.Steps.{
  RestoredOrSafe, cancel-RestoredOrSafe, evaluate-RestoredOrSafe,
}
use srne_inverter_to_mqtt.Storm.Start.{start-EndedOrSafe}
use srne_inverter_to_mqtt.Storm.Restart.{
  IsEnded, LoadedFrom, load-LoadedFrom, restore_locked-IsEnded,
}
use srne_inverter_to_mqtt.Storm.Sample.{
  Failure, old_settings, running_runtime, Files, one_world, idle_runtime, disk_laws,
}
use srne_inverter_to_mqtt.Storm.SampleSession.{with_session, machine, running-IsRecoverable}

abbrev shown : String → ℕ → DecodedValue ℕ
shown id n = record {
  id = id;
  name = id;
  address = 0;
  group = fast;
  component = "sensor";
  entity = "";
  entity_category = "";
  writable = false;
  write_only = false;
  synthetic = false;
  raw_only = false;
  unit = "";
  device_class = "";
  state_class = "";
  icon = "";
  raw = pos n;
  raw_words = n ∷ [];
  value = float64 n;
  rendered = "";
  write_min = 0;
  write_max = 0;
  write_step = 0;
  options = [];
  updated_at = 0;
}

-- What `Start` and `evaluate` ask for: a battery at 60 %, and a grid in range.
abbrev at_sixty : Snapshot ℕ
at_sixty = record {
  services =
      (
        "modbus",
        record {
          name = "modbus";
          status = "connected";
          connected = true;
          last_error = "";
          last_success = 0;
          updated_at = 0;
        },
      )
      ∷ [];
  telemetry =
      shown "battery_soc" 60
      ∷ shown "grid_voltage_phase_a" 230
      ∷ shown "grid_voltage_phase_b" 231
      ∷ shown "grid_voltage_phase_c" 229
      ∷ shown "grid_frequency" 50
      ∷ shown "battery_charge_cutoff_soc" 90
      ∷ shown "mains_charge_current_limit" 20
      ∷ shown "fault_code_1" 0
      ∷ shown "fault_code_2" 0
      ∷ [];
}

idle_inactive : idle_runtime.active ≡ false
unfolding empty_runtime
idle_inactive = refl

abbrev empty_files : Files
empty_files = λ p. none

cancel-RestoredOrSafe_example :
    RestoredOrSafe one_world whole_numbers disk_laws "storm.yaml" old_settings
      (cancel one_world whole_numbers (machine running_runtime false)).1
cancel-RestoredOrSafe_example =
    cancel-RestoredOrSafe one_world whole_numbers disk_laws "storm.yaml" old_settings
      (machine running_runtime false) running-IsRecoverable

evaluate-RestoredOrSafe_example :
    RestoredOrSafe one_world whole_numbers disk_laws "storm.yaml" old_settings
      (evaluate one_world whole_numbers at_sixty (machine running_runtime false)).1
evaluate-RestoredOrSafe_example =
    evaluate-RestoredOrSafe one_world whole_numbers disk_laws "storm.yaml" old_settings at_sixty
      (machine running_runtime false) running-IsRecoverable

save_steps_lem_example :
    let r = save_steps one_world "storm.yaml" running_runtime empty_files in
    ((r.0 ≡ ok tt) × Stored one_world disk_laws "storm.yaml" running_runtime r.1)
    ⊎ ((e : Failure) × (r.0 ≡ err e)
        × (disk_laws.file r.1 "storm.yaml" ≡ disk_laws.file empty_files "storm.yaml"))
save_steps_lem_example = save_steps_lem one_world disk_laws "storm.yaml" running_runtime empty_files

started :
    (start one_world whole_numbers at_sixty running_runtime.settings
      (machine idle_runtime false)).1.runtime
    ≡ running_runtime
unfolding start ◌>>=◌ ◌>>◌ update modify now save_ignoring save_locked outside save_steps gets pure
    restore_settings restore_schedule write_setting failures empty_runtime check_start check_soc
    check_bms_limit validate_settings required_numeric optional_numeric find_value numeric_of
    require_grid require_voltage previous_settings with_previous begin_session new_session
    settle_record apply_storm_settings and_then write_timed_charge_schedule write_slots write_enable
    settle_apply confirm_start settle_confirm
started = refl

start-EndedOrSafe_example :
    let r =
      start one_world whole_numbers at_sixty running_runtime.settings
        (machine idle_runtime false) in
    (r.1.runtime.active ≡ false)
    ⊎ ((previous : PreviousSettings ℕ) × IsRecoverable one_world whole_numbers disk_laws
          "storm.yaml" previous r.1)
start-EndedOrSafe_example =
    start-EndedOrSafe one_world whole_numbers disk_laws at_sixty running_runtime.settings
      (machine idle_runtime false) idle_inactive

restored :
    (restore_locked one_world whole_numbers cancelled manual_cancel
      (machine running_runtime false)).0
    ≡ ok tt
unfolding restore_locked ◌>>=◌ ◌>>◌ update modify now save_ignoring save_locked outside save_steps
    gets pure restore_settings restore_schedule write_setting failures restore_end restore_done
    settle_restore
restored = refl

restore_locked-IsEnded_example :
    (s : Files) × ((restore_settings one_world old_settings s).0 ≡ [])
    × IsEnded one_world whole_numbers disk_laws "storm.yaml" cancelled
        (restore_locked one_world whole_numbers cancelled manual_cancel
          (machine running_runtime false)).1
restore_locked-IsEnded_example =
    restore_locked-IsEnded one_world whole_numbers disk_laws cancelled manual_cancel
      (machine running_runtime false) restored

abbrev resumed : Machine Files Failure ℕ
resumed = machine running_runtime true

loaded : load one_world (machine idle_runtime false) ≡ ok resumed
unfolding load accept_runtime no_phase
loaded = refl

load-LoadedFrom_example :
    ((one_world.read_file "storm.yaml" with_session ≡ ok none)
      × (resumed ≡ machine idle_runtime false))
    ⊎ ((bytes : String) × (r : Runtime Failure ℕ) × (one_world.read_file "storm.yaml" with_session
          ≡ ok (some bytes))
        × (one_world.unmarshal bytes idle_runtime ≡ ok r)
        × LoadedFrom r (machine idle_runtime false) resumed)
load-LoadedFrom_example = load-LoadedFrom one_world (machine idle_runtime false) resumed loaded

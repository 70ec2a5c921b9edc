-- ===== src/App/Tests.antt =====
-- Runs of the application's operations in the small world of a running session.
use srne_inverter_to_mqtt.Base.{ℕ, false, [], err, ok, refl, inr}
use srne_inverter_to_mqtt.Base.Whole.{whole_numbers}
use srne_inverter_to_mqtt.Base.Letters.{means, is_empty}
use srne_inverter_to_mqtt.Config.Types.{default_config}
use srne_inverter_to_mqtt.Config.Endpoint.{
  normalized_inverter_type, connection_mode, tcp_address, tcp_rest, is_tcp_port,
}
use srne_inverter_to_mqtt.Config.Validate.{
  validate, validate_serial, validate_polling, validate_storm, outside,
}
use srne_inverter_to_mqtt.Config.Disk.{ConfigFiles}
use srne_inverter_to_mqtt.Registers.Types.{float64}
use srne_inverter_to_mqtt.Store.Types.{Snapshot}
use srne_inverter_to_mqtt.Storm.Evaluate.{evaluate}
use srne_inverter_to_mqtt.Storm.Sample.{
  Failure, Files, one_world, disk_laws, running_runtime, old_settings,
}
use srne_inverter_to_mqtt.Storm.SampleSession.{machine, running-IsRecoverable}
use srne_inverter_to_mqtt.App.Operations.{App, update_config, write_register, cancel_storm_charge}
use srne_inverter_to_mqtt.App.Steps.{Reach, here, next, tick, cancel_storm, write, IsSound}
use srne_inverter_to_mqtt.App.Reach.{Reach-IsSound}

-- A disk that is full.
abbrev full_disk : ConfigFiles Files Failure ℕ
full_disk = record {
  mkdir_all = λ p s. (ok tt, s);
  write_file = λ p c s. (err tt, s);
  rename = λ p q s. (err tt, s);
  read_file = λ p s. ok (s p);
  marshal = λ cfg. ok "configuration";
  unmarshal = λ c cfg. err tt;
}

abbrev running_app : App Files Failure ℕ
running_app = record {
  config_path = "srne.yaml";
  cfg = default_config whole_numbers;
  machine = machine running_runtime false;
}

abbrev no_telemetry : Snapshot ℕ
no_telemetry = record { services = []; telemetry = [] }

running-IsSound : IsSound one_world full_disk whole_numbers disk_laws running_app
unfolding validate is_empty normalized_inverter_type means validate_serial outside connection_mode
    tcp_address tcp_rest is_tcp_port validate_polling validate_storm
running-IsSound = record {
  valid = refl;
  settled = inr ("storm.yaml", old_settings, running-IsRecoverable);
}

abbrev refused : App Files Failure ℕ
refused =
    (write_register one_world full_disk whole_numbers "mains_charge_current_limit" (float64 20)
      running_app).1

abbrev ticked : App Files Failure ℕ
ticked = record refused {
  machine = (evaluate one_world whole_numbers no_telemetry refused.machine).1;
}

abbrev cancelled_app : App Files Failure ℕ
cancelled_app = (cancel_storm_charge one_world full_disk whole_numbers ticked).1

-- A write of a managed register, an evaluation of the manager, and the end of the session.
reached : Reach one_world full_disk whole_numbers disk_laws running_app cancelled_app
reached =
    next (next (next here (write "mains_charge_current_limit" (float64 20))) (tick no_telemetry))
      cancel_storm

Reach-IsSound_example : IsSound one_world full_disk whole_numbers disk_laws cancelled_app
Reach-IsSound_example =
    Reach-IsSound one_world full_disk whole_numbers disk_laws running-IsSound reached

abbrev configured : App Files Failure ℕ
configured =
    (update_config one_world full_disk whole_numbers
      (record running_app.cfg { http = record { listen = "0.0.0.0:80" } }) running_app).1

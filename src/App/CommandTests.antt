-- ===== src/App/CommandTests.antt =====
-- Commands over MQTT while a storm charge session runs.
use package.text.Mathlib.Text.{◌==◌ as str_eq}
use srne_inverter_to_mqtt.Mqtt.RouteLaws.{Writes, on_message-Writes}
use srne_inverter_to_mqtt.Base.{
  All, ℕ, String, true, false, none, some, List, [], ok, err, ◌+◌, ◌≡◌, refl,
}
use srne_inverter_to_mqtt.Base.Int.{pos}
use srne_inverter_to_mqtt.Base.Letters.{same_codes}
use srne_inverter_to_mqtt.Base.Whole.{whole_numbers}
use srne_inverter_to_mqtt.Config.Types.{Config, default_config}
use srne_inverter_to_mqtt.Config.Disk.{ConfigFiles}
use srne_inverter_to_mqtt.Store.Types.{Snapshot}
use srne_inverter_to_mqtt.Storm.Sample.{Failure, Files, one_world, running_runtime}
use srne_inverter_to_mqtt.Storm.SampleSession.{machine}
use srne_inverter_to_mqtt.Mqtt.Types.{Broker, Mqtt}
use srne_inverter_to_mqtt.Mqtt.Topics.{command_topic}
use srne_inverter_to_mqtt.Mqtt.Provider.{StormStatus}
use srne_inverter_to_mqtt.Mqtt.Commands.{
  catalog_for_config, trimmed, to_upper, is_upper, handle_storm_charge_command,
}
use srne_inverter_to_mqtt.App.Operations.{App}
use srne_inverter_to_mqtt.App.Commands.{app_provider, handle_storm_charge_command-active}

abbrev settings : Config ℕ
settings = default_config whole_numbers

-- Files that cannot be written.
abbrev read_only : ConfigFiles Files Failure ℕ
read_only = record {
  mkdir_all = λ p s. (ok tt, s);
  write_file = λ p c s. (err tt, s);
  rename = λ p q s. (err tt, s);
  read_file = λ p s. ok (s p);
  marshal = λ cfg. ok "configuration";
  unmarshal = λ c cfg. err tt;
}

-- A broker that counts what is published.
abbrev counting_broker : Broker ℕ (Unit {0}) (Unit {0})
counting_broker = record {
  new_client = λ c n. (tt, n);
  connect = λ c n. (ok tt, n);
  is_connection_open = λ c n. true;
  publish = λ c topic retained payload n. (ok tt, n + 1);
  disconnect = λ c n. n;
  same_client = λ c d. true;
  now = λ n. (7, n);
  error_text = λ e. "error";
}

abbrev service : Mqtt ℕ (Unit {0})
service = record {
  key = [];
  client = some tt;
  discovery_key = [];
  last_published = [];
  unhealthy_since = 0;
  services = [];
  outside = 0;
}

abbrev running_app : App Files Failure ℕ
running_app = record {
  config_path = "srne.yaml";
  cfg = settings;
  machine = machine running_runtime false;
}

abbrev shown_status : App Files Failure ℕ → StormStatus ℕ
shown_status app = record {
  active = true;
  phase = "charging";
  settings = app.machine.runtime.settings;
  deadline = none;
  remaining = "1h0m0s";
  estimated_power_watts = pos 2400;
  reason = "";
}

abbrev no_telemetry : App Files Failure ℕ → Snapshot ℕ
no_telemetry app = record { services = []; telemetry = [] }

abbrev in_order : List (String × String) → List (String × String)
in_order entries = entries

abbrev switch_topic : List ℕ
switch_topic = command_topic settings.mqtt "storm_charge"

on_not_off : is_upper (trimmed " On") "OFF" ≡ false
unfolding trimmed to_upper same_codes
on_not_off = refl

handle_storm_charge_command-active_example :
    (handle_storm_charge_command
      (app_provider one_world read_only whole_numbers no_telemetry shown_status (λ a. 7))
      counting_broker
      whole_numbers
      settings
      in_order
      switch_topic
      " On"
      running_app
      service).1
    ≡ running_app
handle_storm_charge_command-active_example =
    handle_storm_charge_command-active one_world read_only whole_numbers no_telemetry shown_status
      (λ a. 7) counting_broker settings in_order switch_topic " On" running_app service refl
      on_not_off

on_not_empty : str_eq (trimmed " On") "" ≡ false
unfolding trimmed
on_not_empty = refl

on_message-Writes_example :
    let provider =
      app_provider one_world read_only whole_numbers no_telemetry shown_status (λ a. 7) in
    All
      (Writes provider counting_broker whole_numbers settings in_order " On" running_app service)
      (catalog_for_config provider counting_broker whole_numbers settings)
on_message-Writes_example =
    on_message-Writes
      (app_provider one_world read_only whole_numbers no_telemetry shown_status (λ a. 7))
      counting_broker whole_numbers settings in_order " On" running_app service on_not_empty

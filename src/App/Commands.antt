-- ===== src/App/Commands.antt =====
-- internal/app/app.go: `App` as the `ConfigProvider` of internal/mqtt/service.go, and lemmas about
-- the commands that reach it over MQTT.
use srne_inverter_to_mqtt.Base.{ℕ, String, true, false, List, Result, ◌≡◌, refl, ap}
use srne_inverter_to_mqtt.Base.Float.{Float64}
use srne_inverter_to_mqtt.Config.Types.{Config}
use srne_inverter_to_mqtt.Config.Disk.{ConfigFiles}
use srne_inverter_to_mqtt.Store.Types.{Snapshot}
use srne_inverter_to_mqtt.Storm.World.{World}
use srne_inverter_to_mqtt.Mqtt.Types.{Broker, Mqtt}
use srne_inverter_to_mqtt.Mqtt.Provider.{StormStatus, Provider}
use srne_inverter_to_mqtt.Mqtt.Commands.{trimmed, is_upper, handle_storm_charge_command}
use srne_inverter_to_mqtt.Mqtt.CommandLaws.{handle_storm_charge_command-Good}
use srne_inverter_to_mqtt.App.Operations.{
  App, AppError, is_active, write_register, update_storm_charge_settings, start_storm_charge,
  cancel_storm_charge,
}
use srne_inverter_to_mqtt.App.Guards.{IsRefused, settings-IsRefused, start-IsRefused}

module _ {S E Num : Type 0} (w : World S E Num) (fs : ConfigFiles S E Num) (fl : Float64 Num)
    (snapshot : App S E Num → Snapshot Num) (status : App S E Num → StormStatus Num)
    (now : App S E Num → ℕ) where
  -- The snapshot of the store, the manager's status and the clock are parameters.
  abbrev pub app_provider : Provider (App S E Num) (AppError E Num) Num
  app_provider = record {
    get_config = λ app. app.cfg;
    write_register = λ id value app. write_register w fs fl id value app;
    get_storm_charge_status = status;
    update_storm_charge_settings =
        λ settings app. update_storm_charge_settings w fs fl settings app;
    start_storm_charge = λ settings app. start_storm_charge w fs fl (snapshot app) settings app;
    cancel_storm_charge = λ app. cancel_storm_charge w fs fl app;
    telemetry = λ app. (snapshot app).telemetry;
    now = now;
  }

  module _ {B C F : Type 0} (broker : Broker B C F) (cfg : Config Num)
      (order : List (String × String) → List (String × String)) where
    refused-same :
        (app : App S E Num) (r : Result (AppError E Num) (Unit {0}) × App S E Num)
        → IsRefused w fs fl app r
        → r.1 ≡ app
    refused-same app r (e, same) =
        ap (λ (x : Result (AppError E Num) (Unit {0}) × App S E Num). x.1) same

    -- With the application behind the MQTT service, while a session is active, a message that
    -- handleStormChargeCommand gets leaves the application and its world as they are, whatever its
    -- topic, unless its payload reads OFF in any case and with any blanks around it.
    pub handle_storm_charge_command-active :
        (topic : List ℕ) (payload : String) (app : App S E Num) (s : Mqtt B C)
        → is_active w fs fl app ≡ true
        → is_upper (trimmed payload) "OFF" ≡ false
        → (handle_storm_charge_command app_provider broker fl cfg order topic payload app s).1 ≡ app
    handle_storm_charge_command-active topic payload app s active not_off =
        handle_storm_charge_command-Good app_provider broker fl cfg (λ a. a ≡ app) order topic
          payload app s
          (record {
            same = refl;
            updated =
                λ settings. refused-same app _ (settings-IsRefused w fs fl app settings active);
            started = λ settings.
                refused-same app _ (start-IsRefused w fs fl app (snapshot app) settings active);
            stopped = λ off. absurd cc;
          })

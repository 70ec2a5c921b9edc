-- ===== src/App/Operations.antt =====
-- internal/app/app.go: the operations of `App` once `Run` has set the services, so that their tests
-- for nil are passed. The inverter, the disk and the clock are one world `S`.
use package.text.Mathlib.Text.{◌==◌ as str_eq}
use srne_inverter_to_mqtt.Base.{String, Bool, not, ◌&&◌, [], ◌∷◌, Result, ok, err, if◌then◌else◌}
use srne_inverter_to_mqtt.Base.Float.{Float64}
use srne_inverter_to_mqtt.Config.Types.{Config, StormChargeConfig}
use srne_inverter_to_mqtt.Config.Endpoint.{ConfigError, normalized_inverter_type}
use srne_inverter_to_mqtt.Config.Disk.{ConfigFiles, FileError, save}
use srne_inverter_to_mqtt.Registers.Types.{Value}
use srne_inverter_to_mqtt.Store.Types.{Snapshot}
use srne_inverter_to_mqtt.Clock.Codec.{DateTime}
use srne_inverter_to_mqtt.Clock.Device.{WordAccessor, ClockFailure, set_clock}
use srne_inverter_to_mqtt.Storm.Types.{Settings, Messages, Machine}
use srne_inverter_to_mqtt.Storm.World.{World}
use srne_inverter_to_mqtt.Storm.Telemetry.{is_managed_register, validate_settings}
use srne_inverter_to_mqtt.Storm.Manager.{start, cancel}

-- The configuration and the storm charge manager, with the world that all services act on.
pub record App (S E Num : Type 0) : Type 0 where
  pub config_path : String
  pub cfg : Config Num
  pub machine : Machine S E Num

pub data AppError (E Num : Type 0) : Type 0 where
  config_locked settings_locked clock_locked already_active unsupported_profile : AppError E Num
  managed_register : String → AppError E Num
  not_saved : FileError E → AppError E Num
  inverter_type : ConfigError → AppError E Num
  not_written : E → AppError E Num
  storm : Messages E Num → AppError E Num
  clock : ClockFailure E → AppError E Num

module _ {S E Num : Type 0} (w : World S E Num) (fs : ConfigFiles S E Num) (fl : Float64 Num) where
  abbrev pub Outcome : Type 0
  Outcome = Result (AppError E Num) (Unit {0}) × App S E Num

  abbrev pub is_active : App S E Num → Bool
  is_active app = app.machine.runtime.active

  abbrev pub with_world : App S E Num → S → App S E Num
  with_world app s = record app { machine = record app.machine { outside = s } }

  unfoldable pub keep_config :
      App S E Num → Config Num → Result (FileError E) (Unit {0}) × S → Outcome
  keep_config app cfg (err e, s) = (err (not_saved e), with_world app s)
  keep_config app cfg (ok _, s) = (ok tt, record (with_world app s) { cfg = cfg })

  unfoldable pub update_config : Config Num → App S E Num → Outcome
  update_config cfg app =
      let saved = keep_config app cfg (save fs fl app.config_path cfg app.machine.outside) in
      if is_active app then (err config_locked, app) else saved

  unfoldable pub wrote : App S E Num → Result E (Unit {0}) × S → Outcome
  wrote app (ok _, s) = (ok tt, with_world app s)
  wrote app (err e, s) = (err (not_written e), with_world app s)

  unfoldable pub write_register : String → Value Num → App S E Num → Outcome
  write_register id value app =
      let written = wrote app (w.write_register id value app.machine.outside) in
      if is_active app && is_managed_register id then (err (managed_register id), app) else written

  abbrev storm_config : Settings Num → StormChargeConfig Num
  storm_config settings = record {
    target_soc = settings.target_soc;
    max_current_a = settings.max_current_a;
    timeout = settings.timeout;
  }

  unfoldable pub update_storm_charge_settings : Settings Num → App S E Num → Outcome
  update_storm_charge_settings settings app = elim (validate_settings fl {E = E} settings) [
    | err e ↦ (err (storm (e ∷ [])), app)
    | ok _ ↦
        if is_active app
        then (err settings_locked, app)
        else update_config (record app.cfg { storm_charge = storm_config settings }) app
  ]

  unfoldable pub managed :
      App S E Num → Result (Messages E Num) (Unit {0}) × Machine S E Num → Outcome
  managed app (ok _, m) = (ok tt, record app { machine = m })
  managed app (err es, m) = (err (storm es), record app { machine = m })

  -- `Start` after the settings were stored.
  unfoldable pub start_stored : Snapshot Num → Settings Num → Outcome → Outcome
  start_stored snapshot settings (err e, app) = (err e, app)
  start_stored snapshot settings (ok _, app) =
      managed app (start w fl snapshot settings app.machine)

  unfoldable pub start_supported : Snapshot Num → Settings Num → String → App S E Num → Outcome
  start_supported snapshot settings profile app =
      let started = start_stored snapshot settings (update_storm_charge_settings settings app) in
      if not (str_eq profile "spi_h3p")
      then (err unsupported_profile, app)
      else if is_active app
      then (err already_active, app)
      else started

  unfoldable pub start_storm_charge : Snapshot Num → Settings Num → App S E Num → Outcome
  start_storm_charge snapshot settings app = elim (normalized_inverter_type app.cfg.device) [
    | err e ↦ (err (inverter_type e), app)
    | ok profile ↦ start_supported snapshot settings profile app
  ]

  unfoldable pub cancel_storm_charge : App S E Num → Outcome
  cancel_storm_charge app = managed app (cancel w fl app.machine)

  -- The Modbus service as the accessor of the clock.
  abbrev pub words : WordAccessor S E
  words = record {
    read_holding_words = w.read_holding_words;
    write_holding_words = w.write_holding_words;
  }

  unfoldable pub clock_set :
      App S E Num
      → Result (ClockFailure E) DateTime × S
      → Result (AppError E Num) DateTime × App S E Num
  clock_set app (ok value, s) = (ok value, with_world app s)
  clock_set app (err e, s) = (err (clock e), with_world app s)

  unfoldable pub set_inverter_clock :
      DateTime → App S E Num → Result (AppError E Num) DateTime × App S E Num
  set_inverter_clock value app =
      let done = clock_set app (set_clock words value app.machine.outside) in
      if is_active app then (err clock_locked, app) else done

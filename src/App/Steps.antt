-- ===== src/App/Steps.antt =====
-- The operations of internal/app/app.go and the manager's evaluations as steps of the program, and
-- the steps that change the configuration or write a register.
use srne_inverter_to_mqtt.Base.{
  String, false, ◌&&◌, Result, ok, err, ◌≡◌, refl, Result-cases, inl, inr, ◌⊎◌, if_cases,
}
use srne_inverter_to_mqtt.Base.Float.{Float64}
use srne_inverter_to_mqtt.Config.Types.{Config}
use srne_inverter_to_mqtt.Config.Validate.{validate}
use srne_inverter_to_mqtt.Config.Disk.{ConfigFiles, FileError}
use srne_inverter_to_mqtt.Config.DiskLaws.{save-validate}
use srne_inverter_to_mqtt.Registers.Types.{Value}
use srne_inverter_to_mqtt.Store.Types.{Snapshot}
use srne_inverter_to_mqtt.Clock.Codec.{DateTime}
use srne_inverter_to_mqtt.Storm.Types.{Settings, PreviousSettings, Machine}
use srne_inverter_to_mqtt.Storm.World.{World}
use srne_inverter_to_mqtt.Storm.Telemetry.{is_managed_register, validate_settings}
use srne_inverter_to_mqtt.Storm.Evaluate.{evaluate}
use srne_inverter_to_mqtt.Storm.Disk.{DiskLaws}
use srne_inverter_to_mqtt.Storm.Session.{IsRecoverable, OnDisk-same}
use srne_inverter_to_mqtt.App.Operations.{
  App, AppError, Outcome, is_active, keep_config, update_config, wrote, write_register,
  update_storm_charge_settings, start_storm_charge, cancel_storm_charge, set_inverter_clock,
  with_world,
}

module _ {S E Num : Type 0} (w : World S E Num) (fs : ConfigFiles S E Num) (fl : Float64 Num)
    (laws : DiskLaws w) where
  -- One operation of the web interface or MQTT, one evaluation of the manager, or a change of the
  -- world by the other services, which leaves the state file alone.
  pub data Step (app : App S E Num) : App S E Num → Type 0 where
    configure : (cfg : Config Num) → Step app (update_config w fs fl cfg app).1
    write : (id : String) (value : Value Num) → Step app (write_register w fs fl id value app).1
    set_storm :
        (settings : Settings Num) → Step app (update_storm_charge_settings w fs fl settings app).1
    start_storm :
        (snapshot : Snapshot Num) (settings : Settings Num)
        → Step app (start_storm_charge w fs fl snapshot settings app).1
    cancel_storm : Step app (cancel_storm_charge w fs fl app).1
    set_time : (value : DateTime) → Step app (set_inverter_clock w fs fl value app).1
    tick :
        (snapshot : Snapshot Num)
        → Step app (record app { machine = (evaluate w fl snapshot app.machine).1 })
    serve :
        (s : S)
        → laws.file s app.machine.state_path ≡ laws.file app.machine.outside app.machine.state_path
        → Step app (with_world w fs fl app s)

  pub data Reach (a : App S E Num) : App S E Num → Type 0 where
    here : Reach a a
    next : {b c : App S E Num} → Reach a b → Step b c → Reach a c

  -- No session is active, or memory and the state file both hold it with the same previous settings.
  abbrev pub IsSettled : Machine S E Num → Type 0
  IsSettled m =
      (m.runtime.active ≡ false)
      ⊎ ((path : String) × (previous : PreviousSettings Num) × IsRecoverable w fl laws path previous
            m)

  -- The configuration is valid, and a session that is active can be restored.
  pub record IsSound (app : App S E Num) : Type 0 where
    pub valid : validate fl app.cfg ≡ ok tt
    pub settled : IsSettled app.machine

  abbrev pub Keeps : {A : Type 0} → Result (AppError E Num) A × App S E Num → Type 0
  Keeps r = IsSound r.1

  -- Without an active session the world may change.
  pub inactive_IsSound :
      (app : App S E Num) (s : S)
      → IsSound app
      → is_active w fs fl app ≡ false
      → IsSound (with_world w fs fl app s)
  inactive_IsSound app s sound idle = record { valid = sound.valid; settled = inl idle }

  keep_config-IsSound :
      (app : App S E Num) (cfg : Config Num) (r : Result (FileError E) (Unit {0}) × S)
      → IsSound app
      → is_active w fs fl app ≡ false
      → (r.0 ≡ ok tt → validate fl cfg ≡ ok tt)
      → Keeps (keep_config w fs fl app cfg r)
  unfolding keep_config
  keep_config-IsSound app cfg (ok _, s) sound idle valid = record {
    valid = valid refl;
    settled = inl idle;
  }
  keep_config-IsSound app cfg (err e, s) sound idle valid = inactive_IsSound app s sound idle

  pub update_config-IsSound :
      (app : App S E Num) (cfg : Config Num) → IsSound app → Keeps (update_config w fs fl cfg app)
  unfolding update_config
  update_config-IsSound app cfg sound =
      if_cases (λ (r : Outcome w fs fl). Keeps r) (is_active w fs fl app) (λ busy. sound)
        (λ idle.
          keep_config-IsSound app cfg _ sound idle
            (save-validate fs fl app.config_path cfg app.machine.outside))

  pub quiet_IsSettled :
      (m : Machine S E Num) (s : S)
      → laws.file s m.state_path ≡ laws.file m.outside m.state_path
      → IsSettled m
      → IsSettled (record m { outside = s })
  quiet_IsSettled m s same (inl idle) = inl idle
  quiet_IsSettled m s same (inr (path, previous, safe)) = inr (
    path,
    previous,
    record {
      same_path = safe.same_path;
      in_memory = safe.in_memory;
      on_disk = OnDisk-same w fl laws path previous (rw (← safe.same_path) same) safe.on_disk;
    },
  )

  wrote-IsSound :
      (app : App S E Num) (r : Result E (Unit {0}) × S)
      → IsSound app
      → laws.file r.1 app.machine.state_path ≡ laws.file app.machine.outside app.machine.state_path
      → Keeps (wrote w fs fl app r)
  unfolding wrote
  wrote-IsSound app (ok _, s) sound same = record {
    valid = sound.valid;
    settled = quiet_IsSettled app.machine s same sound.settled;
  }
  wrote-IsSound app (err e, s) sound same = record {
    valid = sound.valid;
    settled = quiet_IsSettled app.machine s same sound.settled;
  }

  pub write_register-IsSound :
      (app : App S E Num) (id : String) (value : Value Num)
      → IsSound app
      → Keeps (write_register w fs fl id value app)
  unfolding write_register
  write_register-IsSound app id value sound =
      if_cases (λ (r : Outcome w fs fl). Keeps r) (is_active w fs fl app && is_managed_register id)
        (λ locked. sound)
        (λ free.
          wrote-IsSound app _ sound
            (laws.write_register_files id value app.machine.outside app.machine.state_path))

  pub settings-IsSound :
      (app : App S E Num) (settings : Settings Num)
      → IsSound app
      → Keeps (update_storm_charge_settings w fs fl settings app)
  unfolding update_storm_charge_settings
  settings-IsSound app settings sound =
      elim (Result-cases (validate_settings fl {E = E} settings)) [
        | inr (e, bad) ↦ rw (bad, update_storm_charge_settings) sound
        | inl (u, good) ↦
            rw (good, update_storm_charge_settings)
              (if_cases (λ (r : Outcome w fs fl). Keeps r) (is_active w fs fl app) (λ busy. sound)
                (λ idle. update_config-IsSound app _ sound))
      ]

-- ===== src/App/Reach.antt =====
-- The states that the steps of internal/app/app.go and of the manager lead to.
use srne_inverter_to_mqtt.Base.{
  String, Bool, true, false, not, Result, ok, err, ◌≡◌, refl, ap, ◌∙◌, Result-cases, inl, inr,
  if_cases,
}
use package.text.Mathlib.Text.{◌==◌ as str_eq}
use srne_inverter_to_mqtt.Base.Float.{Float64}
use srne_inverter_to_mqtt.Config.Types.{Config}
use srne_inverter_to_mqtt.Config.Endpoint.{normalized_inverter_type}
use srne_inverter_to_mqtt.Config.Validate.{validate}
use srne_inverter_to_mqtt.Config.Disk.{ConfigFiles, FileError}
use srne_inverter_to_mqtt.Store.Types.{Snapshot}
use srne_inverter_to_mqtt.Clock.Codec.{DateTime}
use srne_inverter_to_mqtt.Storm.Types.{Settings, Messages, PreviousSettings, Runtime, Machine}
use srne_inverter_to_mqtt.Storm.World.{World}
use srne_inverter_to_mqtt.Storm.Telemetry.{validate_settings}
use srne_inverter_to_mqtt.Storm.Manager.{start, cancel}
use srne_inverter_to_mqtt.Storm.Evaluate.{evaluate}
use srne_inverter_to_mqtt.Storm.Disk.{DiskLaws}
use srne_inverter_to_mqtt.Storm.Start.{start-EndedOrSafe}
use srne_inverter_to_mqtt.Storm.Steps.{
  RestoredOrSafe, cancel-RestoredOrSafe, evaluate-RestoredOrSafe,
}
use srne_inverter_to_mqtt.Clock.Device.{ClockFailure}
use srne_inverter_to_mqtt.App.Operations.{
  App, AppError, Outcome, is_active, keep_config, update_config, update_storm_charge_settings,
  managed, start_stored, start_supported, start_storm_charge, cancel_storm_charge, clock_set,
  set_inverter_clock,
}
use srne_inverter_to_mqtt.App.Steps.{
  Step, configure, write, set_storm, start_storm, cancel_storm, set_time, tick, serve, Reach, here,
  next, IsSettled, IsSound, inactive_IsSound, update_config-IsSound, quiet_IsSettled,
  write_register-IsSound, settings-IsSound,
}

module _ {S E Num : Type 0} (w : World S E Num) (fs : ConfigFiles S E Num) (fl : Float64 Num)
    (laws : DiskLaws w) where
  abbrev Settled : Machine S E Num → Type 0
  Settled = IsSettled w fs fl laws

  abbrev Sound : App S E Num → Type 0
  Sound = IsSound w fs fl laws

  abbrev Keeps : {A : Type 0} → Result (AppError E Num) A × App S E Num → Type 0
  Keeps r = Sound r.1

  keep_config-runtime :
      (app : App S E Num) (cfg : Config Num) (r : Result (FileError E) (Unit {0}) × S)
      → (keep_config w fs fl app cfg r).1.machine.runtime ≡ app.machine.runtime
  unfolding keep_config
  keep_config-runtime app cfg (ok _, s) = refl
  keep_config-runtime app cfg (err e, s) = refl

  -- Storing settings leaves the session as it is.
  settings-runtime :
      (app : App S E Num) (settings : Settings Num)
      → (update_storm_charge_settings w fs fl settings app).1.machine.runtime ≡ app.machine.runtime
  unfolding update_storm_charge_settings update_config
  settings-runtime app settings = elim (Result-cases (validate_settings fl {E = E} settings)) [
    | inr (e, bad) ↦ rw (bad, update_storm_charge_settings) refl
    | inl (u, good) ↦
        rw (good, update_storm_charge_settings)
          (if_cases (λ (r : Outcome w fs fl). r.1.machine.runtime ≡ app.machine.runtime)
            (is_active w fs fl app) (λ busy. refl)
            (λ idle.
              if_cases (λ (r : Outcome w fs fl). r.1.machine.runtime ≡ app.machine.runtime)
                (is_active w fs fl app) (λ busy. refl) (λ _. keep_config-runtime app _ _)))
  ]

  managed-IsSound :
      (app : App S E Num) (r : Result (Messages E Num) (Unit {0}) × Machine S E Num)
      → validate fl app.cfg ≡ ok tt
      → Settled r.1
      → Keeps (managed w fs fl app r)
  unfolding managed
  managed-IsSound app (ok _, m) valid settled = record { valid = valid; settled = settled }
  managed-IsSound app (err es, m) valid settled = record { valid = valid; settled = settled }

  start_IsSettled :
      (snapshot : Snapshot Num) (settings : Settings Num) (m : Machine S E Num)
      → m.runtime.active ≡ false
      → Settled (start w fl snapshot settings m).1
  start_IsSettled snapshot settings m idle =
      elim (start-EndedOrSafe w fl laws snapshot settings m idle) [
        | inl over ↦ inl over
        | inr (previous, safe) ↦ inr (m.state_path, previous, safe)
      ]

  start_stored-IsSound :
      (snapshot : Snapshot Num) (settings : Settings Num) (r : Outcome w fs fl)
      → Keeps r
      → is_active w fs fl r.1 ≡ false
      → Keeps (start_stored w fs fl snapshot settings r)
  unfolding start_stored
  start_stored-IsSound snapshot settings (err e, app) sound idle = sound
  start_stored-IsSound snapshot settings (ok _, app) sound idle =
      managed-IsSound app _ sound.valid (start_IsSettled snapshot settings app.machine idle)

  start_storm-IsSound :
      (app : App S E Num) (snapshot : Snapshot Num) (settings : Settings Num)
      → Sound app
      → Keeps (start_storm_charge w fs fl snapshot settings app)
  unfolding start_storm_charge start_supported
  start_storm-IsSound app snapshot settings sound =
      elim (Result-cases (normalized_inverter_type app.cfg.device)) [
        | inr (e, bad) ↦ rw (bad, start_storm_charge) sound
        | inl (profile, good) ↦
            rw (good, start_storm_charge)
              (if_cases (λ (r : Outcome w fs fl). Keeps r) (not (str_eq profile "spi_h3p"))
                (λ other. sound)
                λ same.
                  if_cases (λ (r : Outcome w fs fl). Keeps r) (is_active w fs fl app)
                    (λ busy. sound)
                    λ idle.
                      start_stored-IsSound snapshot settings _
                        (settings-IsSound w fs fl laws app settings sound)
                        (ap (λ (r : Runtime E Num). r.active) (settings-runtime app settings)
                          ∙ idle))
      ]

  restored_IsSettled :
      (path : String) (previous : PreviousSettings Num) (m : Machine S E Num)
      → RestoredOrSafe w fl laws path previous m
      → Settled m
  restored_IsSettled path previous m (inl over) = inl over.0
  restored_IsSettled path previous m (inr safe) = inr (path, previous, safe)

  cancel_IsSettled : (m : Machine S E Num) → Settled m → Settled (cancel w fl m).1
  unfolding cancel
  cancel_IsSettled m (inr (path, previous, safe)) =
      restored_IsSettled path previous _ (cancel-RestoredOrSafe w fl laws path previous m safe)
  cancel_IsSettled m (inl idle) =
      if_cases (λ (r : Result (Messages E Num) (Unit {0}) × Machine S E Num). Settled r.1)
        m.runtime.active (λ busy. absurd cc) (λ off. inl idle)

  not-false : (b : Bool) → b ≡ false → not b ≡ false → ⊥
  not-false true h k = absurd cc
  not-false false h k = absurd cc

  evaluate_IsSettled :
      (snapshot : Snapshot Num) (m : Machine S E Num)
      → Settled m
      → Settled (evaluate w fl snapshot m).1
  unfolding evaluate
  evaluate_IsSettled snapshot m (inr (path, previous, safe)) =
      restored_IsSettled path previous _
        (evaluate-RestoredOrSafe w fl laws path previous snapshot m safe)
  evaluate_IsSettled snapshot m (inl idle) =
      if_cases (λ (r : Unit {0} × Machine S E Num). Settled r.1) (not m.runtime.active)
        (λ off. inl idle) (λ busy. absurd (not-false m.runtime.active idle busy))

  clock_set-IsSound :
      (app : App S E Num) (r : Result (ClockFailure E) DateTime × S)
      → Sound app
      → is_active w fs fl app ≡ false
      → Keeps (clock_set w fs fl app r)
  unfolding clock_set
  clock_set-IsSound app (ok value, s) sound idle = inactive_IsSound w fs fl laws app s sound idle
  clock_set-IsSound app (err e, s) sound idle = inactive_IsSound w fs fl laws app s sound idle

  set_time-IsSound :
      (app : App S E Num) (value : DateTime)
      → Sound app
      → Keeps (set_inverter_clock w fs fl value app)
  unfolding set_inverter_clock
  set_time-IsSound app value sound =
      if_cases (λ (r : Result (AppError E Num) DateTime × App S E Num). Keeps r)
        (is_active w fs fl app) (λ busy. sound) (λ idle. clock_set-IsSound app _ sound idle)

  Step-IsSound : {a b : App S E Num} → Step w fs fl laws a b → Sound a → Sound b
  unfolding cancel_storm_charge
  Step-IsSound {a} (configure cfg) sound = update_config-IsSound w fs fl laws a cfg sound
  Step-IsSound {a} (write id value) sound = write_register-IsSound w fs fl laws a id value sound
  Step-IsSound {a} (set_storm settings) sound = settings-IsSound w fs fl laws a settings sound
  Step-IsSound {a} (start_storm snapshot settings) sound =
      start_storm-IsSound a snapshot settings sound
  Step-IsSound {a} cancel_storm sound =
      managed-IsSound a _ sound.valid (cancel_IsSettled a.machine sound.settled)
  Step-IsSound {a} (set_time value) sound = set_time-IsSound a value sound
  Step-IsSound {a} (tick snapshot) sound = record {
    valid = sound.valid;
    settled = evaluate_IsSettled snapshot a.machine sound.settled;
  }
  Step-IsSound {a} (serve s same) sound = record {
    valid = sound.valid;
    settled = quiet_IsSettled w fs fl laws a.machine s same sound.settled;
  }

  -- Over a world that obeys DiskLaws, whatever sequence of operations of the application,
  -- evaluations of the manager and changes that leave the state file alone is run from a sound
  -- state, the state reached is sound: the configuration is one that Validate accepts, and either
  -- no session is active or memory and the state file both hold it as active, of version 2 and with
  -- the same previous settings.
  pub Reach-IsSound : {a b : App S E Num} → Sound a → Reach w fs fl laws a b → Sound b
  Reach-IsSound h here = h
  Reach-IsSound h (next r step) = Step-IsSound step (Reach-IsSound h r)

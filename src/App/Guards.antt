-- ===== src/App/Guards.antt =====
-- Lemmas about the guards of internal/app/app.go for a running storm charge session.
use srne_inverter_to_mqtt.Base.{true, not, Result, err, ◌≡◌, refl, Result-cases, inl, inr, if_cases}
use package.text.Mathlib.Text.{◌==◌ as str_eq}
use srne_inverter_to_mqtt.Base.Float.{Float64}
use srne_inverter_to_mqtt.Config.Types.{Config}
use srne_inverter_to_mqtt.Config.Endpoint.{normalized_inverter_type}
use srne_inverter_to_mqtt.Config.Disk.{ConfigFiles}
use srne_inverter_to_mqtt.Store.Types.{Snapshot}
use srne_inverter_to_mqtt.Storm.Types.{Settings}
use srne_inverter_to_mqtt.Storm.World.{World}
use srne_inverter_to_mqtt.Storm.Telemetry.{validate_settings}
use srne_inverter_to_mqtt.App.Operations.{
  App, AppError, is_active, update_config, update_storm_charge_settings, start_supported,
  start_storm_charge,
}

module _ {S E Num : Type 0} (w : World S E Num) (fs : ConfigFiles S E Num) (fl : Float64 Num) where
  -- An error, and nothing has changed.
  abbrev pub IsRefused :
      {A : Type 0} → App S E Num → Result (AppError E Num) A × App S E Num → Type 0
  IsRefused app r = (e : AppError E Num) × (r ≡ (err e, app))

  pub update_config-IsRefused :
      (app : App S E Num) (cfg : Config Num)
      → is_active w fs fl app ≡ true
      → IsRefused app (update_config w fs fl cfg app)
  unfolding update_config
  update_config-IsRefused app cfg active = rw active (_, refl)

  pub settings-IsRefused :
      (app : App S E Num) (settings : Settings Num)
      → is_active w fs fl app ≡ true
      → IsRefused app (update_storm_charge_settings w fs fl settings app)
  unfolding update_storm_charge_settings
  settings-IsRefused app settings active =
      elim (Result-cases (validate_settings fl {E = E} settings)) [
        | inr (e, bad) ↦ rw (bad, update_storm_charge_settings) (_, refl)
        | inl (u, good) ↦ rw (good, update_storm_charge_settings) (rw active (_, refl))
      ]

  pub start-IsRefused :
      (app : App S E Num) (snapshot : Snapshot Num) (settings : Settings Num)
      → is_active w fs fl app ≡ true
      → IsRefused app (start_storm_charge w fs fl snapshot settings app)
  unfolding start_storm_charge start_supported
  start-IsRefused app snapshot settings active =
      elim (Result-cases (normalized_inverter_type app.cfg.device)) [
        | inr (e, bad) ↦ rw (bad, start_storm_charge) (_, refl)
        | inl (profile, good) ↦
            rw (good, start_storm_charge)
              (if_cases (IsRefused app) (not (str_eq profile "spi_h3p")) (λ other. (_, refl))
                (λ same. rw active (_, refl)))
      ]

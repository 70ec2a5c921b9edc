-- ===== src/Modbus/Thresholds.antt =====
-- internal/modbus/service.go: `validateWriteLocked`, which keeps the thresholds of the battery apart.
use text.Mathlib.Text.{◌==◌ as str_eq}
use srne_inverter_to_mqtt.Base.{ℕ, ◌+◌, ◌%◌, ◌^◌, String, Bool, Result, ok, err, ltb, if◌then◌else◌}
use srne_inverter_to_mqtt.Base.Float.{Float64}
use srne_inverter_to_mqtt.Config.Types.{Config}
use srne_inverter_to_mqtt.Registers.Types.{Register}
use srne_inverter_to_mqtt.Modbus.Types.{
  BusError, cutoff_near_alarm, alarm_near_cutoff, alarm_near_start, stop_above_start,
  start_below_stop, start_near_alarm, Link,
}
use srne_inverter_to_mqtt.Modbus.Service.{Service, ◌>>=◌, current_register_raw}

abbrev pub battery_soc_threshold_gap : ℕ
battery_soc_threshold_gap = 5

-- `value + batterySOCThresholdGap` of a `uint16`
unfoldable pub with_gap : ℕ → ℕ
with_gap value = (value + battery_soc_threshold_gap) % 2 ^ 16

module _ {S C E Num : Type 0} (link : Link S C E) (fl : Float64 Num) (format_time : ℕ → String)
    (cfg : Config Num) where
  -- Compares with the current value of a register.
  unfoldable pub check_against :
      String
      → (ℕ → Bool)
      → (ℕ → BusError E)
      → Service S C Num
      → Result (BusError E) (Unit {0}) × Service S C Num
  check_against id bad error service =
      current_register_raw link fl format_time cfg id service >>= λ value s.
      if bad value then (err (error value), s) else (ok tt, s)

  unfoldable pub check_alarm :
      ℕ → Service S C Num → Result (BusError E) (Unit {0}) × Service S C Num
  check_alarm encoded service =
      check_against "battery_discharge_cutoff_soc" (λ cutoff. ltb encoded (with_gap cutoff))
        alarm_near_cutoff service
      >>= λ _ s.
          check_against "battery_discharge_start" (λ start. ltb start (with_gap encoded))
            alarm_near_start s

  unfoldable pub check_start :
      ℕ → Service S C Num → Result (BusError E) (Unit {0}) × Service S C Num
  check_start encoded service =
      check_against "battery_discharge_stop" (λ stop. ltb encoded stop) start_below_stop service
      >>= λ _ s.
          check_against "battery_low_soc_alarm" (λ alarm. ltb encoded (with_gap alarm))
            start_near_alarm s

  unfoldable pub validate_write :
      Register Num → ℕ → Service S C Num → Result (BusError E) (Unit {0}) × Service S C Num
  validate_write reg encoded service =
      if str_eq reg.id "battery_discharge_cutoff_soc"
      then check_against "battery_low_soc_alarm" (λ alarm. ltb alarm (with_gap encoded))
          cutoff_near_alarm service
      else if str_eq reg.id "battery_low_soc_alarm"
      then check_alarm encoded service
      else if str_eq reg.id "battery_discharge_stop"
      then check_against "battery_discharge_start" (λ start. ltb start encoded) stop_above_start
          service
      else if str_eq reg.id "battery_discharge_start"
      then check_start encoded service
      else (ok tt, service)

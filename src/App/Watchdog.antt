-- ===== src/App/Watchdog.antt =====
-- internal/app/app.go: the watchdog over the status of the Modbus service.
use package.text.Mathlib.Text.{◌==◌ as str_eq}
use srne_inverter_to_mqtt.Base.{
  ltb, ◌^◌, ◌-◌, ◌%◌, ℕ, ◌+◌, ◌*◌, String, Bool, false, ◌||◌, Option, none, some, List, [], ◌∷◌,
  ◌==◌, if◌then◌else◌,
}
use srne_inverter_to_mqtt.Base.Int.{ℤ, pos, negsuc, pos_part, ltb_ℤ, leb_ℤ}
use srne_inverter_to_mqtt.Config.Types.{PollingConfig, second}
use srne_inverter_to_mqtt.Store.Types.{ServiceStatus}

-- The int64 of 64 bits, in two's complement.
abbrev signed64 : ℕ → ℤ
signed64 n = if ltb n (2 ^ 63) then pos n else negsuc (2 ^ 64 - 1 - n)

-- `d * 2` of a duration, which wraps.
abbrev twice : ℤ → ℤ
twice (pos n) = signed64 (n * 2 % 2 ^ 64)
twice (negsuc n) = signed64 ((2 ^ 64 - (n + 1) * 2 % 2 ^ 64) % 2 ^ 64)

unfoldable pub modbus_watchdog_threshold : PollingConfig → ℤ
modbus_watchdog_threshold polling =
    if ltb_ℤ (twice polling.slow_interval) (pos (90 * second))
    then pos (90 * second)
    else twice polling.slow_interval

unfoldable pub watchdog_interval : PollingConfig → ℤ
watchdog_interval polling =
    if leb_ℤ polling.fast_interval (pos 0)
    then pos (15 * second)
    else if ltb_ℤ (pos (15 * second)) polling.fast_interval
    then pos (15 * second)
    else polling.fast_interval

-- `snapshot.Services[name]`, and whether it is there.
unfoldable pub lookup_service : List (String × ServiceStatus) → String → Option ServiceStatus
lookup_service [] name = none
lookup_service ((key, status) ∷ services) name =
    let rest = lookup_service services name in if str_eq key name then some status else rest

-- `now - last_success >= threshold`, written as a sum.
unfoldable pub is_stalled : PollingConfig → ℕ → ServiceStatus → Bool
is_stalled polling now status =
    if status.connected
      || str_eq status.status "connected"
      || str_eq status.status "starting"
      || str_eq status.status "disabled"
    then false
    else if status.last_success == 0
    then false
    else leb_ℤ (pos (status.last_success + pos_part (modbus_watchdog_threshold polling))) (pos now)

unfoldable pub should_trigger_watchdog : PollingConfig → ℕ → List (String × ServiceStatus) → Bool
should_trigger_watchdog polling now services = elim (lookup_service services "modbus") [
  | none ↦ false
  | some status ↦ is_stalled polling now status
]

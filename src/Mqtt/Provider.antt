-- ===== src/Mqtt/Provider.antt =====
-- internal/mqtt/service.go: `ConfigProvider`, the interface through which commands reach the
-- application.
use srne_inverter_to_mqtt.Base.{ℕ, String, Bool, Option, List, Result}
use srne_inverter_to_mqtt.Base.Int.{ℤ}
use srne_inverter_to_mqtt.Config.Types.{Config}
use srne_inverter_to_mqtt.Registers.Types.{Value, DecodedValue}
use srne_inverter_to_mqtt.Storm.Types.{Settings}

-- The fields of the manager's `Status` that are published; the deadline as its text.
pub record StormStatus (Num : Type 0) : Type 0 where
  pub active : Bool
  pub phase : String
  pub settings : Settings Num
  pub deadline : Option String
  pub remaining : String
  pub estimated_power_watts : ℤ
  pub reason : String

-- The methods on a state `P` with errors `A`, the telemetry of the store's snapshot, and the clock.
pub record Provider (P A Num : Type 0) : Type 0 where
  pub get_config : P → Config Num
  pub write_register : String → Value Num → P → Result A (Unit {0}) × P
  pub get_storm_charge_status : P → StormStatus Num
  pub update_storm_charge_settings : Settings Num → P → Result A (Unit {0}) × P
  pub start_storm_charge : Settings Num → P → Result A (Unit {0}) × P
  pub cancel_storm_charge : P → Result A (Unit {0}) × P
  pub telemetry : P → List (DecodedValue Num)
  pub now : P → ℕ

-- ===== src/Store/Types.antt =====
-- internal/state/store.go: the status of a service and the snapshot that the other parts read.
use srne_inverter_to_mqtt.Base.{ℕ, String, Bool, List}
use srne_inverter_to_mqtt.Registers.Types.{DecodedValue}

pub record ServiceStatus : Type 0 where
  pub name : String
  pub status : String
  pub connected : Bool
  pub last_error : String
  pub last_success : ℕ
  pub updated_at : ℕ

pub record Snapshot (Num : Type 0) : Type 0 where
  pub services : List (String × ServiceStatus)
  pub telemetry : List (DecodedValue Num)

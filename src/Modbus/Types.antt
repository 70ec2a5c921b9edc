-- ===== src/Modbus/Types.antt =====
-- internal/modbus/service.go: the service's state, its errors, and what it calls of gomodbus.
use srne_inverter_to_mqtt.Base.{ℕ, String, Option, List, Result}
use srne_inverter_to_mqtt.Base.Int.{ℤ}
use srne_inverter_to_mqtt.Config.Types.{SerialConfig}
use srne_inverter_to_mqtt.Config.Endpoint.{ConfigError}
use srne_inverter_to_mqtt.Registers.Words.{RegisterError}
use srne_inverter_to_mqtt.Store.Types.{ServiceStatus}

pub data BusError (E : Type 0) : Type 0 where
  config : ConfigError → BusError E
  connect_failed : E → BusError E
  call_failed : E → BusError E
  reconnect_failed : E → BusError E → BusError E
  payload : RegisterError → BusError E
  count_zero values_range port_empty empty_verification : BusError E
  -- address and number of words of the access, around the error
  write_failed read_failed readback_failed : ℕ → ℕ → BusError E → BusError E
  -- address, offset, what was written, what was read
  readback_mismatch : ℕ → ℕ → ℕ → ℕ → BusError E
  unknown_register register_not_writable : String → BusError E
  raw_out_of_range : String → ℤ → BusError E
  -- the value that a threshold would come too close to
  cutoff_near_alarm alarm_near_cutoff alarm_near_start : ℕ → BusError E
  stop_above_start start_below_stop start_near_alarm : ℕ → BusError E
  -- address of a write of one register, around the error
  register_write_failed register_readback_failed register_decode_failed :
      ℕ → BusError E → BusError E
  -- address, what was written, what was read, and its text
  register_mismatch : ℕ → ℕ → ℤ → String → BusError E

-- What the service calls: gomodbus over a world `S` with clients `C` and errors `E`, the clock, and
-- the texts of errors and durations. The handler and its client are one value of `C`.
pub record Link (S C E : Type 0) : Type 0 where
  -- `Connect` of a handler: serial with its parity's text and the slave's id; TCP with the address
  pub connect_serial : SerialConfig → List ℕ → ℕ → S → Result E C × S
  pub connect_rtu_over_tcp : List ℕ → ℕ → ℤ → S → Result E C × S
  pub connect_modbus_tcp : List ℕ → ℤ → ℕ → S → Result E C × S
  pub close : C → S → S
  pub read_holding_registers : C → ℕ → ℕ → S → Result E (List ℕ) × S
  pub write_single_register : C → ℕ → ℕ → S → Result E (List ℕ) × S
  pub write_multiple_registers : C → ℕ → ℕ → List ℕ → S → Result E (List ℕ) × S
  pub now : S → ℕ × S
  pub error_text : BusError E → String
  pub duration_text : ℤ → List ℕ

-- `Service`, with the services of the store that it writes to and the world.
pub record Bus (S C : Type 0) : Type 0 where
  pub key : List ℕ
  pub client : Option C
  pub services : List (String × ServiceStatus)
  pub outside : S

-- ===== src/Storm/Types.antt =====
-- internal/stormcharge/manager.go: settings, the persisted runtime and the manager's state. `Num` is
-- float64, `E` the errors of the register writer and of the file system.
use srne_inverter_to_mqtt.Base.{ℕ, String, Bool, List}
use srne_inverter_to_mqtt.Base.Int.{ℤ}

pub data Phase : Type 0 where
  idle starting charging restoring completed cancelled timed_out failed : Phase
  -- a text in the state file that is none of these
  other_phase : String → Phase

-- The texts of `Reason`; `fault_reason` is the register's name joined with the code.
pub data Reason : Type 0 where
  no_reason start_failed persistence_failed modbus_lost resume_failed : Reason
  target_reached timeout manual_cancel grid_lost : Reason
  fault_reason : String → ℤ → Reason
  other_reason : String → Reason

pub record Settings (Num : Type 0) : Type 0 where
  pub target_soc : ℤ
  pub max_current_a : Num
  pub timeout : ℤ

pub record PreviousSettings (Num : Type 0) : Type 0 where
  pub battery_charge_cutoff_soc : ℤ
  pub mains_charge_current_a : Num
  pub timed_charge_schedule : List ℕ

-- One message; those that wrap another keep what they wrap.
pub data StormError (E Num : Type 0) : Type 0 where
  target_soc_range current_range timeout_range already_active waiting_for_modbus : StormError E Num
  schedule_words : StormError E Num
  telemetry_missing : String → StormError E Num
  already_charged : Num → StormError E Num
  exceeds_bms_limit : Num → Num → StormError E Num
  grid_voltage_out : String → Num → StormError E Num
  grid_frequency_out : Num → StormError E Num
  read_schedule : E → StormError E Num
  write_register_failed : String → E → StormError E Num
  write_enable_failed : E → StormError E Num
  write_slot_failed : ℕ → E → StormError E Num
  file_error : E → StormError E Num

-- The text of `LastError`, and an error that a method returns: the messages that it joins, none for
-- the empty text.
abbrev pub Messages : Type 0 → Type 0 → Type 0
Messages E Num = List (StormError E Num)

pub record Runtime (E Num : Type 0) : Type 0 where
  pub version : ℕ
  pub active : Bool
  pub phase : Phase
  pub settings : Settings Num
  pub previous : PreviousSettings Num
  pub started_at : ℕ
  pub deadline : ℕ
  pub updated_at : ℕ
  pub reason : Reason
  pub last_error : Messages E Num

-- The manager with the world that it acts on: the inverter, the disk and the clock.
pub record Machine (S E Num : Type 0) : Type 0 where
  pub state_path : String
  pub runtime : Runtime E Num
  pub resume_pending : Bool
  pub outside : S

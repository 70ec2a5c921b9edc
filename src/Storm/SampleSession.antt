-- ===== src/Storm/SampleSession.antt =====
-- A running session in memory and in the state file of the small world.
use text.Mathlib.Text.{◌==◌ as str_eq}
use srne_inverter_to_mqtt.Base.{ℕ, Bool, false, refl, none, some, if◌then◌else◌}
use srne_inverter_to_mqtt.Base.Whole.{whole_numbers}
use srne_inverter_to_mqtt.Storm.Types.{Runtime, Machine}
use srne_inverter_to_mqtt.Storm.Session.{IsActive, OnDisk, IsRecoverable}
use srne_inverter_to_mqtt.Storm.Sample.{
  Failure, old_settings, running_runtime, Files, one_world, disk_laws,
}

abbrev pub with_session : Files
with_session = λ p. if str_eq p "storm.yaml" then some "running" else none

abbrev pub machine : Runtime Failure ℕ → Bool → Machine Files Failure ℕ
machine runtime pending = record {
  state_path = "storm.yaml";
  runtime = runtime;
  resume_pending = pending;
  outside = with_session;
}

running_runtime-IsActive :
    IsActive one_world whole_numbers disk_laws "storm.yaml" old_settings running_runtime
running_runtime-IsActive = record { active = refl; version = refl; same_previous = refl }

pub session-OnDisk : OnDisk one_world whole_numbers disk_laws "storm.yaml" old_settings with_session
unfolding disk_laws
session-OnDisk = record {
  runtime = running_runtime;
  stored = record { bytes = "running"; at_path = refl; marshalled = refl };
  is_active = running_runtime-IsActive;
}

pub running-IsRecoverable :
    IsRecoverable one_world whole_numbers disk_laws "storm.yaml" old_settings
      (machine running_runtime false)
running-IsRecoverable = record {
  same_path = refl;
  in_memory = running_runtime-IsActive;
  on_disk = session-OnDisk;
}

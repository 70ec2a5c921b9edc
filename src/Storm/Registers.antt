-- ===== src/Storm/Registers.antt =====
-- internal/stormcharge/manager.go: the writes to the inverter that start and end a session.
use srne_inverter_to_mqtt.Base.{
  ℕ, zero, suc, ◌+◌, ◌%◌, ◌^◌, String, not, List, [], ◌∷◌, ◌++◌, length, get_or, Result, ok, err,
  ◌==◌, if◌then◌else◌,
}
use srne_inverter_to_mqtt.Base.State.{Act, pure, ◌>>=◌}
use srne_inverter_to_mqtt.Registers.Types.{Value, float64, int}
use srne_inverter_to_mqtt.Storm.Types.{
  Settings, PreviousSettings, StormError, write_register_failed, write_enable_failed,
  write_slot_failed, schedule_words,
}
use srne_inverter_to_mqtt.Storm.World.{World}

abbrev pub timed_charge_address : ℕ
timed_charge_address = 0xE026

abbrev pub timed_charge_words : ℕ
timed_charge_words = 7

-- The schedule of a session: three windows from 00:01 to 23:59, enabled.
abbrev pub storm_schedule : List ℕ
storm_schedule = 0x0001 ∷ 0x173B ∷ 0x0001 ∷ 0x173B ∷ 0x0001 ∷ 0x173B ∷ 1 ∷ []

module _ {S E Num : Type 0} (w : World S E Num) where
  -- The loop over the slots from `offset` on, with `left` turns to go.
  unfoldable pub write_slots : ℕ → ℕ → List ℕ → Act S (Result (StormError E Num) (Unit {0}))
  write_slots zero offset values s = (ok tt, s)
  write_slots (suc left) offset values s =
      let address = (timed_charge_address + offset) % 2 ^ 16 in
      let written = w.write_holding_words address (get_or values offset 0 ∷ []) s in
      let rest = write_slots left (offset + 1) values written.1 in
      elim written.0 [ err e ↦ (err (write_slot_failed address e), written.1) | ok _ ↦ rest ]

  unfoldable pub write_enable : List ℕ → Act S (Result (StormError E Num) (Unit {0}))
  write_enable values s =
      let written = w.write_holding_words (timed_charge_address + 6) (get_or values 6 0 ∷ []) s in
      elim written.0 [
        | err e ↦ (err (write_enable_failed e), written.1)
        | ok _ ↦ (ok tt, written.1)
      ]

  -- Goes on only after a success.
  unfoldable pub and_then :
      Act S (Result (StormError E Num) (Unit {0}))
      → Act S (Result (StormError E Num) (Unit {0}))
      → Act S (Result (StormError E Num) (Unit {0}))
  and_then first second s =
      let done = first s in elim done.0 [ err e ↦ (err e, done.1) | ok _ ↦ second done.1 ]

  unfoldable pub write_timed_charge_schedule : List ℕ → Act S (Result (StormError E Num) (Unit {0}))
  write_timed_charge_schedule values =
      if not (length values == timed_charge_words)
      then pure (err schedule_words)
      else if get_or values 6 0 == 0
      then and_then (write_enable values) (write_slots 6 0 values)
      else and_then (write_slots 6 0 values) (write_enable values)

  unfoldable pub write_setting : String → Value Num → Act S (Result (StormError E Num) (Unit {0}))
  write_setting id value s =
      let written = w.write_register id value s in
      elim written.0 [
        | err e ↦ (err (write_register_failed id e), written.1)
        | ok _ ↦ (ok tt, written.1)
      ]

  unfoldable pub apply_storm_settings : Settings Num → Act S (Result (StormError E Num) (Unit {0}))
  apply_storm_settings settings =
      and_then (write_setting "battery_charge_cutoff_soc" (int settings.target_soc)) (
        and_then (write_setting "mains_charge_current_limit" (float64 settings.max_current_a))
          (write_timed_charge_schedule storm_schedule))

  unfoldable pub failures : Result (StormError E Num) (Unit {0}) → List (StormError E Num)
  failures (ok _) = []
  failures (err e) = e ∷ []

  -- The schedule is restored only if seven words of it were kept.
  unfoldable pub restore_schedule : List ℕ → Act S (Result (StormError E Num) (Unit {0}))
  restore_schedule schedule =
      if length schedule == timed_charge_words
      then write_timed_charge_schedule schedule
      else pure (ok tt)

  -- All three writes of `restoreLocked`, whatever fails, with the messages of those that failed.
  unfoldable pub restore_settings : PreviousSettings Num → Act S (List (StormError E Num))
  restore_settings previous = do
    schedule ← restore_schedule previous.timed_charge_schedule
    current ← write_setting "mains_charge_current_limit" (float64 previous.mains_charge_current_a)
    cutoff ← write_setting "battery_charge_cutoff_soc" (int previous.battery_charge_cutoff_soc)
    pure (failures schedule ++ failures current ++ failures cutoff)

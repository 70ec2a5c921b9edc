-- ===== src/Storm/Manager.antt =====
-- internal/stormcharge/manager.go: `Start`, `Cancel` and `restoreLocked`. Each holds the manager's lock
-- for its whole run, so it is one step on the machine. Logging is left out.
use srne_inverter_to_mqtt.Base.{
  ℕ, ◌+◌, Bool, true, false, ◌&&◌, none, some, [], ◌∷◌, Result, ok, err, if◌then◌else◌,
}
use srne_inverter_to_mqtt.Base.Int.{pos, pos_part}
use srne_inverter_to_mqtt.Base.State.{Act, pure, ◌>>=◌, ◌>>◌, gets, modify}
use srne_inverter_to_mqtt.Base.Float.{Float64}
use srne_inverter_to_mqtt.Store.Types.{Snapshot}
use srne_inverter_to_mqtt.Storm.Types.{
  Phase, idle, starting, charging, restoring, completed, cancelled, timed_out, failed, Reason,
  no_reason, start_failed, persistence_failed, target_reached, timeout, manual_cancel, grid_lost,
  Settings, PreviousSettings, StormError, already_active, already_charged, exceeds_bms_limit,
  read_schedule, file_error, Messages, Runtime, Machine,
}
use srne_inverter_to_mqtt.Storm.World.{World, outside, save_locked, now}
use srne_inverter_to_mqtt.Storm.Telemetry.{
  optional_numeric, required_numeric, require_grid, validate_settings,
}
use srne_inverter_to_mqtt.Storm.Registers.{
  timed_charge_address, timed_charge_words, apply_storm_settings, restore_settings,
}

unfoldable pub final_phase_for_reason : Reason → Phase
final_phase_for_reason target_reached = completed
final_phase_for_reason timeout = timed_out
final_phase_for_reason manual_cancel = cancelled
final_phase_for_reason grid_lost = cancelled
final_phase_for_reason _ = failed

module _ {S E Num : Type 0} (w : World S E Num) (fl : Float64 Num) where
  abbrev pub Action : Type 0 → Type 0
  Action = Act (Machine S E Num)

  unfoldable pub update : (Runtime E Num → Runtime E Num) → Action (Unit {0})
  update f = modify (λ m. record m { runtime = f m.runtime })

  -- `_ = m.saveLocked()`
  unfoldable pub save_ignoring : Action (Unit {0})
  save_ignoring m = (tt, (save_locked w m).1)

  unfoldable pub empty_runtime : Runtime E Num
  empty_runtime = record {
    version = 2;
    active = false;
    phase = idle;
    settings = record { target_soc = pos 0; max_current_a = fl.ratio 0 0; timeout = pos 0 };
    previous = record {
      battery_charge_cutoff_soc = pos 0;
      mains_charge_current_a = fl.ratio 0 0;
      timed_charge_schedule = [];
    };
    started_at = 0;
    deadline = 0;
    updated_at = 0;
    reason = no_reason;
    last_error = [];
  }

  -- The failing end of `restoreLocked`.
  unfoldable pub restore_failed : Messages E Num → Action (Result (Messages E Num) (Unit {0}))
  restore_failed errors = do
    t ← now w
    update (λ r. record r { last_error = errors; updated_at = t })
    save_ignoring
    pure (err errors)

  -- The successful end, undone in memory if it could not be saved.
  unfoldable pub settle_restore : Result E (Unit {0}) → Action (Result (Messages E Num) (Unit {0}))
  settle_restore (ok _) = pure (ok tt)
  settle_restore (err e) = do
    update (λ r. record r { active = true; phase = restoring; last_error = file_error e ∷ [] })
    pure (err (file_error e ∷ []))

  unfoldable pub restore_done : Phase → Action (Result (Messages E Num) (Unit {0}))
  restore_done final_phase = do
    t ← now w
    update (λ r. record r {
      active = false;
      phase = final_phase;
      last_error = [];
      deadline = 0;
      updated_at = t;
    })
    saved ← save_locked w
    settle_restore saved

  unfoldable pub restore_end : Phase → Messages E Num → Action (Result (Messages E Num) (Unit {0}))
  restore_end final_phase [] = restore_done final_phase
  restore_end final_phase (e ∷ es) = restore_failed (e ∷ es)

  unfoldable pub restore_locked : Phase → Reason → Action (Result (Messages E Num) (Unit {0}))
  restore_locked final_phase reason = do
    update (λ r. record r { phase = restoring; reason = reason })
    t ← now w
    update (λ r. record r { updated_at = t })
    save_ignoring
    previous ← gets (λ m. m.runtime.previous)
    errors ← outside w (restore_settings w previous)
    restore_end final_phase errors

  unfoldable pub previous_settings :
      Snapshot Num → Action (Result (Messages E Num) (PreviousSettings Num))
  previous_settings snapshot = elim (required_numeric fl snapshot "battery_charge_cutoff_soc") [
    | err e ↦ pure (err (e ∷ []))
    | ok cutoff ↦ elim (required_numeric fl snapshot "mains_charge_current_limit") [
      | err e ↦ pure (err (e ∷ []))
      | ok current ↦ do
        schedule ← outside w (w.read_holding_words timed_charge_address timed_charge_words)
        elim schedule [
          | err e ↦ pure (err (read_schedule e ∷ []))
          | ok words ↦ pure (
              ok (record {
                battery_charge_cutoff_soc = fl.to_ℤ cutoff;
                mains_charge_current_a = current;
                timed_charge_schedule = words;
              }))
        ]
    ]
  ]

  -- The error of `Start` with that of the restore behind it, if there is one.
  unfoldable pub both_errors :
      StormError E Num
      → Result (Messages E Num) (Unit {0})
      → Action (Result (Messages E Num) (Unit {0}))
  both_errors e (ok _) = pure (err (e ∷ []))
  both_errors e (err es) = pure (err (e ∷ es))

  -- `Start` after the writes to the inverter failed.
  unfoldable pub abort_start : StormError E Num → Action (Result (Messages E Num) (Unit {0}))
  abort_start e = do
    update (λ r. record r { phase = restoring; reason = start_failed; last_error = e ∷ [] })
    t ← now w
    update (λ r. record r { updated_at = t })
    save_ignoring
    restored ← restore_locked failed start_failed
    both_errors e restored

  unfoldable pub settle_confirm : Result E (Unit {0}) → Action (Result (Messages E Num) (Unit {0}))
  settle_confirm (ok _) = pure (ok tt)
  settle_confirm (err e) = do
    update (λ r. record r {
      phase = restoring;
      reason = persistence_failed;
      last_error = file_error e ∷ [];
    })
    restored ← restore_locked failed persistence_failed
    both_errors (file_error e) restored

  -- The last step of `Start`: the session is recorded as charging.
  unfoldable pub confirm_start : Action (Result (Messages E Num) (Unit {0}))
  confirm_start = do
    update (λ r. record r { phase = charging })
    t ← now w
    update (λ r. record r { updated_at = t; last_error = [] })
    saved ← save_locked w
    settle_confirm saved

  unfoldable pub settle_apply :
      Result (StormError E Num) (Unit {0}) → Action (Result (Messages E Num) (Unit {0}))
  settle_apply (ok _) = confirm_start
  settle_apply (err e) = abort_start e

  -- The session is recorded first; without a record nothing is written to the inverter.
  unfoldable pub settle_record :
      Settings Num → Result E (Unit {0}) → Action (Result (Messages E Num) (Unit {0}))
  settle_record settings (err e) = do update (λ r. empty_runtime); pure (err (file_error e ∷ []))
  settle_record settings (ok _) = do
    applied ← outside w (apply_storm_settings w settings)
    settle_apply applied

  unfoldable pub new_session : Settings Num → PreviousSettings Num → ℕ → Runtime E Num
  new_session settings previous t = record {
    version = 2;
    active = true;
    phase = starting;
    settings = settings;
    previous = previous;
    started_at = t;
    deadline = t + pos_part settings.timeout;
    updated_at = t;
    reason = no_reason;
    last_error = [];
  }

  unfoldable pub begin_session :
      Settings Num → PreviousSettings Num → Action (Result (Messages E Num) (Unit {0}))
  begin_session settings previous = do
    t ← now w
    update (λ r. new_session settings previous t)
    saved ← save_locked w
    settle_record settings saved

  -- The requested current against the limit that the BMS reports, if it reports one.
  unfoldable pub check_bms_limit :
      Snapshot Num → Settings Num → Result (StormError E Num) (Unit {0})
  check_bms_limit snapshot settings = elim (optional_numeric fl snapshot "maximum_charge_current") [
    | none ↦ ok tt
    | some limit ↦
        if fl.lt (fl.ratio 0 0) limit && fl.lt limit settings.max_current_a
        then err (exceeds_bms_limit settings.max_current_a limit)
        else ok tt
  ]

  unfoldable pub check_soc : Snapshot Num → Settings Num → Result (StormError E Num) (Unit {0})
  check_soc snapshot settings = elim (required_numeric fl snapshot "battery_soc") [
    | err e ↦ err e
    | ok soc ↦ if fl.le (fl.of_ℤ settings.target_soc) soc then err (already_charged soc) else ok tt
  ]

  -- The checks of `Start` in their order, before anything is read from the inverter.
  unfoldable pub check_start :
      Bool → Snapshot Num → Settings Num → Result (StormError E Num) (Unit {0})
  check_start active snapshot settings = elim (validate_settings fl {E = E} settings) [
    | err e ↦ err e
    | ok _ ↦ if active then err already_active else elim (check_soc snapshot settings) [
      | err e ↦ err e
      | ok _ ↦ elim (require_grid fl {E = E} snapshot) [
        | err e ↦ err e
        | ok _ ↦ check_bms_limit snapshot settings
      ]
    ]
  ]

  unfoldable pub with_previous :
      Settings Num
      → Result (Messages E Num) (PreviousSettings Num)
      → Action (Result (Messages E Num) (Unit {0}))
  with_previous settings (err es) = pure (err es)
  with_previous settings (ok previous) = begin_session settings previous

  unfoldable pub start : Snapshot Num → Settings Num → Action (Result (Messages E Num) (Unit {0}))
  start snapshot settings m = elim (check_start m.runtime.active snapshot settings) [
    | err e ↦ (err (e ∷ []), m)
    | ok _ ↦ (previous_settings snapshot >>= with_previous settings) m
  ]

  unfoldable pub cancel : Action (Result (Messages E Num) (Unit {0}))
  cancel m = if m.runtime.active then restore_locked cancelled manual_cancel m else (ok tt, m)

-- ===== src/Storm/Evaluate.antt =====
-- internal/stormcharge/manager.go: `evaluate`, the step that `Run` makes every two seconds.
use srne_inverter_to_mqtt.Base.{
  ℕ, Bool, true, false, not, ◌&&◌, ◌||◌, none, some, [], ◌∷◌, Result, ok, err, ◌==◌, leb,
  if◌then◌else◌,
}
use srne_inverter_to_mqtt.Base.State.{Act, pure, ◌>>=◌, ◌>>◌, modify}
use srne_inverter_to_mqtt.Base.Float.{Float64}
use srne_inverter_to_mqtt.Store.Types.{Snapshot}
use srne_inverter_to_mqtt.Storm.Types.{
  Phase, charging, restoring, cancelled, completed, timed_out, failed, modbus_lost, resume_failed,
  target_reached, timeout, grid_lost, fault_reason, StormError, waiting_for_modbus, Messages,
  Machine,
}
use srne_inverter_to_mqtt.Storm.World.{World, outside, now}
use srne_inverter_to_mqtt.Storm.Telemetry.{
  has_required_telemetry, active_fault, modbus_connected, required_numeric, require_grid,
}
use srne_inverter_to_mqtt.Storm.Registers.{apply_storm_settings}
use srne_inverter_to_mqtt.Storm.Manager.{
  update, save_ignoring, restore_locked, final_phase_for_reason,
}

abbrev pub is_restoring : Phase → Bool
is_restoring restoring = true
is_restoring _ = false

module _ {S E Num : Type 0} (w : World S E Num) (fl : Float64 Num) where
  -- A call whose error is only logged.
  unfoldable pub ignoring :
      Act (Machine S E Num) (Result (Messages E Num) (Unit {0})) → Act (Machine S E Num) (Unit {0})
  ignoring action m = (tt, (action m).1)

  unfoldable pub wait_for_modbus : Act (Machine S E Num) (Unit {0})
  wait_for_modbus = do
    update w fl (λ r. record r {
      phase = restoring;
      reason = modbus_lost;
      last_error = waiting_for_modbus ∷ [];
    })
    t ← now w
    update w fl (λ r. record r { updated_at = t })
    save_ignoring w fl

  -- No connection: wait for it, and restore once it is back.
  unfoldable pub lose_modbus : Act (Machine S E Num) (Unit {0})
  lose_modbus m =
      if m.resume_pending || is_restoring m.runtime.phase then (tt, m) else wait_for_modbus m

  unfoldable pub settle_retry :
      Result (Messages E Num) (Unit {0}) → Act (Machine S E Num) (Unit {0})
  settle_retry (ok _) = pure tt
  settle_retry (err es) = do
    update w fl (λ r. record r { last_error = es })
    t ← now w
    update w fl (λ r. record r { updated_at = t })
    save_ignoring w fl

  -- A restore that was begun before is tried again.
  unfoldable pub retry_restore : Act (Machine S E Num) (Unit {0})
  retry_restore m =
      (restore_locked w fl (final_phase_for_reason m.runtime.reason) m.runtime.reason
          >>= settle_retry)
        m

  unfoldable pub settle_resume :
      ℕ → Result (StormError E Num) (Unit {0}) → Act (Machine S E Num) Bool
  settle_resume t (err e) = do
    update w fl (λ r. record r {
      phase = restoring;
      reason = resume_failed;
      last_error = e ∷ [];
      updated_at = t;
    })
    save_ignoring w fl
    pure false
  settle_resume t (ok _) = do
    modify (λ m. record m { resume_pending = false })
    update w fl (λ r. record r { phase = charging; last_error = []; updated_at = t })
    save_ignoring w fl
    pure true

  -- Applies the settings again after a restart of the program: true if the evaluation goes on.
  unfoldable pub resume : ℕ → Act (Machine S E Num) Bool
  resume t m =
      if not m.resume_pending
      then (true, m)
      else (outside w (apply_storm_settings w m.runtime.settings) >>= settle_resume t) m

  unfoldable pub check_target : Snapshot Num → Act (Machine S E Num) (Unit {0})
  check_target snapshot m = elim (required_numeric fl {E = E} snapshot "battery_soc") [
    | err _ ↦ (tt, m)
    | ok soc ↦
        if fl.le (fl.of_ℤ m.runtime.settings.target_soc) soc
        then ignoring (restore_locked w fl completed target_reached) m
        else (tt, m)
  ]

  -- The reasons to end a running session: a fault, the grid, the target.
  unfoldable pub check_session : Snapshot Num → Act (Machine S E Num) (Unit {0})
  check_session snapshot m = elim (active_fault snapshot) [
    | some (code, id) ↦ ignoring (restore_locked w fl failed (fault_reason id code)) m
    | none ↦ elim (require_grid fl {E = E} snapshot) [
      | err _ ↦ ignoring (restore_locked w fl cancelled grid_lost) m
      | ok _ ↦ check_target snapshot m
    ]
  ]

  unfoldable pub check_running : ℕ → Snapshot Num → Act (Machine S E Num) (Unit {0})
  check_running t snapshot m =
      if not (m.runtime.deadline == 0) && leb m.runtime.deadline t
      then ignoring (restore_locked w fl timed_out timeout) m
      else if not (has_required_telemetry snapshot)
      then (tt, m)
      else elim (resume t m).0 [
        | false ↦ (tt, (resume t m).1)
        | true ↦ check_session snapshot (resume t m).1
      ]

  unfoldable pub evaluate : Snapshot Num → Act (Machine S E Num) (Unit {0})
  evaluate snapshot m =
      if not m.runtime.active
      then (tt, m)
      else if not (modbus_connected snapshot.services)
      then lose_modbus m
      else if is_restoring m.runtime.phase
      then retry_restore m
      else check_running (now w m).0 snapshot (now w m).1

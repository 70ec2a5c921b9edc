-- ===== src/Storm/Steps.antt =====
-- Lemmas about `Cancel` and `evaluate` of internal/stormcharge/manager.go and the session's invariant.
use srne_inverter_to_mqtt.Base.{
  ℕ, String, Bool, false, not, ◌&&◌, ◌||◌, ◌≡◌, refl, subst, [], Result, ok, err, Result-cases,
  Option-cases, Bool-cases, if_cases, inl, inr, ◌⊎◌, leb, ◌==◌,
}
use srne_inverter_to_mqtt.Base.State.{pure, ◌>>=◌, modify}
use srne_inverter_to_mqtt.Base.Float.{Float64}
use srne_inverter_to_mqtt.Store.Types.{Snapshot}
use srne_inverter_to_mqtt.Storm.Types.{
  Phase, Reason, StormError, Messages, PreviousSettings, Machine, cancelled, manual_cancel, failed,
  fault_reason, grid_lost, timed_out, timeout, completed, target_reached,
}
use srne_inverter_to_mqtt.Storm.World.{World, now}
use srne_inverter_to_mqtt.Storm.Telemetry.{
  has_required_telemetry, active_fault, modbus_connected, required_numeric, require_grid,
}
use srne_inverter_to_mqtt.Storm.Manager.{restore_locked, cancel}
use srne_inverter_to_mqtt.Storm.Evaluate.{
  is_restoring, ignoring, wait_for_modbus, lose_modbus, settle_retry, retry_restore, settle_resume,
  resume, check_target, check_session, check_running, evaluate,
}
use srne_inverter_to_mqtt.Storm.Disk.{DiskLaws}
use srne_inverter_to_mqtt.Storm.Quiet.{apply_storm_settings-IsQuiet}
use srne_inverter_to_mqtt.Storm.Session.{
  IsRecoverable, Keeps, Leads-bind, Leads-then, Keeps-pure, Keeps-update, Keeps-outside, Keeps-now,
  Keeps-save_ignoring,
}
use srne_inverter_to_mqtt.Storm.Registers.{restore_settings}
use srne_inverter_to_mqtt.Storm.Restart.{restore_locked-IsEnded}
use srne_inverter_to_mqtt.Storm.Recovery.{Restored, Leads-restore_locked}

module _ {S E Num : Type 0} (w : World S E Num) (fl : Float64 Num) (laws : DiskLaws w)
    (path : String) (previous : PreviousSettings Num) where
  abbrev Safe : Machine S E Num → Type 0
  Safe = IsRecoverable w fl laws path previous

  -- The writes of the previous settings, run from some state of the world, reported no failure.
  abbrev pub WrittenBack : Type 0
  WrittenBack = (s : S) × ((restore_settings w previous s).0 ≡ [])

  -- The session has ended with its previous settings written back, or it is still recoverable.
  abbrev pub RestoredOrSafe : Machine S E Num → Type 0
  RestoredOrSafe m = ((m.runtime.active ≡ false) × WrittenBack) ⊎ Safe m

  written_back :
      (p : Phase) (r : Reason) (m : Machine S E Num)
      → Safe m
      → (restore_locked w fl p r m).0 ≡ ok tt
      → WrittenBack
  written_back p r m h done =
      let (s, clean, ended) = restore_locked-IsEnded w fl laws p r m done in
      (
        s,
        subst (λ (q : PreviousSettings Num). (restore_settings w q s).0 ≡ [])
            h.in_memory.same_previous clean,
      )

  restored_or_safe :
      (r : Result (Messages E Num) (Unit {0})) (m : Machine S E Num)
      → Restored w fl laws path previous r m
      → (r ≡ ok tt → WrittenBack)
      → RestoredOrSafe m
  restored_or_safe (ok _) m h clean = inl (h, clean refl)
  restored_or_safe (err _) m h clean = inr h

  restore_locked-RestoredOrSafe :
      (p : Phase) (r : Reason) (m : Machine S E Num)
      → Safe m
      → RestoredOrSafe (restore_locked w fl p r m).1
  restore_locked-RestoredOrSafe p r m h =
      restored_or_safe _ _ ((Leads-restore_locked w fl laws path previous p r).at m h)
        (written_back p r m h)

  -- Over a world that obeys DiskLaws, from a session that memory and the state file both hold as
  -- active, of version 2 and with the same previous settings, Cancel leaves, whatever fails, either
  -- no active session, after the writes of those previous settings, run from some state of the
  -- world, reported no failure, or again such a session with the same previous settings.
  pub cancel-RestoredOrSafe : (m : Machine S E Num) → Safe m → RestoredOrSafe (cancel w fl m).1
  unfolding cancel
  cancel-RestoredOrSafe m h =
      if_cases (λ (r : Result (Messages E Num) (Unit {0}) × Machine S E Num). RestoredOrSafe r.1)
        m.runtime.active (λ running. restore_locked-RestoredOrSafe cancelled manual_cancel m h)
        (λ idle. inr h)

  wait_for_modbus-Safe : (m : Machine S E Num) → Safe m → Safe (wait_for_modbus w fl m).1
  wait_for_modbus-Safe = kept.at
    where
      kept : Keeps w fl laws path previous (wait_for_modbus w fl)
      kept =
          unfold wait_for_modbus in
          Leads-then w fl laws path previous
            (Keeps-update w fl laws path previous _ (λ r. refl) (λ r. refl) (λ r. refl))
            (Leads-bind w fl laws path previous (Keeps-now w fl laws path previous) λ t.
              Leads-then w fl laws path previous
                (Keeps-update w fl laws path previous _ (λ r. refl) (λ r. refl) (λ r. refl))
                (Keeps-save_ignoring w fl laws path previous))

  settle_retry-Safe :
      (r : Result (Messages E Num) (Unit {0})) (m : Machine S E Num)
      → Restored w fl laws path previous r m
      → (r ≡ ok tt → WrittenBack)
      → RestoredOrSafe (settle_retry w fl r m).1
  settle_retry-Safe (ok _) m h clean = unfold settle_retry pure in inl (h, clean refl)
  settle_retry-Safe (err es) m h clean = inr (kept.at m h)
    where
      kept : Keeps w fl laws path previous (settle_retry w fl (err es))
      kept =
          unfold settle_retry in
          Leads-then w fl laws path previous
            (Keeps-update w fl laws path previous _ (λ r. refl) (λ r. refl) (λ r. refl))
            (Leads-bind w fl laws path previous (Keeps-now w fl laws path previous) λ t.
              Leads-then w fl laws path previous
                (Keeps-update w fl laws path previous _ (λ r. refl) (λ r. refl) (λ r. refl))
                (Keeps-save_ignoring w fl laws path previous))

  retry_restore-RestoredOrSafe :
      (m : Machine S E Num) → Safe m → RestoredOrSafe (retry_restore w fl m).1
  unfolding retry_restore ◌>>=◌
  retry_restore-RestoredOrSafe m h =
      settle_retry-Safe _ _ ((Leads-restore_locked w fl laws path previous _ _).at m h)
        (written_back _ _ m h)

  Keeps-resumed : Keeps w fl laws path previous (modify (λ m. record m { resume_pending = false }))
  unfolding modify
  Keeps-resumed = record {
    at = λ m h. record { same_path = h.same_path; in_memory = h.in_memory; on_disk = h.on_disk };
  }

  Keeps-settle_resume :
      (t : ℕ) (r : Result (StormError E Num) (Unit {0}))
      → Keeps w fl laws path previous (settle_resume w fl t r)
  unfolding settle_resume
  Keeps-settle_resume t (err e) =
      Leads-then w fl laws path previous
        (Keeps-update w fl laws path previous _ (λ r. refl) (λ r. refl) (λ r. refl))
        (Leads-then w fl laws path previous (Keeps-save_ignoring w fl laws path previous)
          (Keeps-pure w fl laws path previous _))
  Keeps-settle_resume t (ok _) = Leads-then w fl laws path previous Keeps-resumed (
      Leads-then w fl laws path previous
        (Keeps-update w fl laws path previous _ (λ r. refl) (λ r. refl) (λ r. refl))
        (Leads-then w fl laws path previous (Keeps-save_ignoring w fl laws path previous)
          (Keeps-pure w fl laws path previous _)))

  resume-Safe : (t : ℕ) (m : Machine S E Num) → Safe m → Safe (resume w fl t m).1
  unfolding resume
  resume-Safe t m h =
      if_cases (λ (r : Bool × Machine S E Num). Safe r.1) (not m.resume_pending) (λ no_resume. h)
        λ pending.
          (Leads-bind w fl laws path previous
              (Keeps-outside w fl laws path previous
                (apply_storm_settings-IsQuiet w laws path m.runtime.settings))
              (Keeps-settle_resume t)).at
            m h

  check_target-RestoredOrSafe :
      (snapshot : Snapshot Num) (m : Machine S E Num)
      → Safe m
      → RestoredOrSafe (check_target w fl snapshot m).1
  unfolding check_target ignoring
  check_target-RestoredOrSafe snapshot m h =
      elim (Result-cases (required_numeric fl {E = E} snapshot "battery_soc")) [
        | inr (e, missing) ↦ rw (missing, check_target) (inr h)
        | inl (soc, known) ↦
            rw (known, check_target)
              (if_cases (λ (r : Unit {0} × Machine S E Num). RestoredOrSafe r.1)
                (fl.le (fl.of_ℤ m.runtime.settings.target_soc) soc)
                (λ reached. restore_locked-RestoredOrSafe completed target_reached m h)
                (λ below. inr h))
      ]

  check_session-RestoredOrSafe :
      (snapshot : Snapshot Num) (m : Machine S E Num)
      → Safe m
      → RestoredOrSafe (check_session w fl snapshot m).1
  unfolding check_session ignoring
  check_session-RestoredOrSafe snapshot m h = elim (Option-cases (active_fault snapshot)) [
    | inr ((code, id), fault) ↦
        rw (fault, check_session) (restore_locked-RestoredOrSafe failed (fault_reason id code) m h)
    | inl healthy ↦ elim (Result-cases (require_grid fl {E = E} snapshot)) [
      | inr (e, lost) ↦
          rw (healthy, lost, check_session) (restore_locked-RestoredOrSafe cancelled grid_lost m h)
      | inl (_, present) ↦
          rw (healthy, present, check_session) (check_target-RestoredOrSafe snapshot m h)
    ]
  ]

  check_running-RestoredOrSafe :
      (t : ℕ) (snapshot : Snapshot Num) (m : Machine S E Num)
      → Safe m
      → RestoredOrSafe (check_running w fl t snapshot m).1
  unfolding check_running ignoring
  check_running-RestoredOrSafe t snapshot m h =
      if_cases (λ (r : Unit {0} × Machine S E Num). RestoredOrSafe r.1)
        (not (m.runtime.deadline == 0) && leb m.runtime.deadline t)
        (λ over. restore_locked-RestoredOrSafe timed_out timeout m h)
        λ running.
          if_cases (λ (r : Unit {0} × Machine S E Num). RestoredOrSafe r.1)
            (not (has_required_telemetry snapshot)) (λ blind. inr h)
            λ seen. elim (Bool-cases (resume w fl t m).0) [
              | inr stopped ↦ rw (stopped, check_running) (inr (resume-Safe t m h))
              | inl going ↦
                  rw (going, check_running)
                    (check_session-RestoredOrSafe snapshot (resume w fl t m).1 (resume-Safe t m h))
            ]

  -- Over a world that obeys DiskLaws, from a session that memory and the state file both hold as
  -- active, of version 2 and with the same previous settings, one evaluation leaves, whatever the
  -- telemetry shows and whatever fails, either no active session, after the writes of those
  -- previous settings, run from some state of the world, reported no failure, or again such a
  -- session with the same previous settings.
  pub evaluate-RestoredOrSafe :
      (snapshot : Snapshot Num) (m : Machine S E Num)
      → Safe m
      → RestoredOrSafe (evaluate w fl snapshot m).1
  unfolding evaluate lose_modbus
  evaluate-RestoredOrSafe snapshot m h =
      if_cases (λ (r : Unit {0} × Machine S E Num). RestoredOrSafe r.1) (not m.runtime.active)
        (λ off. inr h)
        λ active.
          if_cases (λ (r : Unit {0} × Machine S E Num). RestoredOrSafe r.1)
            (not (modbus_connected snapshot.services))
            (λ lost.
              if_cases (λ (r : Unit {0} × Machine S E Num). RestoredOrSafe r.1)
                (m.resume_pending || is_restoring m.runtime.phase) (λ waiting. inr h)
                (λ first. inr (wait_for_modbus-Safe m h)))
            λ connected.
              if_cases (λ (r : Unit {0} × Machine S E Num). RestoredOrSafe r.1)
                (is_restoring m.runtime.phase) (λ again. retry_restore-RestoredOrSafe m h)
                (λ running.
                  check_running-RestoredOrSafe (now w m).0 snapshot (now w m).1
                    ((Keeps-now w fl laws path previous).at m h))

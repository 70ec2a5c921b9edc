-- ===== src/Storm/Start.antt =====
-- Lemmas about `Start` of internal/stormcharge/manager.go and the session's invariant.
use srne_inverter_to_mqtt.Base.{
  String, false, ◌≡◌, refl, subst, ap, ◌∙◌, arith, Result, ok, err, Result-cases, inl, inr, ◌⊎◌,
}
use srne_inverter_to_mqtt.Base.State.{Act, pure, ◌>>=◌, ◌>>◌, modify}
use srne_inverter_to_mqtt.Base.Float.{Float64}
use srne_inverter_to_mqtt.Store.Types.{Snapshot}
use srne_inverter_to_mqtt.Storm.Types.{
  Settings, StormError, Messages, PreviousSettings, Runtime, Machine, Reason, file_error, failed,
  start_failed, persistence_failed,
}
use srne_inverter_to_mqtt.Storm.World.{World, outside, save_locked, save_steps, now}
use srne_inverter_to_mqtt.Storm.Manager.{
  update, restore_locked, both_errors, abort_start, settle_confirm, confirm_start, settle_apply,
  settle_record, new_session, begin_session, check_start, previous_settings, with_previous, start,
  empty_runtime,
}
use srne_inverter_to_mqtt.Storm.Registers.{apply_storm_settings}
use srne_inverter_to_mqtt.Storm.Telemetry.{required_numeric}
use srne_inverter_to_mqtt.Storm.Disk.{DiskLaws, Stored, save_steps_lem}
use srne_inverter_to_mqtt.Storm.Quiet.{apply_storm_settings-IsQuiet}
use srne_inverter_to_mqtt.Storm.Session.{
  IsActive, IsRecoverable, Leads, Leads-bind, Leads-then, Keeps-update, Keeps-outside, Keeps-now,
  Keeps-save, Keeps-save_ignoring,
}
use srne_inverter_to_mqtt.Storm.Recovery.{Restored, Leads-restore_locked}

module _ {S E Num : Type 0} (w : World S E Num) (fl : Float64 Num) (laws : DiskLaws w)
    (path : String) (previous : PreviousSettings Num) where
  -- The session has ended, or it is recoverable.
  abbrev EndedOrSafe : Machine S E Num → Type 0
  EndedOrSafe m = (m.runtime.active ≡ false) ⊎ IsRecoverable w fl laws path previous m

  abbrev Ends : {A : Type 0} → Act (Machine S E Num) A → Type 0
  Ends a = Leads w fl laws path previous a (λ _. EndedOrSafe)

  both_errors-kept :
      (e : StormError E Num) (r : Result (Messages E Num) (Unit {0})) (m : Machine S E Num)
      → Restored w fl laws path previous r m
      → EndedOrSafe (both_errors w fl e r m).1
  unfolding both_errors pure
  both_errors-kept e (ok _) m h = inl h
  both_errors-kept e (err es) m h = inr h

  Ends-failed :
      (e : StormError E Num) (r : Reason)
      → Ends (restore_locked w fl failed r >>= both_errors w fl e)
  unfolding ◌>>=◌
  Ends-failed e r = record {
    at = λ m h.
        both_errors-kept e _ _ ((Leads-restore_locked w fl laws path previous failed r).at m h);
  }

  Ends-abort_start : (e : StormError E Num) → Ends (abort_start w fl e)
  unfolding abort_start
  Ends-abort_start e =
      Leads-then w fl laws path previous
        (Keeps-update w fl laws path previous _ (λ r. refl) (λ r. refl) (λ r. refl))
        (Leads-bind w fl laws path previous (Keeps-now w fl laws path previous) λ t.
          Leads-then w fl laws path previous
            (Keeps-update w fl laws path previous _ (λ r. refl) (λ r. refl) (λ r. refl))
            (Leads-then w fl laws path previous (Keeps-save_ignoring w fl laws path previous)
              (Ends-failed e start_failed)))

  Ends-settle_confirm : (r : Result E (Unit {0})) → Ends (settle_confirm w fl r)
  unfolding settle_confirm pure
  Ends-settle_confirm (ok _) = record { at = λ m h. inr h }
  Ends-settle_confirm (err e) =
      Leads-then w fl laws path previous
        (Keeps-update w fl laws path previous _ (λ r. refl) (λ r. refl) (λ r. refl))
        (Ends-failed (file_error e) persistence_failed)

  Ends-settle_apply : (r : Result (StormError E Num) (Unit {0})) → Ends (settle_apply w fl r)
  unfolding settle_apply confirm_start
  Ends-settle_apply (err e) = Ends-abort_start e
  Ends-settle_apply (ok _) =
      Leads-then w fl laws path previous
        (Keeps-update w fl laws path previous _ (λ r. refl) (λ r. refl) (λ r. refl))
        (Leads-bind w fl laws path previous (Keeps-now w fl laws path previous) λ t.
          Leads-then w fl laws path previous
            (Keeps-update w fl laws path previous _ (λ r. refl) (λ r. refl) (λ r. refl))
            (Leads-bind w fl laws path previous (Keeps-save w fl laws path previous)
              Ends-settle_confirm))

  Ends-apply :
      (settings : Settings Num)
      → Ends (outside w (apply_storm_settings w settings) >>= settle_apply w fl)
  Ends-apply settings =
      Leads-bind w fl laws path previous
        (Keeps-outside w fl laws path previous (apply_storm_settings-IsQuiet w laws path settings))
        Ends-settle_apply

  Ends-settle_record : (settings : Settings Num) → Ends (settle_record w fl settings (ok tt))
  unfolding settle_record
  Ends-settle_record settings = Ends-apply settings

  -- A new session that is recorded, or not: nothing is written to the inverter before it is.
  recorded-EndedOrSafe :
      (settings : Settings Num) (m : Machine S E Num)
      → m.state_path ≡ path
      → IsActive w fl laws path previous m.runtime
      → EndedOrSafe ((save_locked w >>= settle_record w fl settings) m).1
  unfolding ◌>>=◌ save_locked outside
  recorded-EndedOrSafe settings m same active =
      elim (save_steps_lem w laws m.state_path m.runtime m.outside) [
        | inr (e, lost, _) ↦
            rw lost (unfold settle_record ◌>>◌ update modify pure empty_runtime in inl refl)
        | inl (saved, stored) ↦ rw saved (
            (Ends-settle_record settings).at
              (record m { outside = (save_steps w m.state_path m.runtime m.outside).1 })
              (record {
                same_path = same;
                in_memory = active;
                on_disk = record {
                  runtime = m.runtime;
                  stored =
                      subst
                        (λ p.
                          Stored w laws p m.runtime
                            (save_steps w m.state_path m.runtime m.outside).1)
                        same stored;
                  is_active = active;
                };
              }))
      ]

  begin_session-EndedOrSafe :
      (settings : Settings Num) (m : Machine S E Num)
      → m.state_path ≡ path
      → EndedOrSafe (begin_session w fl settings previous m).1
  unfolding begin_session ◌>>=◌ ◌>>◌ update modify now outside
  begin_session-EndedOrSafe settings m same =
      recorded-EndedOrSafe settings
        (record m {
          runtime = new_session w fl settings previous (w.now m.outside).0;
          outside = (w.now m.outside).1;
        })
        same (unfold new_session in record { active = refl; version = refl; same_previous = refl })

module _ {S E Num : Type 0} (w : World S E Num) (fl : Float64 Num) (laws : DiskLaws w) where
  -- Collecting the previous settings changes nothing of the manager itself.
  previous_settings-same :
      (snapshot : Snapshot Num) (m : Machine S E Num)
      → let n = (previous_settings w fl snapshot m).1 in
        (n.state_path ≡ m.state_path) × (n.runtime ≡ m.runtime)
  unfolding previous_settings pure ◌>>=◌ outside
  previous_settings-same snapshot m =
      elim (Result-cases (required_numeric fl {E = E} snapshot "battery_charge_cutoff_soc")) [
        | inr (e, no_cutoff) ↦ rw (no_cutoff, previous_settings) (refl, refl)
        | inl (c, cutoff) ↦
            elim (Result-cases
              (required_numeric fl {E = E} snapshot "mains_charge_current_limit")) [
                | inr (e, no_current) ↦ rw (cutoff, no_current, previous_settings) (refl, refl)
                | inl (a, current) ↦ ground (arith, cutoff, current)
              ]
      ]

  with_previous-EndedOrSafe :
      (settings : Settings Num) (path : String) (r : Result (Messages E Num) (PreviousSettings Num))
      (m : Machine S E Num)
      → m.state_path ≡ path
      → m.runtime.active ≡ false
      → let n = (with_previous w fl settings r m).1 in
        (n.runtime.active ≡ false)
        ⊎ ((previous : PreviousSettings Num) × IsRecoverable w fl laws path previous n)
  unfolding with_previous pure
  with_previous-EndedOrSafe settings path (err es) m same idle = inl idle
  with_previous-EndedOrSafe settings path (ok previous) m same idle =
      elim (begin_session-EndedOrSafe w fl laws path previous settings m same) [
        | inl over ↦ inl over
        | inr safe ↦ inr (previous, safe)
      ]

  -- Over a world that obeys DiskLaws, from an inactive manager Start leaves, whatever fails, either
  -- no active session or a session that memory and the state file both hold as active, of version 2
  -- and with the same previous settings.
  pub start-EndedOrSafe :
      (snapshot : Snapshot Num) (settings : Settings Num) (m : Machine S E Num)
      → m.runtime.active ≡ false
      → let r = start w fl snapshot settings m in
        (r.1.runtime.active ≡ false)
        ⊎ ((previous : PreviousSettings Num) × IsRecoverable w fl laws m.state_path previous r.1)
  unfolding start ◌>>=◌
  start-EndedOrSafe snapshot settings m idle =
      elim (Result-cases (check_start w fl m.runtime.active snapshot settings)) [
        | inr (e, refused) ↦ rw (refused, start) (inl idle)
        | inl (_, fine) ↦
            let (same_path, same) = previous_settings-same snapshot m in
            rw (fine, start)
              (with_previous-EndedOrSafe settings m.state_path _ _ same_path
                (ap (λ (r : Runtime E Num). r.active) same ∙ idle))
      ]

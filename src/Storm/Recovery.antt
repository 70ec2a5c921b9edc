-- ===== src/Storm/Recovery.antt =====
-- Lemmas about `restoreLocked` of internal/stormcharge/manager.go and the session's invariant.
use srne_inverter_to_mqtt.Base.{String, false, ◌≡◌, refl, subst, [], ◌∷◌, Result, ok, err, inl, inr}
use srne_inverter_to_mqtt.Base.State.{Act, pure, ◌>>=◌, ◌>>◌, modify}
use srne_inverter_to_mqtt.Base.Float.{Float64}
use srne_inverter_to_mqtt.Storm.Types.{Phase, Reason, Messages, PreviousSettings, Runtime, Machine}
use srne_inverter_to_mqtt.Storm.World.{World, outside, save_locked, save_steps}
use srne_inverter_to_mqtt.Storm.Manager.{
  update, restore_failed, restore_done, settle_restore, restore_end, restore_locked,
}
use srne_inverter_to_mqtt.Storm.Disk.{DiskLaws, save_steps_lem}
use srne_inverter_to_mqtt.Storm.Quiet.{restore_settings-IsQuiet}
use srne_inverter_to_mqtt.Storm.Session.{
  IsRecoverable, Leads, Leads-bind, Leads-then, Keeps-gets, Keeps-update, Keeps-outside, Keeps-now,
  Keeps-save_ignoring, OnDisk-same,
}

module _ {S E Num : Type 0} (w : World S E Num) (fl : Float64 Num) (laws : DiskLaws w)
    (path : String) (previous : PreviousSettings Num) where
  -- A restore that succeeds ends the session; one that fails leaves it recoverable.
  abbrev pub Restored : Result (Messages E Num) (Unit {0}) → Machine S E Num → Type 0
  Restored (ok _) m = m.runtime.active ≡ false
  Restored (err _) m = IsRecoverable w fl laws path previous m

  abbrev Lead : {A : Type 0} → Act (Machine S E Num) A → (A → Machine S E Num → Type 0) → Type 0
  Lead = Leads w fl laws path previous

  Leads-err : (errors : Messages E Num) → Lead (pure (err errors)) Restored
  unfolding pure
  Leads-err errors = record { at = λ m h. h }

  Leads-restore_failed : (errors : Messages E Num) → Lead (restore_failed w fl errors) Restored
  unfolding restore_failed
  Leads-restore_failed errors =
      Leads-bind w fl laws path previous (Keeps-now w fl laws path previous) λ t.
        Leads-then w fl laws path previous
          (Keeps-update w fl laws path previous _ (λ r. refl) (λ r. refl) (λ r. refl))
          (Leads-then w fl laws path previous (Keeps-save_ignoring w fl laws path previous)
            (Leads-err errors))

  -- The last save decides: the session has ended, or it is active again in memory and on the disk.
  Leads-restore_done : (p : Phase) → Lead (restore_done w fl p) Restored
  unfolding restore_done
  Leads-restore_done p = Leads-bind w fl laws path previous (Keeps-now w fl laws path previous) λ t.
      record {
        at = λ m h.
            unfold ◌>>=◌ ◌>>◌ update modify pure save_locked outside in
            let over : Runtime E Num = record m.runtime {
              active = false;
              phase = p;
              deadline = 0;
              updated_at = t;
              last_error = [];
            } in
            elim (save_steps_lem w laws m.state_path over m.outside) [
              | inl (saved, _) ↦ rw saved (unfold settle_restore pure in refl)
              | inr (e, failed, same) ↦ rw failed (
                  unfold settle_restore ◌>>◌ pure update modify in
                  (record {
                    same_path = h.same_path;
                    in_memory = record {
                      active = refl;
                      version = h.in_memory.version;
                      same_previous = h.in_memory.same_previous;
                    };
                    on_disk =
                        OnDisk-same w fl laws path previous
                          (subst
                            (λ q.
                              laws.file (save_steps w m.state_path over m.outside).1 q
                              ≡ laws.file m.outside q)
                            h.same_path same)
                          h.on_disk;
                  }))
            ];
      }

  Leads-restore_end :
      (p : Phase) (errors : Messages E Num) → Lead (restore_end w fl p errors) Restored
  unfolding restore_end
  Leads-restore_end p [] = Leads-restore_done p
  Leads-restore_end p (e ∷ es) = Leads-restore_failed (e ∷ es)

  pub Leads-restore_locked : (p : Phase) (r : Reason) → Lead (restore_locked w fl p r) Restored
  unfolding restore_locked
  Leads-restore_locked p r =
      Leads-then w fl laws path previous
        (Keeps-update w fl laws path previous _ (λ r. refl) (λ r. refl) (λ r. refl))
        (Leads-bind w fl laws path previous (Keeps-now w fl laws path previous) λ t.
          Leads-then w fl laws path previous
            (Keeps-update w fl laws path previous _ (λ r. refl) (λ r. refl) (λ r. refl))
            (Leads-then w fl laws path previous (Keeps-save_ignoring w fl laws path previous) (
              Leads-bind w fl laws path previous (Keeps-gets w fl laws path previous _) λ kept.
                Leads-bind w fl laws path previous
                  (Keeps-outside w fl laws path previous
                    (restore_settings-IsQuiet w laws path kept))
                  (Leads-restore_end p))))

-- ===== src/Storm/Quiet.antt =====
-- Lemmas about the writes to the inverter in internal/stormcharge/manager.go: the files and them.
use srne_inverter_to_mqtt.Base.{
  ℕ, zero, suc, ◌+◌, ◌%◌, ◌^◌, String, ◌≡◌, refl, ◌∙◌, List, [], ◌∷◌, length, get_or, Result, ◌==◌,
  Result-cases, Bool-cases, inl, inr,
}
use srne_inverter_to_mqtt.Base.State.{Act, pure, ◌>>=◌}
use srne_inverter_to_mqtt.Registers.Types.{Value}
use srne_inverter_to_mqtt.Storm.Types.{Settings, PreviousSettings, StormError}
use srne_inverter_to_mqtt.Storm.World.{World}
use srne_inverter_to_mqtt.Storm.Registers.{
  timed_charge_address, timed_charge_words, write_slots, write_enable, and_then,
  write_timed_charge_schedule, write_setting, apply_storm_settings, restore_schedule,
  restore_settings, storm_schedule,
}
use srne_inverter_to_mqtt.Storm.Disk.{DiskLaws}

module _ {S E Num : Type 0} (w : World S E Num) (laws : DiskLaws w) (path : String) where
  pub record IsQuiet {A : Type 0} (a : Act S A) : Type 0 where
    pub at : (s : S) → laws.file (a s).1 path ≡ laws.file s path

  abbrev Outcome : Type 0
  Outcome = Result (StormError E Num) (Unit {0})

  and_then-IsQuiet : {a b : Act S Outcome} → IsQuiet a → IsQuiet b → IsQuiet (and_then w a b)
  unfolding and_then
  and_then-IsQuiet {a} {b} qa qb = record {
    at = λ s. elim (Result-cases (a s).0) [
      | inr (e, failed) ↦ rw (failed, and_then) (qa.at s)
      | inl (_, done) ↦ rw (done, and_then) (qb.at (a s).1 ∙ qa.at s)
    ];
  }

  bind-IsQuiet :
      {A B : Type 0} {a : Act S A} {f : A → Act S B}
      → IsQuiet a
      → ((x : A) → IsQuiet (f x))
      → IsQuiet (a >>= f)
  unfolding ◌>>=◌
  bind-IsQuiet {a} {f} qa qf = record { at = λ s. (qf (a s).0).at (a s).1 ∙ qa.at s }

  pure-IsQuiet : {A : Type 0} (x : A) → IsQuiet (pure x)
  unfolding pure
  pure-IsQuiet x = record { at = λ s. refl }

  write_enable-IsQuiet : (values : List ℕ) → IsQuiet (write_enable w values)
  unfolding write_enable
  write_enable-IsQuiet values = record {
    at = λ s.
        let words = get_or values 6 0 ∷ [] in
        elim (Result-cases (w.write_holding_words (timed_charge_address + 6) words s).0) [
          | inr (e, failed) ↦
              rw (failed, write_enable) (laws.write_holding_words_files _ words s path)
          | inl (_, done) ↦ rw (done, write_enable) (laws.write_holding_words_files _ words s path)
        ];
  }

  write_slots_files :
      (left offset : ℕ) (values : List ℕ) (s : S)
      → laws.file (write_slots w left offset values s).1 path ≡ laws.file s path
  unfolding write_slots
  write_slots_files zero offset values s = refl
  write_slots_files (suc left) offset values s =
      let address = (timed_charge_address + offset) % 2 ^ 16 in
      let words = get_or values offset 0 ∷ [] in
      let next = (w.write_holding_words address words s).1 in
      elim (Result-cases (w.write_holding_words address words s).0) [
        | inr (e, failed) ↦
            rw (failed, write_slots) (laws.write_holding_words_files address words s path)
        | inl (_, done) ↦
            rw (done, write_slots)
              (write_slots_files left (offset + 1) values next
                ∙ laws.write_holding_words_files address words s path)
      ]

  write_slots-IsQuiet :
      (left offset : ℕ) (values : List ℕ) → IsQuiet (write_slots w left offset values)
  write_slots-IsQuiet left offset values = record { at = write_slots_files left offset values }

  schedule-IsQuiet : (values : List ℕ) → IsQuiet (write_timed_charge_schedule w values)
  unfolding write_timed_charge_schedule
  schedule-IsQuiet values = elim (Bool-cases (length values == timed_charge_words)) [
    | inr e ↦ rw e (pure-IsQuiet _)
    | inl e ↦ elim (Bool-cases (get_or values 6 0 == 0)) [
      | inl off ↦
          rw (e, off)
            (and_then-IsQuiet (write_enable-IsQuiet values) (write_slots-IsQuiet 6 0 values))
      | inr enabled ↦
          rw (e, enabled)
            (and_then-IsQuiet (write_slots-IsQuiet 6 0 values) (write_enable-IsQuiet values))
    ]
  ]

  write_setting-IsQuiet : (id : String) (v : Value Num) → IsQuiet (write_setting w id v)
  unfolding write_setting
  write_setting-IsQuiet id v = record {
    at = λ s. elim (Result-cases (w.write_register id v s).0) [
      | inr (e, failed) ↦ rw (failed, write_setting) (laws.write_register_files id v s path)
      | inl (_, done) ↦ rw (done, write_setting) (laws.write_register_files id v s path)
    ];
  }

  pub apply_storm_settings-IsQuiet :
      (settings : Settings Num) → IsQuiet (apply_storm_settings w settings)
  unfolding apply_storm_settings
  apply_storm_settings-IsQuiet settings =
      and_then-IsQuiet (write_setting-IsQuiet _ _)
        (and_then-IsQuiet (write_setting-IsQuiet _ _) (schedule-IsQuiet storm_schedule))

  restore_schedule-IsQuiet : (schedule : List ℕ) → IsQuiet (restore_schedule w schedule)
  unfolding restore_schedule
  restore_schedule-IsQuiet schedule = elim (Bool-cases (length schedule == timed_charge_words)) [
    | inl e ↦ rw e (schedule-IsQuiet schedule)
    | inr e ↦ rw e (pure-IsQuiet _)
  ]

  pub restore_settings-IsQuiet :
      (previous : PreviousSettings Num) → IsQuiet (restore_settings w previous)
  unfolding restore_settings
  restore_settings-IsQuiet previous =
      bind-IsQuiet (restore_schedule-IsQuiet previous.timed_charge_schedule) (λ x.
        bind-IsQuiet (write_setting-IsQuiet _ _)
          (λ y. bind-IsQuiet (write_setting-IsQuiet _ _) (λ z. pure-IsQuiet _)))

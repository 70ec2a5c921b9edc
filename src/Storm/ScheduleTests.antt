-- ===== src/Storm/ScheduleTests.antt =====
-- Runs of `writeTimedChargeSchedule` on an inverter that is a function from addresses to words.
use srne_inverter_to_mqtt.Base.{
  ℕ, ◌+◌, ◌≡◌, refl, [], get_or, none, ok, err, arith, ◌==◌, if◌then◌else◌,
}
use srne_inverter_to_mqtt.Storm.Types.{write_slot_failed}
use srne_inverter_to_mqtt.Storm.World.{World}
use srne_inverter_to_mqtt.Storm.Registers.{
  timed_charge_address, storm_schedule, write_timed_charge_schedule, write_slots, write_enable,
  and_then,
}
use srne_inverter_to_mqtt.Storm.Schedule.{
  WordLaws, write_timed_charge_schedule-word, write_timed_charge_schedule-enable,
}

abbrev Panel : Type 0
Panel = ℕ → ℕ

abbrev put : ℕ → ℕ → Panel → Panel
put a v s b = if b == a then v else s b

-- Refuses writes to one address.
abbrev panel : ℕ → World Panel (Unit {0}) ℕ
panel broken = record {
  write_register = λ id v s. (ok tt, s);
  read_holding_words = λ a n s. (ok [], s);
  write_holding_words =
      λ a ws s. if a == broken then (err tt, s) else (ok tt, put a (get_or ws 0 0) s);
  mkdir_all = λ p s. (ok tt, s);
  write_file = λ p c s. (ok tt, s);
  rename = λ p q s. (ok tt, s);
  read_file = λ p s. ok none;
  marshal = λ r. err tt;
  unmarshal = λ c r. err tt;
  now = λ s. (0, s);
}

panel-WordLaws : (broken : ℕ) → WordLaws (panel broken)
panel-WordLaws broken = record {
  word = λ s a. s a;
  write_seen = λ a v s done. ground arith;
  write_others = λ a v b s other. ground arith;
}

abbrev blank : Panel
blank a = 0

written : (write_timed_charge_schedule (panel 0) storm_schedule blank).0 ≡ ok tt
unfolding write_timed_charge_schedule and_then write_slots write_enable
written = refl

write_timed_charge_schedule-word_example :
    (panel-WordLaws 0).word
      (write_timed_charge_schedule (panel 0) storm_schedule blank).1
      (timed_charge_address + 3)
    ≡ get_or storm_schedule 3 0
write_timed_charge_schedule-word_example =
    write_timed_charge_schedule-word (panel 0) (panel-WordLaws 0) storm_schedule 3 blank
      (omega arith) written

refused :
    (write_timed_charge_schedule (panel 0xE028) storm_schedule blank).0
    ≡ err (write_slot_failed 0xE028 tt)
unfolding write_timed_charge_schedule and_then write_slots write_enable
refused = refl

write_timed_charge_schedule-enable_example :
    (panel-WordLaws 0xE028).word
      (write_timed_charge_schedule (panel 0xE028) storm_schedule blank).1
      (timed_charge_address + 6)
    ≡ (panel-WordLaws 0xE028).word blank (timed_charge_address + 6)
write_timed_charge_schedule-enable_example =
    write_timed_charge_schedule-enable (panel 0xE028) (panel-WordLaws 0xE028) storm_schedule 0xE028
      tt blank (ground arith) refused

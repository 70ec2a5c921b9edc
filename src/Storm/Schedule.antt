-- ===== src/Storm/Schedule.antt =====
-- Lemmas about `writeTimedChargeSchedule` of internal/stormcharge/manager.go on an inverter that
-- holds words.
use srne_inverter_to_mqtt.Base.{
  ℕ, zero, suc, ◌+◌, ◌%◌, ◌^◌, ◌≤◌, ◌<◌, ◌≡◌, ◌≢◌, refl, sym, ap, ◌∙◌, not, List, [], ◌∷◌, length,
  get_or, Result, ok, err, arith, if_cases, Result-cases, Bool-cases, subst, inl, inr, ◌⊎◌, ◌==◌,
}
use srne_inverter_to_mqtt.Base.State.{pure}
use srne_inverter_to_mqtt.Storm.Types.{StormError, write_slot_failed}
use srne_inverter_to_mqtt.Storm.World.{World}
use srne_inverter_to_mqtt.Storm.Registers.{
  timed_charge_address, timed_charge_words, write_slots, write_enable, and_then,
  write_timed_charge_schedule,
}

-- A write of one word that succeeds is seen, and one that fails or succeeds leaves the other
-- registers alone.
pub record WordLaws {S E Num : Type 0} (w : World S E Num) : Type 0 where
  pub word : S → ℕ → ℕ
  pub write_seen :
      (a v : ℕ) (s : S)
      → (w.write_holding_words a (v ∷ []) s).0 ≡ ok tt
      → word (w.write_holding_words a (v ∷ []) s).1 a ≡ v
  pub write_others :
      (a v b : ℕ) (s : S) → b ≢ a → word (w.write_holding_words a (v ∷ []) s).1 b ≡ word s b

module _ {S E Num : Type 0} (w : World S E Num) (laws : WordLaws w) (values : List ℕ) where
  abbrev Outcome : Type 0
  Outcome = Result (StormError E Num) (Unit {0})

  abbrev slot : ℕ → ℕ
  slot i = timed_charge_address + i

  abbrev written_slot : ℕ → S → Result E (Unit {0}) × S
  written_slot offset s =
      w.write_holding_words ((timed_charge_address + offset) % 2 ^ 16) (get_or values offset 0 ∷ [])
        s

  slot_address : (offset : ℕ) → offset < 7 → (timed_charge_address + offset) % 2 ^ 16 ≡ slot offset
  slot_address offset h = omega arith

  written_slot-others :
      (offset i : ℕ) (s : S)
      → offset < 7
      → i ≢ offset
      → laws.word (written_slot offset s).1 (slot i) ≡ laws.word s (slot i)
  written_slot-others offset i s h ne =
      laws.write_others _ _ (slot i) s (λ e. ne (omega (arith, slot_address offset h, e)))

  written_slot-seen :
      (offset : ℕ) (s : S)
      → offset < 7
      → (written_slot offset s).0 ≡ ok tt
      → laws.word (written_slot offset s).1 (slot offset) ≡ get_or values offset 0
  written_slot-seen offset s h done =
      ap (λ (a : ℕ). laws.word (written_slot offset s).1 a) (sym (slot_address offset h))
      ∙ laws.write_seen _ _ s done

  seen_at :
      (offset i : ℕ) (s : S)
      → offset < 7
      → i ≡ offset
      → (written_slot offset s).0 ≡ ok tt
      → laws.word (written_slot offset s).1 (slot i) ≡ get_or values i 0
  seen_at offset i s h same done =
      subst (λ (j : ℕ). laws.word (written_slot offset s).1 (slot j) ≡ get_or values j 0) (sym same)
        (written_slot-seen offset s h done)

  abbrev enabled : S → Result E (Unit {0}) × S
  enabled s = w.write_holding_words (timed_charge_address + 6) (get_or values 6 0 ∷ []) s

  enabled_others : (i : ℕ) (s : S) → i ≢ 6 → laws.word (enabled s).1 (slot i) ≡ laws.word s (slot i)
  enabled_others i s ne =
      laws.write_others _ _ (slot i) s
        (λ (e : slot i ≡ timed_charge_address + 6). ne (omega (arith, e)))

  -- The slots below the offset and behind the last turn keep their words.
  write_slots-others :
      (left offset i : ℕ) (s : S)
      → offset + left ≤ 6
      → (i < offset) ⊎ (offset + left ≤ i)
      → laws.word (write_slots w left offset values s).1 (slot i) ≡ laws.word s (slot i)
  unfolding write_slots
  write_slots-others zero offset i s h side = refl
  write_slots-others (suc left) offset i s h side = elim (Result-cases (written_slot offset s).0) [
    | inr (e, lost) ↦
        rw (lost, write_slots) (written_slot-others offset i s (omega arith) (ground arith))
    | inl (_, done) ↦
        rw (done, write_slots)
          (write_slots-others left (offset + 1) i (written_slot offset s).1 (omega arith)
              (ground arith)
            ∙ written_slot-others offset i s (omega arith) (ground arith))
  ]

  write_slots-seen :
      (left offset i : ℕ) (s : S)
      → offset + left ≤ 6
      → (write_slots w left offset values s).0 ≡ ok tt
      → offset ≤ i
      → i < offset + left
      → laws.word (write_slots w left offset values s).1 (slot i) ≡ get_or values i 0
  unfolding write_slots
  write_slots-seen zero offset i s h done low high = absurd (omega arith)
  write_slots-seen (suc left) offset i s h ok_all low high =
      elim (Result-cases (written_slot offset s).0) [
        | inr (e, lost) ↦ ground arith
        | inl (_, done) ↦ elim (Bool-cases (i == offset)) [
          | inl same ↦
              rw (done, write_slots)
                (write_slots-others left (offset + 1) i (written_slot offset s).1 (omega arith)
                    (inl (ground arith))
                  ∙ seen_at offset i s (omega arith) (ground arith) done)
          | inr other ↦
              rw (done, write_slots)
                (write_slots-seen left (offset + 1) i (written_slot offset s).1 (omega arith)
                  (rw (done, write_slots) at ok_all) (ground arith) (omega arith))
        ]
      ]

  write_enable-others :
      (i : ℕ) (s : S)
      → i ≢ 6
      → laws.word (write_enable w values s).1 (slot i) ≡ laws.word s (slot i)
  unfolding write_enable
  write_enable-others i s ne = elim (Result-cases (enabled s).0) [
    | inr (e, lost) ↦ rw (lost, write_enable) (enabled_others i s ne)
    | inl (_, done) ↦ rw (done, write_enable) (enabled_others i s ne)
  ]

  write_enable-seen :
      (s : S)
      → (write_enable w values s).0 ≡ ok tt
      → laws.word (write_enable w values s).1 (slot 6) ≡ get_or values 6 0
  unfolding write_enable
  write_enable-seen s done = elim (Result-cases (enabled s).0) [
    | inr (e, lost) ↦ ground arith
    | inl (_, fine) ↦ rw (fine, write_enable) (laws.write_seen _ _ s fine)
  ]

  -- The order of the two parts, each seen by the last register that it writes.
  and_then-ok :
      (first second : S → Outcome × S) (s : S)
      → (and_then w first second s).0 ≡ ok tt
      → ((first s).0 ≡ ok tt)
        × ((second (first s).1).0 ≡ ok tt)
        × ((and_then w first second s).1 ≡ (second (first s).1).1)
  unfolding and_then
  and_then-ok first second s done = elim (Result-cases (first s).0) [
    | inr (e, lost) ↦ ground arith
    | inl (_, fine) ↦ (fine, rw (fine, and_then) at done, rw (fine, and_then) refl)
  ]

  all_seen :
      (i : ℕ) (s : S)
      → i < 7
      → (and_then w (write_slots w 6 0 values) (write_enable w values) s).0 ≡ ok tt
      → laws.word (and_then w (write_slots w 6 0 values) (write_enable w values) s).1 (slot i)
        ≡ get_or values i 0
  all_seen i s h done =
      let (slots, enable, same) =
        and_then-ok (write_slots w 6 0 values) (write_enable w values) s done in
      ap (λ (t : S). laws.word t (slot i)) same ∙ elim (Bool-cases (i == 6)) [
        | inl last ↦
            subst
              (λ (j : ℕ).
                laws.word (write_enable w values (write_slots w 6 0 values s).1).1 (slot j)
                ≡ get_or values j 0)
              {x = 6} {y = i} (ground arith)
              (write_enable-seen (write_slots w 6 0 values s).1 enable)
        | inr other ↦
            write_enable-others i (write_slots w 6 0 values s).1 (ground arith)
            ∙ write_slots-seen 6 0 i s (omega arith) slots (omega arith) (ground arith)
      ]

  all_seen_disabled :
      (i : ℕ) (s : S)
      → i < 7
      → (and_then w (write_enable w values) (write_slots w 6 0 values) s).0 ≡ ok tt
      → laws.word (and_then w (write_enable w values) (write_slots w 6 0 values) s).1 (slot i)
        ≡ get_or values i 0
  all_seen_disabled i s h done =
      let (enable, slots, same) =
        and_then-ok (write_enable w values) (write_slots w 6 0 values) s done in
      ap (λ (t : S). laws.word t (slot i)) same ∙ elim (Bool-cases (i == 6)) [
        | inl last ↦
            subst
              (λ (j : ℕ).
                laws.word (write_slots w 6 0 values (write_enable w values s).1).1 (slot j)
                ≡ get_or values j 0)
              {x = 6} {y = i} (ground arith)
              (write_slots-others 6 0 6 (write_enable w values s).1 (omega arith)
                  (inr (omega arith))
                ∙ write_enable-seen s enable)
        | inr other ↦
            write_slots-seen 6 0 i (write_enable w values s).1 (omega arith) slots (omega arith)
              (ground arith)
      ]

  -- On an inverter where a write of one word that succeeds is seen and a write leaves the other
  -- registers alone, writeTimedChargeSchedule reports success only if each of the seven registers
  -- then holds its word of the schedule.
  pub write_timed_charge_schedule-word :
      (i : ℕ) (s : S)
      → i < 7
      → (write_timed_charge_schedule w values s).0 ≡ ok tt
      → laws.word (write_timed_charge_schedule w values s).1 (timed_charge_address + i)
        ≡ get_or values i 0
  unfolding write_timed_charge_schedule pure
  write_timed_charge_schedule-word i s h =
      if_cases
        (λ (a : S → Outcome × S). (a s).0 ≡ ok tt → laws.word (a s).1 (slot i) ≡ get_or values i 0)
        (not (length values == timed_charge_words)) (λ wrong_length done. absurd cc)
        λ seven.
          if_cases
            (λ (a : S → Outcome × S).
              (a s).0 ≡ ok tt → laws.word (a s).1 (slot i) ≡ get_or values i 0)
            (get_or values 6 0 == 0) (λ disabled. all_seen_disabled i s h)
            (λ enabled. all_seen i s h)

  write_enable-ne :
      (a : ℕ) (e : E) (s : S) → (write_enable w values s).0 ≢ err (write_slot_failed a e)
  unfolding write_enable
  write_enable-ne a e s failed = elim (Result-cases (enabled s).0) [
    | inr (x, lost) ↦ ground arith
    | inl (_, fine) ↦ ground arith
  ]

  slot_error-enable :
      (a : ℕ) (e : E) (s : S)
      → (and_then w (write_slots w 6 0 values) (write_enable w values) s).0
        ≡ err (write_slot_failed a e)
      → laws.word (and_then w (write_slots w 6 0 values) (write_enable w values) s).1 (slot 6)
        ≡ laws.word s (slot 6)
  unfolding and_then
  slot_error-enable a e s failed = elim (Result-cases (write_slots w 6 0 values s).0) [
    | inr (x, lost) ↦
        rw (lost, and_then) (write_slots-others 6 0 6 s (omega arith) (inr (omega arith)))
    | inl (_, slots) ↦
        absurd (write_enable-ne a e (write_slots w 6 0 values s).1 (rw (slots, and_then) at failed))
  ]

  -- On an inverter where a write of one word that succeeds is seen and a write leaves the other
  -- registers alone, writing a schedule that is to be enabled leaves the enable register as it was
  -- when the write of a slot fails.
  pub write_timed_charge_schedule-enable :
      (a : ℕ) (e : E) (s : S)
      → get_or values 6 0 ≢ 0
      → (write_timed_charge_schedule w values s).0 ≡ err (write_slot_failed a e)
      → laws.word (write_timed_charge_schedule w values s).1 (timed_charge_address + 6)
        ≡ laws.word s (timed_charge_address + 6)
  unfolding write_timed_charge_schedule pure
  write_timed_charge_schedule-enable a e s wanted =
      if_cases
        (λ (b : S → Outcome × S).
          (b s).0 ≡ err (write_slot_failed a e) → laws.word (b s).1 (slot 6) ≡ laws.word s (slot 6))
        (not (length values == timed_charge_words)) (λ wrong_length failed. refl)
        λ seven.
          if_cases
            (λ (b : S → Outcome × S).
              (b s).0 ≡ err (write_slot_failed a e)
              → laws.word (b s).1 (slot 6) ≡ laws.word s (slot 6))
            (get_or values 6 0 == 0) (λ disabled failed. absurd (wanted (ground arith)))
            (λ enabling. slot_error-enable a e s)

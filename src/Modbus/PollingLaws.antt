-- ===== src/Modbus/PollingLaws.antt =====
-- Lemmas about the poll cycle of internal/modbus/service.go.
use srne_inverter_to_mqtt.Base.{
  ℕ, suc, ◌+◌, ◌^◌, ◌%◌, ◌-◌, String, Bool, List, [], ◌∷◌, ◌++◌, map, length, take, drop, All,
  Result, ok, err, leb, ltb, ◌≡◌, refl, sym, ap, ◌∙◌, if_cases, Result-cases, inl, inr, arith,
}
use mathlib.Core.List.{append_assoc}
use srne_inverter_to_mqtt.Base.Float.{Float64}
use srne_inverter_to_mqtt.Config.Types.{Config}
use srne_inverter_to_mqtt.Registers.Types.{Register, ReadRange, DecodedValue}
use srne_inverter_to_mqtt.Registers.Words.{words_from_bytes}
use srne_inverter_to_mqtt.Registers.Decode.{decode}
use srne_inverter_to_mqtt.Registers.DecodeLaws.{decode-raw}
use srne_inverter_to_mqtt.Registers.PlanShape.{registers_of}
use srne_inverter_to_mqtt.Modbus.Types.{BusError, Link, Bus}
use srne_inverter_to_mqtt.Modbus.Connection.{ensure_client}
use srne_inverter_to_mqtt.Modbus.Polling.{
  PollError, Cycle, note_error, note_value, note_decoded, decode_at, decode_register, decode_range,
  decode_bytes, read_range, note_open_failure, poll_ranges, empty_cycle,
  max_open_failures_per_cycle, range_failed, decode_overflow, aborted,
}

module _ {Num : Type 0} where
  abbrev pub id_of : Register Num → String
  id_of reg = reg.id

  abbrev pub value_id : DecodedValue Num → String
  value_id v = v.id

  abbrev pub IsOf : ℕ → DecodedValue Num → Type 0
  IsOf now v = v.updated_at ≡ now

  map-last :
      (vs : List (DecodedValue Num)) (v : DecodedValue Num)
      → map value_id (vs ++ v ∷ []) ≡ map value_id vs ++ v.id ∷ []
  map-last [] v = refl
  map-last (w ∷ vs) v = ap (λ (t : List String). w.id ∷ t) (map-last vs v)

  All-last :
      (now : ℕ) (vs : List (DecodedValue Num)) (v : DecodedValue Num)
      → All (IsOf now) vs
      → IsOf now v
      → All (IsOf now) (vs ++ v ∷ [])
  All-last now [] v h k = (k, tt)
  All-last now (w ∷ vs) v h k = (h.0, All-last now vs v h.1 k)

not_empty : {A : Type 0} (es : List A) (e : A) → es ++ e ∷ [] ≡ [] → ⊥
not_empty [] e h = absurd cc
not_empty (x ∷ es) e h = absurd cc

append_empty : {A : Type 0} (xs : List A) → xs ++ [] ≡ xs
append_empty [] = refl
append_empty (x ∷ xs) = ap (λ t. x ∷ t) (append_empty xs)

module _ {E Num : Type 0} (now : ℕ) where
  -- Unless an error was noted, the values are those of these registers, of this moment.
  abbrev pub IsDone : List String → Cycle E Num → Type 0
  IsDone ids cycle =
      cycle.errors ≡ [] → (map value_id cycle.values ≡ ids) × All (IsOf now) cycle.values

  note_error-IsDone :
      (ids : List String) (e : PollError E) (cycle : Cycle E Num) → IsDone ids (note_error e cycle)
  unfolding note_error
  note_error-IsDone ids e cycle h = absurd (not_empty cycle.errors e h)

  note_value-IsDone :
      (ids : List String) (id : String) (v : DecodedValue Num) (cycle : Cycle E Num)
      → v.id ≡ id
      → IsOf now v
      → IsDone ids cycle
      → IsDone (ids ++ id ∷ []) (note_value v cycle)
  unfolding note_value
  note_value-IsDone ids id v cycle e k done h =
      let (values, moments) = done h in
      (map-last cycle.values v ∙ rw (values, e) refl, All-last now cycle.values v moments k)

module _ {S C E Num : Type 0} (link : Link S C E) (fl : Float64 Num) (cfg : Config Num)
    (now : ℕ) where
  abbrev Done : List String → Cycle E Num → Type 0
  Done = IsDone now

  abbrev ids_of : List (Register Num) → List String
  ids_of = map id_of

  decode_at-ok :
      (words : List ℕ) (offset : ℕ) (reg : Register Num) (d : DecodedValue Num)
      → decode_at link fl cfg now words offset reg ≡ ok d
      → (d.id ≡ reg.id) × (d.updated_at ≡ now)
  unfolding decode_at
  decode_at-ok words offset reg d h =
      elim (Result-cases (decode fl reg (take reg.count (drop offset words)) now)) [
        | inr (e, bad) ↦ ground arith
        | inl (got, found) ↦
            let same : got ≡ d = ground arith in
            let facts = decode-raw fl reg _ now d (found ∙ ap ok same) in (facts.2, facts.3)
      ]

  note_decoded-Done :
      (ids : List String) (reg : Register Num) (r : Result (BusError E) (DecodedValue Num))
      (cycle : Cycle E Num)
      → ((d : DecodedValue Num) → r ≡ ok d → (d.id ≡ reg.id) × (d.updated_at ≡ now))
      → Done ids cycle
      → Done (ids ++ reg.id ∷ []) (note_decoded link fl cfg reg r cycle)
  unfolding note_decoded
  note_decoded-Done ids reg (err e) cycle facts done = note_error-IsDone now _ _ cycle
  note_decoded-Done ids reg (ok d) cycle facts done =
      note_value-IsDone now ids reg.id d cycle (facts d refl).0 (facts d refl).1 done

  decode_register-Done :
      (ids : List String) (range : ReadRange Num) (words : List ℕ) (reg : Register Num)
      (cycle : Cycle E Num)
      → Done ids cycle
      → Done (ids ++ reg.id ∷ []) (decode_register link fl cfg now range words reg cycle)
  unfolding decode_register
  decode_register-Done ids range words reg cycle done =
      if_cases (Done (ids ++ reg.id ∷ []))
        (ltb (length words) ((reg.address + 2 ^ 16 - range.start) % 2 ^ 16 + reg.count))
        (λ overflow. note_error-IsDone now _ (decode_overflow reg.address) cycle)
        (λ inside.
          note_decoded-Done ids reg
            (decode_at link fl cfg now words ((reg.address + 2 ^ 16 - range.start) % 2 ^ 16) reg)
            cycle (λ d. decode_at-ok words _ reg d) done)

  decode_range-Done :
      (ids : List String) (range : ReadRange Num) (words : List ℕ) (regs : List (Register Num))
      (cycle : Cycle E Num)
      → Done ids cycle
      → Done (ids ++ ids_of regs) (decode_range link fl cfg now range words regs cycle)
  unfolding decode_range
  decode_range-Done ids range words [] cycle done = rw (append_empty ids) done
  decode_range-Done ids range words (reg ∷ regs) cycle done =
      rw (← append_assoc ids (reg.id ∷ []) (ids_of regs)) (
        decode_range-Done (ids ++ reg.id ∷ []) range words regs _
          (decode_register-Done ids range words reg cycle done))

  decode_bytes-Done :
      (ids : List String) (range : ReadRange Num) (r : Result (BusError E) (List ℕ))
      (cycle : Cycle E Num)
      → Done ids cycle
      → Done (ids ++ ids_of range.registers) (decode_bytes link fl cfg now range r cycle)
  unfolding decode_bytes
  decode_bytes-Done ids range (err e) cycle done = note_error-IsDone now _ _ cycle
  decode_bytes-Done ids range (ok bytes) cycle done =
      elim (Result-cases (words_from_bytes bytes range.count)) [
        | inr (e, short) ↦ rw (short, decode_bytes) (note_error-IsDone now _ _ cycle)
        | inl (words, found) ↦
            rw (found, decode_bytes) (decode_range-Done ids range words range.registers cycle done)
      ]

  note_open_failure-Done :
      (ids : List String) (range : ReadRange Num) (e : BusError E) (cycle : Cycle E Num)
      → Done ids (note_open_failure link fl cfg range e cycle)
  unfolding note_open_failure
  note_open_failure-Done ids range e cycle =
      note_error-IsDone now ids (range_failed range.start range.count e) cycle

  map-append : (xs ys : List (Register Num)) → ids_of (xs ++ ys) ≡ ids_of xs ++ ids_of ys
  map-append [] ys = refl
  map-append (x ∷ xs) ys = ap (λ (t : List String). x.id ∷ t) (map-append xs ys)

  poll_ranges-Done :
      (again : Bool) (ids : List String) (plan : List (ReadRange Num)) (bus : Bus S C)
      (cycle : Cycle E Num)
      → Done ids cycle
      → Done
          (ids ++ ids_of (registers_of plan))
          (poll_ranges link fl cfg again now plan bus cycle).0
  unfolding poll_ranges read_range note_open_failure
  poll_ranges-Done again ids [] bus cycle done = rw (append_empty ids) done
  poll_ranges-Done again ids (range ∷ ranges) bus cycle done =
      let shape : ids ++ ids_of (range.registers ++ registers_of ranges)
          ≡ (ids ++ ids_of range.registers) ++ ids_of (registers_of ranges) =
        ap (λ t. ids ++ t) (map-append range.registers (registers_of ranges))
        ∙ sym (append_assoc ids (ids_of range.registers) (ids_of (registers_of ranges))) in
      rw shape (elim (Result-cases (ensure_client link cfg bus).0) [
        | inl (c, opened) ↦
            rw (opened, poll_ranges)
              (poll_ranges-Done again (ids ++ ids_of range.registers) ranges _ _
                (decode_bytes-Done ids range _ (record cycle { open_failures = 0 }) done))
        | inr (e, closed) ↦
            rw (closed, poll_ranges)
              (if_cases
                (λ (r : Cycle E Num × Bus S C).
                  Done ((ids ++ ids_of range.registers) ++ ids_of (registers_of ranges)) r.0)
                (leb max_open_failures_per_cycle (suc cycle.open_failures))
                (λ stop.
                  note_error-IsDone now _ aborted (note_open_failure link fl cfg range e cycle))
                (λ go.
                  poll_ranges-Done again (ids ++ ids_of range.registers) ranges _ _
                    (note_open_failure-Done (ids ++ ids_of range.registers) range e cycle)))
      ])

  -- A poll cycle that notes no error has decoded exactly the registers of its plan, in the plan's
  -- order and at the cycle's moment.
  pub poll_ranges-registers_of :
      (again : Bool) (plan : List (ReadRange Num)) (bus : Bus S C)
      → (poll_ranges link fl cfg again now plan bus (empty_cycle link fl cfg)).0.errors ≡ []
      → (map value_id
            (poll_ranges link fl cfg again now plan bus (empty_cycle link fl cfg)).0.values
          ≡ map id_of (registers_of plan))
        × All
            (IsOf now)
            (poll_ranges link fl cfg again now plan bus (empty_cycle link fl cfg)).0.values
  poll_ranges-registers_of again plan bus =
      poll_ranges-Done again [] plan bus (empty_cycle link fl cfg) (λ h. (refl, tt))

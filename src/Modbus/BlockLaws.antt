-- ===== src/Modbus/BlockLaws.antt =====
-- Lemmas about `ReadHoldingWords` and `WriteHoldingWords` of internal/modbus/service.go on a device that
-- holds words.
use srne_inverter_to_mqtt.Base.{
  ℕ, zero, suc, ◌+◌, ◌≤◌, List, [], ◌∷◌, length, take, drop, get_or, none, Result, ok, err, ◌≡◌,
  refl, sym, ap, ◌∙◌, Option-cases, Result-cases, inl, inr, if_cases, arith, ◌==◌, ltb, ◌||◌,
}
use srne_inverter_to_mqtt.Base.Letters.{is_empty}
use srne_inverter_to_mqtt.Config.Types.{Config}
use srne_inverter_to_mqtt.Registers.Words.{words_of_bytes, words_from_bytes}
use srne_inverter_to_mqtt.Modbus.Types.{BusError, Link, Bus}
use srne_inverter_to_mqtt.Modbus.Connection.{ensure_client, read_holding_with_retry}
use srne_inverter_to_mqtt.Modbus.Holding.{
  first_mismatch, decode_block, read_connected, read_holding_words, compare_block, write_block,
  write_connected, write_holding_words,
}
use srne_inverter_to_mqtt.Modbus.Blocks.{
  HoldsWords, ensure_client-block, read_holding_with_retry-block, read_holding_with_retry-words,
  report_connected-block, report_error-block,
}
use srne_inverter_to_mqtt.Clock.Device.{WordAccessor, KeepsWords}

drop_step : (i : ℕ) (xs : List ℕ) → suc i ≤ length xs → drop i xs ≡ get_or xs i 0 ∷ drop (suc i) xs
drop_step zero [] h = absurd (omega arith)
drop_step zero (x ∷ xs) h = refl
drop_step (suc i) [] h = absurd (omega arith)
drop_step (suc i) (x ∷ xs) h = drop_step i xs (omega arith)

no_mismatch :
    (i : ℕ) (values readback : List ℕ)
    → i + length values ≤ length readback
    → first_mismatch i values readback ≡ none
    → take (length values) (drop i readback) ≡ values
unfolding first_mismatch
no_mismatch i [] readback h e = refl
no_mismatch i (value ∷ values) readback h e =
    ground
      (arith, drop_step i readback (omega arith), no_mismatch (suc i) values readback (omega arith))

pub words_from_bytes-ok :
    (bytes words : List ℕ) (expected : ℕ)
    → words_from_bytes bytes expected ≡ ok words
    → (words ≡ words_of_bytes bytes) × (expected ≤ length words)
unfolding words_from_bytes
words_from_bytes-ok bytes words expected e = ground arith

module _ {S C E Num : Type 0} (link : Link S C E) (cfg : Config Num) (holds : HoldsWords link) where
  abbrev block_of : ℕ → ℕ → Bus S C → List ℕ
  block_of a n bus = holds.block bus.outside a n

  compare_block-block :
      (a : ℕ) (values : List ℕ) (r : Result (BusError E) (List ℕ) × Bus S C)
      → ((bytes : List ℕ)
          → r.0 ≡ ok bytes
          → take (length values) (words_of_bytes bytes) ≡ block_of a (length values) r.1)
      → (compare_block link cfg a values r).0 ≡ ok tt
      → block_of a (length values) (compare_block link cfg a values r).1 ≡ values
  unfolding compare_block
  compare_block-block a values (err e, bus) read h = absurd cc
  compare_block-block a values (ok bytes, bus) read h =
      elim (Result-cases (words_from_bytes bytes (length values))) [
        | inr (e, short) ↦ ground arith
        | inl (readback, found) ↦ elim (Option-cases (first_mismatch 0 values readback)) [
          | inr (where_it_is, other) ↦ ground arith
          | inl same ↦
              rw (found, same, compare_block)
                (report_connected-block link cfg holds a (length values) bus
                  ∙ sym (read bytes refl)
                  ∙ ap (take (length values)) (sym (words_from_bytes-ok bytes readback _ found).0)
                  ∙ no_mismatch 0 values readback
                      (omega (arith, words_from_bytes-ok bytes readback (length values) found))
                      same)
        ]
      ]

  write_block-block :
      (c : C) (a : ℕ) (values : List ℕ) (r : Result E (List ℕ) × Bus S C)
      → (write_block link cfg c a values r).0 ≡ ok tt
      → block_of a (length values) (write_block link cfg c a values r).1 ≡ values
  unfolding write_block
  write_block-block c a values (err e, bus) h = absurd cc
  write_block-block c a values (ok _, bus) h =
      compare_block-block a values (read_holding_with_retry link cfg c a (length values) bus)
        (λ bytes found.
          read_holding_with_retry-words link cfg holds a (length values) c bus bytes found
          ∙ sym (read_holding_with_retry-block link cfg holds a (length values) c bus))
        h

  write_connected-block :
      (a : ℕ) (values : List ℕ) (r : Result (BusError E) C × Bus S C)
      → (write_connected link cfg a values r).0 ≡ ok tt
      → block_of a (length values) (write_connected link cfg a values r).1 ≡ values
  unfolding write_connected
  write_connected-block a values (err e, bus) h = absurd cc
  write_connected-block a values (ok c, bus) h = write_block-block c a values _ h

  -- For a device whose registers only writes change, WriteHoldingWords reports success only if the
  -- device then holds the words that were written.
  pub write_holding_words-block :
      (a : ℕ) (values : List ℕ) (bus : Bus S C)
      → (write_holding_words link cfg a values bus).0 ≡ ok tt
      → holds.block (write_holding_words link cfg a values bus).1.outside a (length values) ≡ values
  unfolding write_holding_words
  write_holding_words-block a values bus =
      if_cases
        (λ (r : Result (BusError E) (Unit {0}) × Bus S C).
          r.0 ≡ ok tt → block_of a (length values) r.1 ≡ values)
        ((length values == 0) || ltb 65535 (length values)) (λ none_or_many h. absurd cc)
        λ some_values.
          if_cases
            (λ (r : Result (BusError E) (Unit {0}) × Bus S C).
              r.0 ≡ ok tt → block_of a (length values) r.1 ≡ values)
            (is_empty cfg.serial.port) (λ no_port h. absurd cc)
            (λ port. write_connected-block a values (ensure_client link cfg bus))

  -- What a read leads to: the words that the device held before it, which it still holds.
  abbrev pub Shows : ℕ → ℕ → Bus S C → Result (BusError E) (List ℕ) × Bus S C → Type 0
  Shows a n bus r =
      (block_of a n r.1 ≡ block_of a n bus)
      × ((got : List ℕ) → r.0 ≡ ok got → got ≡ block_of a n bus)

  decode_block-Shows :
      (a n : ℕ) (bus : Bus S C) (r : Result (BusError E) (List ℕ) × Bus S C)
      → block_of a n r.1 ≡ block_of a n bus
      → ((bytes : List ℕ) → r.0 ≡ ok bytes → take n (words_of_bytes bytes) ≡ block_of a n bus)
      → Shows a n bus (decode_block link cfg a n r)
  unfolding decode_block
  decode_block-Shows a n bus (err e, now) same read =
      (report_error-block link cfg holds a n e now ∙ same, λ got h. absurd cc)
  decode_block-Shows a n bus (ok bytes, now) same read =
      elim (Result-cases (words_from_bytes bytes n)) [
        | inr (e, short) ↦ rw (short, decode_block) (same, λ got h. absurd cc)
        | inl (words, found) ↦
            rw (found, decode_block)
              (
                report_connected-block link cfg holds a n now ∙ same,
                λ got h. ground (arith, words_from_bytes-ok bytes words n found, read bytes refl),
              )
      ]

  read_connected-Shows :
      (a n : ℕ) (bus : Bus S C) (r : Result (BusError E) C × Bus S C)
      → block_of a n r.1 ≡ block_of a n bus
      → Shows a n bus (read_connected link cfg a n r)
  unfolding read_connected
  read_connected-Shows a n bus (err e, now) same =
      (report_error-block link cfg holds a n e now ∙ same, λ got h. absurd cc)
  read_connected-Shows a n bus (ok c, now) same =
      decode_block-Shows a n bus (read_holding_with_retry link cfg c a n now)
        (read_holding_with_retry-block link cfg holds a n c now ∙ same)
        (λ bytes found. read_holding_with_retry-words link cfg holds a n c now bytes found ∙ same)

  -- For a device whose registers only writes change, ReadHoldingWords leaves the registers that it
  -- reads as they were, reconnecting or not, and the words that it returns are those that they
  -- hold.
  pub read_holding_words-Shows :
      (a n : ℕ) (bus : Bus S C) → Shows a n bus (read_holding_words link cfg a n bus)
  unfolding read_holding_words
  read_holding_words-Shows a n bus =
      if_cases (Shows a n bus) (n == 0) (λ no_words. (refl, λ got h. absurd cc))
        λ words.
          if_cases (Shows a n bus) (is_empty cfg.serial.port)
            (λ no_port. (refl, λ got h. absurd cc))
            λ port.
              read_connected-Shows a n bus (ensure_client link cfg bus)
                (ensure_client-block link cfg holds a n bus)

  -- The service as the accessor of the clock and of the storm charge manager.
  abbrev pub accessor : WordAccessor (Bus S C) (BusError E)
  accessor = record {
    read_holding_words = read_holding_words link cfg;
    write_holding_words = write_holding_words link cfg;
  }

  -- For a device whose registers only writes change, the Modbus service implements the accessor
  -- that the clock service relies on: after a block write that reported success, a block read of
  -- the same registers that succeeds returns the words written.
  pub accessor-KeepsWords : KeepsWords accessor
  accessor-KeepsWords = record {
    read_back = λ a words got bus written read.
        (read_holding_words-Shows a (length words) (write_holding_words link cfg a words bus).1).1
          got read
        ∙ write_holding_words-block a words bus written;
  }

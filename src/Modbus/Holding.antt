-- ===== src/Modbus/Holding.antt =====
-- internal/modbus/service.go: `ReadHoldingWords`, `WriteHoldingWords`, `unlockBeforeWriteLocked` and
-- `verifyWriteLocked`. Each holds the service's lock for its whole run. Logging is left out.
use srne_inverter_to_mqtt.Base.{
  ℕ, suc, ◌/◌, ◌%◌, ◌^◌, Bool, not, ◌||◌, Option, none, some, List, [], ◌∷◌, length, take, get_or,
  Result, ok, err, ◌==◌, ltb, if◌then◌else◌,
}
use srne_inverter_to_mqtt.Base.Letters.{is_empty}
use srne_inverter_to_mqtt.Config.Types.{Config}
use srne_inverter_to_mqtt.Registers.Words.{words_from_bytes}
use srne_inverter_to_mqtt.Registers.Types.{Register}
use srne_inverter_to_mqtt.Modbus.Types.{
  BusError, call_failed, payload, count_zero, values_range, port_empty, empty_verification,
  write_failed, read_failed, readback_failed, readback_mismatch, Link, Bus,
}
use srne_inverter_to_mqtt.Modbus.Connection.{
  close_locked, ensure_client, call, read_holding_with_retry, report_error, report_connected,
}

abbrev pub unlock_register_address : ℕ
unlock_register_address = 0xE203

-- The loop that builds the payload of a block.
unfoldable pub payload_of : List ℕ → List ℕ
payload_of [] = []
payload_of (value ∷ values) = value / 2 ^ 8 % 2 ^ 8 ∷ value % 2 ^ 8 ∷ payload_of values

-- The loop over the words read back, from an offset: the first word that is not the one written.
unfoldable pub first_mismatch : ℕ → List ℕ → List ℕ → Option (ℕ × ℕ × ℕ)
first_mismatch index [] readback = none
first_mismatch index (value ∷ values) readback =
    let rest = first_mismatch (suc index) values readback in
    if not (get_or readback index 0 == value)
    then some (index, value, get_or readback index 0)
    else rest

module _ {S C E Num : Type 0} (link : Link S C E) (cfg : Config Num) where
  unfoldable pub unlock_before_write : C → Bus S C → Bus S C
  unlock_before_write client bus =
      (call link cfg (link.write_single_register client unlock_register_address 0) bus).1

  -- `ReadHoldingWords` after its payload was read, or not.
  unfoldable pub decode_block :
      ℕ → ℕ → Result (BusError E) (List ℕ) × Bus S C → Result (BusError E) (List ℕ) × Bus S C
  decode_block address count (err e, bus) =
      (err (read_failed address count e), report_error link cfg e bus)
  decode_block address count (ok bytes, bus) = elim (words_from_bytes bytes count) [
    | err e ↦ (err (read_failed address count (payload e)), bus)
    | ok words ↦ (ok (take count words), report_connected link cfg bus)
  ]

  unfoldable pub read_connected :
      ℕ → ℕ → Result (BusError E) C × Bus S C → Result (BusError E) (List ℕ) × Bus S C
  read_connected address count (err e, bus) = (err e, report_error link cfg e bus)
  read_connected address count (ok client, bus) =
      decode_block address count (read_holding_with_retry link cfg client address count bus)

  unfoldable pub read_holding_words : ℕ → ℕ → Bus S C → Result (BusError E) (List ℕ) × Bus S C
  read_holding_words address count bus =
      if count == 0
      then (err count_zero, bus)
      else if is_empty cfg.serial.port
      then (err port_empty, bus)
      else read_connected address count (ensure_client link cfg bus)

  -- The comparison at the end of `WriteHoldingWords`.
  unfoldable pub compare_block :
      ℕ → List ℕ → Result (BusError E) (List ℕ) × Bus S C → Result (BusError E) (Unit {0}) × Bus S C
  compare_block address values (err e, bus) = (err (readback_failed address (length values) e), bus)
  compare_block address values (ok bytes, bus) = elim (words_from_bytes bytes (length values)) [
    | err e ↦ (err (readback_failed address (length values) (payload e)), bus)
    | ok readback ↦ elim (first_mismatch 0 values readback) [
      | some (index, expected, found) ↦ (err (readback_mismatch address index expected found), bus)
      | none ↦ (ok tt, report_connected link cfg bus)
    ]
  ]

  -- The write itself: one register by its own function, more of them as a block.
  unfoldable pub send_block : C → ℕ → List ℕ → S → Result E (List ℕ) × S
  send_block client address [] = link.write_multiple_registers client address 0 []
  send_block client address (value ∷ []) = link.write_single_register client address value
  send_block client address (value ∷ next ∷ values) =
      link.write_multiple_registers client address (length (value ∷ next ∷ values))
        (payload_of (value ∷ next ∷ values))

  unfoldable pub write_block :
      C → ℕ → List ℕ → Result E (List ℕ) × Bus S C → Result (BusError E) (Unit {0}) × Bus S C
  write_block client address values (err e, bus) = (
    err (write_failed address (length values) (call_failed e)),
    report_error link cfg (call_failed e) bus,
  )
  write_block client address values (ok _, bus) =
      compare_block address values
        (read_holding_with_retry link cfg client address (length values) bus)

  unfoldable pub write_connected :
      ℕ → List ℕ → Result (BusError E) C × Bus S C → Result (BusError E) (Unit {0}) × Bus S C
  write_connected address values (err e, bus) = (err e, report_error link cfg e bus)
  write_connected address values (ok client, bus) =
      write_block client address values
        (call link cfg (send_block client address values) (unlock_before_write client bus))

  unfoldable pub write_holding_words :
      ℕ → List ℕ → Bus S C → Result (BusError E) (Unit {0}) × Bus S C
  write_holding_words address values bus =
      if (length values == 0) || ltb 65535 (length values)
      then (err values_range, bus)
      else if is_empty cfg.serial.port
      then (err port_empty, bus)
      else write_connected address values (ensure_client link cfg bus)

  -- `verifyWriteLocked` after its payload was read, or not.
  unfoldable pub verify_payload :
      Register Num → ℕ → Result (BusError E) (List ℕ) × Bus S C → Result (BusError E) Bool × Bus S C
  verify_payload reg expected (err e, bus) = (err e, bus)
  verify_payload reg expected (ok bytes, bus) = elim (words_from_bytes bytes reg.count) [
    | err e ↦ (err (payload e), bus)
    | ok words ↦ elim words [
      | [] ↦ (err empty_verification, bus)
      | word ∷ rest ↦ (ok (word == expected), bus)
    ]
  ]

  unfoldable pub verify_connected :
      Register Num → ℕ → Result (BusError E) C × Bus S C → Result (BusError E) Bool × Bus S C
  verify_connected reg expected (err e, bus) = (err e, bus)
  verify_connected reg expected (ok client, bus) =
      verify_payload reg expected
        (read_holding_with_retry link cfg client reg.address reg.count bus)

  unfoldable pub verify_write : Register Num → ℕ → Bus S C → Result (BusError E) Bool × Bus S C
  verify_write reg expected bus =
      verify_connected reg expected (ensure_client link cfg (close_locked link cfg bus))

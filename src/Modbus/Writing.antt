-- ===== src/Modbus/Writing.antt =====
-- internal/modbus/service.go: `WriteRegister`, which holds the service's lock for its whole run.
-- Logging and the waits are left out.
use srne_inverter_to_mqtt.Base.{
  ℕ, String, Bool, true, false, not, List, [], ◌∷◌, Result, ok, err, if◌then◌else◌,
}
use srne_inverter_to_mqtt.Base.Int.{pos, eqb_ℤ}
use srne_inverter_to_mqtt.Base.Letters.{is_empty}
use srne_inverter_to_mqtt.Base.Float.{Float64}
use srne_inverter_to_mqtt.Config.Types.{Config}
use srne_inverter_to_mqtt.Registers.Types.{Register, DecodedValue, Value}
use srne_inverter_to_mqtt.Registers.Decode.{decode}
use srne_inverter_to_mqtt.Registers.Write.{encode_write}
use srne_inverter_to_mqtt.Modbus.Types.{
  BusError, call_failed, payload, port_empty, register_not_writable, register_write_failed,
  register_readback_failed, register_decode_failed, register_mismatch, Link,
}
use srne_inverter_to_mqtt.Modbus.Connection.{ensure_client, call, read_holding_with_retry}
use srne_inverter_to_mqtt.Modbus.Holding.{unlock_before_write, verify_write}
use srne_inverter_to_mqtt.Modbus.Service.{
  Service, ◌>>=◌, on_bus, failing, succeeding, upserting, moment, decode_payload, lookup_register,
}
use srne_inverter_to_mqtt.Modbus.Thresholds.{validate_write}

module _ {S C E Num : Type 0} (link : Link S C E) (fl : Float64 Num) (format_time : ℕ → String)
    (cfg : Config Num) where
  abbrev Outcome : Type 0
  Outcome = Result (BusError E) (Unit {0}) × Service S C Num

  -- The comparison at the end, with the value read back.
  unfoldable pub confirm : Register Num → ℕ → ℕ → DecodedValue Num → Service S C Num → Outcome
  confirm reg encoded now decoded service =
      let mismatch = register_mismatch reg.address encoded decoded.raw decoded.rendered in
      let stored = upserting link fl format_time cfg (decoded ∷ []) service in
      if not (eqb_ℤ decoded.raw (pos encoded))
      then (err mismatch, failing link fl format_time cfg mismatch stored)
      else (ok tt, succeeding link fl format_time cfg now stored)

  unfoldable pub confirm_decoded :
      Register Num → ℕ → ℕ → Result (BusError E) (DecodedValue Num) → Service S C Num → Outcome
  confirm_decoded reg encoded now (err e) service =
      (err (register_decode_failed reg.address e), failing link fl format_time cfg e service)
  confirm_decoded reg encoded now (ok decoded) service = confirm reg encoded now decoded service

  unfoldable pub read_back :
      Register Num → ℕ → ℕ → Result (BusError E) (List ℕ) × Service S C Num → Outcome
  read_back reg encoded now (err e, service) =
      (err (register_readback_failed reg.address e), failing link fl format_time cfg e service)
  read_back reg encoded now (ok bytes, service) =
      confirm_decoded reg encoded now (decode_payload link fl format_time cfg reg bytes now) service

  -- After the write: the expected value is stored, and the register is read back.
  unfoldable pub after_write : Register Num → ℕ → C → Service S C Num → Outcome
  after_write reg encoded client service =
      let (now, s) = moment link fl format_time cfg service in
      if reg.write_only
      then (ok tt, succeeding link fl format_time cfg now s)
      else elim (decode fl reg (encoded ∷ []) now) [
        | err e ↦ (err (payload e), s)
        | ok optimistic ↦ read_back reg encoded now (
            on_bus link fl format_time cfg
              (read_holding_with_retry link cfg client reg.address reg.count)
              (upserting link fl format_time cfg (optimistic ∷ []) s))
      ]

  -- The branch of a failed write, after `verifyWriteLocked`.
  unfoldable pub after_verification :
      Register Num → ℕ → C → BusError E → Result (BusError E) Bool × Service S C Num → Outcome
  after_verification reg encoded client e (ok true, service) =
      after_write reg encoded client service
  after_verification reg encoded client e (ok false, service) =
      (err (register_write_failed reg.address e), failing link fl format_time cfg e service)
  after_verification reg encoded client e (err verify_error, service) = (
    err (register_write_failed reg.address e),
    failing link fl format_time cfg verify_error service,
  )

  unfoldable pub settle_write : Register Num → ℕ → C → Result E (List ℕ) × Service S C Num → Outcome
  settle_write reg encoded client (ok _, service) = after_write reg encoded client service
  settle_write reg encoded client (err x, service) =
      let verified = on_bus link fl format_time cfg (verify_write link cfg reg encoded) service in
      if reg.write_only
      then (
        err (register_write_failed reg.address (call_failed x)),
        failing link fl format_time cfg (call_failed x) service,
      )
      else after_verification reg encoded client (call_failed x) verified

  unfoldable pub send_register : Register Num → ℕ → C → Service S C Num → Outcome
  send_register reg encoded client service = settle_write reg encoded client (
      on_bus link fl format_time cfg
        (call link cfg (link.write_single_register client reg.address encoded))
        (record service { bus = unlock_before_write link cfg client service.bus }))

  unfoldable pub encode_and_send : Register Num → Value Num → C → Service S C Num → Outcome
  encode_and_send reg value client service = elim (encode_write fl reg value) [
    | err e ↦ (err (payload e), service)
    | ok encoded ↦ validate_write link fl format_time cfg reg encoded service >>= λ _ s.
        send_register reg encoded client s
  ]

  unfoldable pub with_client :
      Register Num → Value Num → Result (BusError E) C × Service S C Num → Outcome
  with_client reg value (err e, service) = (err e, failing link fl format_time cfg e service)
  with_client reg value (ok client, service) = encode_and_send reg value client service

  unfoldable pub write_found : Register Num → String → Value Num → Service S C Num → Outcome
  write_found reg id value service =
      if not reg.writable
      then (err (register_not_writable id), service)
      else if is_empty cfg.serial.port
      then (err port_empty, service)
      else with_client reg value (on_bus link fl format_time cfg (ensure_client link cfg) service)

  unfoldable pub write_register : String → Value Num → Service S C Num → Outcome
  write_register id value service = elim (lookup_register link fl format_time cfg id) [
    | err e ↦ (err e, service)
    | ok reg ↦ write_found reg id value service
  ]

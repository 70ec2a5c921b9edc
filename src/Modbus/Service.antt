-- ===== src/Modbus/Service.antt =====
-- internal/modbus/service.go: the service with the telemetry of the store, and
-- `currentRegisterRawLocked`. `format_time` is the store's text of a moment.
use text.Mathlib.Text.{◌==◌ as str_eq}
use srne_inverter_to_mqtt.Base.{
  ℕ, String, Bool, true, Option, none, some, List, [], ◌∷◌, take, Result, ok, err, leb,
  if◌then◌else◌,
}
use srne_inverter_to_mqtt.Base.Int.{ℤ, pos, negsuc}
use srne_inverter_to_mqtt.Base.Float.{Float64}
use srne_inverter_to_mqtt.Config.Types.{Config}
use srne_inverter_to_mqtt.Config.Endpoint.{normalized_inverter_type}
use srne_inverter_to_mqtt.Registers.Types.{Register, DecodedValue}
use srne_inverter_to_mqtt.Registers.Words.{words_from_bytes}
use srne_inverter_to_mqtt.Registers.Decode.{decode}
use srne_inverter_to_mqtt.Registers.Catalog.Queries.{find_by_id_for_inverter_type}
use srne_inverter_to_mqtt.Store.Types.{Snapshot}
use srne_inverter_to_mqtt.Store.Values.{Telemetry, upsert_telemetry}
use srne_inverter_to_mqtt.Store.View.{snapshot}
use srne_inverter_to_mqtt.Store.Services.{set_service_status}
use srne_inverter_to_mqtt.Modbus.Types.{
  BusError, config, payload, unknown_register, raw_out_of_range, Link, Bus,
}
use srne_inverter_to_mqtt.Modbus.Connection.{ensure_client, read_holding_with_retry, report_error}

pub record Service (S C Num : Type 0) : Type 0 where
  pub bus : Bus S C
  pub store : Telemetry Num

-- `if err != nil { return err }` between calls that change the service.
infixl 5 ◌>>=◌
abbrev pub ◌>>=◌ :
    {St E A B : Type 0} → Result E A × St → (A → St → Result E B × St) → Result E B × St
(ok a, s) >>= f = f a s
(err e, s) >>= f = (err e, s)

-- `uint16(raw)` of a number in its range.
unfoldable pub in_uint16 : ℤ → Option ℕ
in_uint16 (pos n) = if leb n 0xFFFF then some n else none
in_uint16 (negsuc n) = none

unfoldable pub raw_from_snapshot : {Num : Type 0} → List (DecodedValue Num) → String → Option ℕ
raw_from_snapshot [] id = none
raw_from_snapshot (value ∷ values) id =
    let rest = raw_from_snapshot values id in
    if str_eq value.id id then in_uint16 value.raw else rest

module _ {S C E Num : Type 0} (link : Link S C E) (fl : Float64 Num) (format_time : ℕ → String)
    (cfg : Config Num) where
  -- A step of the connection on the service.
  abbrev pub on_bus : {A : Type 0} → (Bus S C → A × Bus S C) → Service S C Num → A × Service S C Num
  on_bus f service = ((f service.bus).0, record service { bus = (f service.bus).1 })

  abbrev pub failing : BusError E → Service S C Num → Service S C Num
  failing e service = record service { bus = report_error link cfg e service.bus }

  -- `s.state.SetServiceStatus("modbus", status, connected, lastError, lastSuccess)`
  unfoldable pub report_status : String → Bool → String → ℕ → Bus S C → Bus S C
  report_status status connected last_error last_success bus = record bus {
    services =
        set_service_status (link.now bus.outside).0 "modbus" status connected last_error
          last_success bus.services;
    outside = (link.now bus.outside).1;
  }

  abbrev pub succeeding : ℕ → Service S C Num → Service S C Num
  succeeding now service = record service {
    bus = report_status "connected" true "" now service.bus;
  }

  abbrev pub upserting : List (DecodedValue Num) → Service S C Num → Service S C Num
  upserting values service = record service { store = upsert_telemetry fl values service.store }

  abbrev pub moment : Service S C Num → ℕ × Service S C Num
  moment = on_bus (λ (bus : Bus S C).
      ((link.now bus.outside).0, record bus { outside = (link.now bus.outside).1 }))

  abbrev pub state_of : Service S C Num → Snapshot Num
  state_of service = snapshot fl format_time service.bus.services service.store

  -- The value decoded from a payload, at a moment.
  unfoldable pub decode_payload : Register Num → List ℕ → ℕ → Result (BusError E) (DecodedValue Num)
  decode_payload reg bytes now = elim (words_from_bytes bytes reg.count) [
    | err e ↦ err (payload e)
    | ok words ↦ elim (decode fl reg (take reg.count words) now) [
      | err e ↦ err (payload e)
      | ok decoded ↦ ok decoded
    ]
  ]

  unfoldable pub raw_of_decoded :
      Register Num → Result (BusError E) (DecodedValue Num) → Result (BusError E) ℕ
  raw_of_decoded reg (err e) = err e
  raw_of_decoded reg (ok decoded) = elim (in_uint16 decoded.raw) [
    | some raw ↦ ok raw
    | none ↦ err (raw_out_of_range reg.id decoded.raw)
  ]

  unfoldable pub read_register_raw :
      Register Num → Service S C Num → Result (BusError E) ℕ × Service S C Num
  read_register_raw reg service = on_bus (ensure_client link cfg) service >>= λ client s1.
      on_bus (read_holding_with_retry link cfg client reg.address reg.count) s1 >>= λ bytes s2.
      let (now, s3) = moment s2 in (raw_of_decoded reg (decode_payload reg bytes now), s3)

  unfoldable pub lookup_register : String → Result (BusError E) (Register Num)
  lookup_register id = elim (normalized_inverter_type cfg.device) [
    | err e ↦ err (config e)
    | ok inverter_type ↦ elim (find_by_id_for_inverter_type fl id inverter_type) [
      | none ↦ err (unknown_register id)
      | some reg ↦ ok reg
    ]
  ]

  -- From the snapshot, or else from the device.
  unfoldable pub current_register_raw :
      String → Service S C Num → Result (BusError E) ℕ × Service S C Num
  current_register_raw id service = elim (raw_from_snapshot (state_of service).telemetry id) [
    | some raw ↦ (ok raw, service)
    | none ↦ (lookup_register id, service) >>= λ reg s. read_register_raw reg s
  ]

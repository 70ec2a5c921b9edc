-- ===== src/Modbus/Connection.antt =====
-- internal/modbus/service.go: `serialKey`, `OpenClient`, `ensureClientLocked`, `closeLocked` and
-- `readHoldingWithRetryLocked`. The waits between calls are left out.
use srne_inverter_to_mqtt.Base.{
  ℕ, ◌-◌, true, false, ◌&&◌, none, some, List, [], ◌∷◌, ◌++◌, map, Result, ok, err, leb,
  if◌then◌else◌,
}
use srne_inverter_to_mqtt.Base.Letters.{codes, same_codes, trim_space}
use srne_inverter_to_mqtt.Base.Text.{decimal, decimal_ℤ}
use srne_inverter_to_mqtt.Config.Types.{Config, SerialConfig}
use srne_inverter_to_mqtt.Config.Endpoint.{
  rtu, rtu_over_tcp, modbus_tcp, connection_mode, tcp_address,
}
use srne_inverter_to_mqtt.Modbus.Types.{
  BusError, config, connect_failed, call_failed, reconnect_failed, Link, Bus,
}
use srne_inverter_to_mqtt.Store.Services.{set_service_status}

unfoldable pub to_upper : ℕ → ℕ
to_upper c = if leb 97 c && leb c 122 then c - 32 else c

-- `strings.ToUpper(strings.TrimSpace(cfg.Serial.Parity))`
unfoldable pub parity_text : SerialConfig → List ℕ
parity_text c = map to_upper (trim_space (codes c.parity))

unfoldable pub mode_text : SerialConfig → List ℕ
mode_text c = elim (connection_mode c) [
  | err e ↦ []
  | ok mode ↦ elim mode [
    | rtu ↦ codes "rtu"
    | rtu_over_tcp ↦ codes "rtu_over_tcp"
    | modbus_tcp ↦ codes "modbus_tcp"
  ]
]

unfoldable pub joined : List (List ℕ) → List ℕ
joined [] = []
joined (x ∷ []) = x
joined (x ∷ y ∷ rest) = x ++ codes "|" ++ joined (y ∷ rest)

module _ {S C E Num : Type 0} (link : Link S C E) (cfg : Config Num) where
  unfoldable pub serial_key : List ℕ
  serial_key = joined (
      codes cfg.serial.port
      ∷ mode_text cfg.serial
      ∷ codes (decimal_ℤ cfg.serial.baud_rate)
      ∷ codes (decimal_ℤ cfg.serial.data_bits)
      ∷ codes (decimal_ℤ cfg.serial.stop_bits)
      ∷ parity_text cfg.serial
      ∷ codes (decimal cfg.device.slave_id)
      ∷ link.duration_text cfg.serial.timeout
      ∷ [])

  unfoldable pub wrap_connect : Result E C × S → Result (BusError E) C × S
  wrap_connect (ok c, s) = (ok c, s)
  wrap_connect (err e, s) = (err (connect_failed e), s)

  unfoldable pub open_client : S → Result (BusError E) C × S
  open_client s = elim (connection_mode cfg.serial) [
    | err e ↦ (err (config e), s)
    | ok mode ↦ elim mode [
      | rtu ↦
          wrap_connect
            (link.connect_serial cfg.serial (parity_text cfg.serial) cfg.device.slave_id s)
      | rtu_over_tcp ↦ wrap_connect (
          link.connect_rtu_over_tcp (tcp_address cfg.serial.port).0 cfg.device.slave_id
            cfg.serial.timeout s)
      | modbus_tcp ↦ wrap_connect (
          link.connect_modbus_tcp (tcp_address cfg.serial.port).0 cfg.serial.timeout
            cfg.device.slave_id s)
    ]
  ]

  unfoldable pub close_locked : Bus S C → Bus S C
  close_locked bus = elim bus.client [
    | none ↦ record bus { client = none; key = [] }
    | some c ↦ record bus { client = none; key = []; outside = link.close c bus.outside }
  ]

  unfoldable pub keep_client : Bus S C → Result (BusError E) C × S → Result (BusError E) C × Bus S C
  keep_client bus (err e, s) = (err e, record bus { outside = s })
  keep_client bus (ok c, s) = (ok c, record bus { client = some c; key = serial_key; outside = s })

  unfoldable pub reopen : Bus S C → Result (BusError E) C × Bus S C
  reopen bus = keep_client (close_locked bus) (open_client (close_locked bus).outside)

  unfoldable pub ensure_client : Bus S C → Result (BusError E) C × Bus S C
  ensure_client bus = elim bus.client [
    | none ↦ reopen bus
    | some c ↦ if same_codes bus.key serial_key then (ok c, bus) else reopen bus
  ]

  -- A call of gomodbus on the service's world.
  unfoldable pub call : {A : Type 0} → (S → Result E A × S) → Bus S C → Result E A × Bus S C
  call f bus = ((f bus.outside).0, record bus { outside = (f bus.outside).1 })

  -- The second attempt, after the first failed with `e`.
  unfoldable pub read_again :
      E → ℕ → ℕ → Result (BusError E) C × Bus S C → Result (BusError E) (List ℕ) × Bus S C
  read_again e address count (err r, bus) = (err (reconnect_failed e r), bus)
  read_again e address count (ok c, bus) =
      let again = call (link.read_holding_registers c address count) bus in
      elim again.0 [ ok bytes ↦ (ok bytes, again.1) | err x ↦ (err (call_failed x), again.1) ]

  unfoldable pub read_holding_with_retry :
      C → ℕ → ℕ → Bus S C → Result (BusError E) (List ℕ) × Bus S C
  read_holding_with_retry client address count bus =
      let first = call (link.read_holding_registers client address count) bus in
      elim first.0 [
        | ok bytes ↦ (ok bytes, first.1)
        | err e ↦ read_again e address count (ensure_client (close_locked first.1))
      ]

  -- `s.state.SetServiceStatus("modbus", ...)` for a failure, and for a success at the moment `t`.
  unfoldable pub report_error : BusError E → Bus S C → Bus S C
  report_error e bus = record bus {
    services =
        set_service_status (link.now bus.outside).0 "modbus" "error" false (link.error_text e) 0
          bus.services;
    outside = (link.now bus.outside).1;
  }

  unfoldable pub report_connected : Bus S C → Bus S C
  report_connected bus =
      let (t, s) = link.now bus.outside in
      let (t', s') = link.now s in
      record bus {
        services = set_service_status t' "modbus" "connected" true "" t bus.services;
        outside = s';
      }

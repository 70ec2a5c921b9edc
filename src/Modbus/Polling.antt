-- ===== src/Modbus/Polling.antt =====
-- internal/modbus/service.go: `pollGroup`. The waits are left out.
use srne_inverter_to_mqtt.Base.{
  ℕ, suc, ◌+◌, ◌-◌, ◌%◌, ◌^◌, String, Bool, true, false, List, [], ◌∷◌, ◌++◌, length, take, drop,
  Result, ok, err, leb, ltb, if◌then◌else◌,
}
use srne_inverter_to_mqtt.Base.Letters.{is_empty}
use srne_inverter_to_mqtt.Base.Float.{Float64}
use srne_inverter_to_mqtt.Config.Types.{Config}
use srne_inverter_to_mqtt.Config.Endpoint.{
  normalized_inverter_type, connection_mode, rtu, rtu_over_tcp, modbus_tcp,
}
use srne_inverter_to_mqtt.Registers.Types.{Register, ReadRange, DecodedValue, PollGroup, fast, slow}
use srne_inverter_to_mqtt.Registers.Words.{words_from_bytes}
use srne_inverter_to_mqtt.Registers.Decode.{decode}
use srne_inverter_to_mqtt.Registers.Catalog.Queries.{
  build_critical_fast_read_plan_for_inverter_type, build_read_plan_for_inverter_type,
}
use srne_inverter_to_mqtt.Modbus.Types.{BusError, config, payload, Link, Bus}
use srne_inverter_to_mqtt.Modbus.Connection.{close_locked, ensure_client, read_holding_with_retry}
use srne_inverter_to_mqtt.Modbus.Service.{Service, failing, report_status, upserting, moment}

abbrev pub max_open_failures_per_cycle : ℕ
max_open_failures_per_cycle = 2

-- What a cycle notes: the range that was not read, the register that was not decoded, the early
-- end, and the plan without registers.
pub data PollError (E : Type 0) : Type 0 where
  range_failed : ℕ → ℕ → BusError E → PollError E
  register_failed : ℕ → BusError E → PollError E
  decode_overflow : ℕ → PollError E
  aborted nothing_configured : PollError E

-- The values and the errors so far, and the number of opens that failed in a row.
pub record Cycle (E Num : Type 0) : Type 0 where
  pub values : List (DecodedValue Num)
  pub errors : List (PollError E)
  pub open_failures : ℕ

module _ {E Num : Type 0} where
  unfoldable pub note_error : PollError E → Cycle E Num → Cycle E Num
  note_error e cycle = record cycle { errors = cycle.errors ++ e ∷ [] }

  unfoldable pub note_value : DecodedValue Num → Cycle E Num → Cycle E Num
  note_value v cycle = record cycle { values = cycle.values ++ v ∷ [] }

unfoldable pub should_reopen_per_range : {Num : Type 0} → Config Num → Bool
should_reopen_per_range cfg = elim (connection_mode cfg.serial) [
  | err e ↦ true
  | ok mode ↦ elim mode [ rtu ↦ true | rtu_over_tcp ↦ false | modbus_tcp ↦ false ]
]

module _ {Num : Type 0} (fl : Float64 Num) (cfg : Config Num) where
  unfoldable pub read_plan_for_group : PollGroup → List (ReadRange Num)
  read_plan_for_group group = elim (normalized_inverter_type cfg.device) [
    | err e ↦ []
    | ok inverter_type ↦ elim group [
      | fast ↦ build_critical_fast_read_plan_for_inverter_type fl inverter_type
      | slow ↦ build_read_plan_for_inverter_type fl slow inverter_type
    ]
  ]

module _ {S C E Num : Type 0} (link : Link S C E) (fl : Float64 Num) (cfg : Config Num) where
  -- The loop over the registers of a range, with the words that were read.
  unfoldable pub note_decoded :
      Register Num → Result (BusError E) (DecodedValue Num) → Cycle E Num → Cycle E Num
  note_decoded reg (err e) cycle = note_error (register_failed reg.address e) cycle
  note_decoded reg (ok decoded) cycle = note_value decoded cycle

  unfoldable pub decode_at : ℕ → List ℕ → ℕ → Register Num → Result (BusError E) (DecodedValue Num)
  decode_at now words offset reg = elim (decode fl reg (take reg.count (drop offset words)) now) [
    | err e ↦ err (payload e)
    | ok decoded ↦ ok decoded
  ]

  -- `offset` is a difference of `uint16`, never negative.
  unfoldable pub decode_register :
      ℕ → ReadRange Num → List ℕ → Register Num → Cycle E Num → Cycle E Num
  decode_register now range words reg cycle =
      let offset = (reg.address + 2 ^ 16 - range.start) % 2 ^ 16 in
      if ltb (length words) (offset + reg.count)
      then note_error (decode_overflow reg.address) cycle
      else note_decoded reg (decode_at now words offset reg) cycle

  unfoldable pub decode_range :
      ℕ → ReadRange Num → List ℕ → List (Register Num) → Cycle E Num → Cycle E Num
  decode_range now range words [] cycle = cycle
  decode_range now range words (reg ∷ regs) cycle =
      decode_range now range words regs (decode_register now range words reg cycle)

  unfoldable pub decode_bytes :
      ℕ → ReadRange Num → Result (BusError E) (List ℕ) → Cycle E Num → Cycle E Num
  decode_bytes now range (err e) cycle = note_error (range_failed range.start range.count e) cycle
  decode_bytes now range (ok bytes) cycle = elim (words_from_bytes bytes range.count) [
    | err e ↦ note_error (range_failed range.start range.count (payload e)) cycle
    | ok words ↦ decode_range now range words range.registers cycle
  ]

  unfoldable pub close_if : Bool → Bus S C → Bus S C
  close_if true bus = close_locked link cfg bus
  close_if false bus = bus

  -- One range with a client: it is read, and with `reopen` the connection is closed behind it.
  unfoldable pub read_range :
      Bool → ℕ → ReadRange Num → C → Bus S C → Cycle E Num → Cycle E Num × Bus S C
  read_range reopen now range client bus cycle =
      let (bytes, after) = read_holding_with_retry link cfg client range.start range.count bus in
      (decode_bytes now range bytes (record cycle { open_failures = 0 }), close_if reopen after)

  unfoldable pub note_open_failure : ReadRange Num → BusError E → Cycle E Num → Cycle E Num
  note_open_failure range e cycle =
      record (note_error (range_failed range.start range.count e) cycle) {
        open_failures = suc cycle.open_failures;
      }

  -- The loop over the plan; the second open that fails in a row ends it.
  unfoldable pub poll_ranges :
      Bool → ℕ → List (ReadRange Num) → Bus S C → Cycle E Num → Cycle E Num × Bus S C
  poll_ranges reopen now [] bus cycle = (cycle, bus)
  poll_ranges reopen now (range ∷ ranges) bus cycle =
      let (client, opened) = ensure_client link cfg bus in
      elim client [
        | err e ↦
            let failed = note_open_failure range e cycle in
            let rest = poll_ranges reopen now ranges opened failed in
            if leb max_open_failures_per_cycle failed.open_failures
            then (note_error aborted failed, opened)
            else rest
        | ok c ↦
            let (next, after) = read_range reopen now range c opened cycle in
            poll_ranges reopen now ranges after next
      ]

  abbrev pub empty_cycle : Cycle E Num
  empty_cycle = record { values = []; errors = []; open_failures = 0 }

-- `error_texts` is the text of the errors, joined.
module _ {S C E Num : Type 0} (link : Link S C E) (fl : Float64 Num) (format_time : ℕ → String)
    (error_texts : List (PollError E) → String) (cfg : Config Num) where
  abbrev reporting : String → Bool → String → ℕ → Service S C Num → Service S C Num
  reporting status connected last_error last_success service = record service {
    bus =
        report_status link fl format_time cfg status connected last_error last_success service.bus;
  }

  -- The status at the end: degraded when something was read and something failed.
  unfoldable pub report_errors : ℕ → List (PollError E) → Service S C Num → Service S C Num
  report_errors now [] service = reporting "connected" true "" now service
  report_errors now (e ∷ errors) service =
      reporting "degraded" true (error_texts (e ∷ errors)) now service

  unfoldable pub report_nothing_read : List (PollError E) → Service S C Num → Service S C Num
  report_nothing_read [] service =
      reporting "error" false (error_texts (nothing_configured ∷ [])) 0 service
  report_nothing_read (e ∷ errors) service =
      reporting "error" false (error_texts (e ∷ errors)) 0 service

  unfoldable pub finish_cycle :
      ℕ → List (DecodedValue Num) → List (PollError E) → Service S C Num → Service S C Num
  finish_cycle now [] errors service = report_nothing_read errors service
  finish_cycle now (v ∷ values) errors service =
      report_errors now errors (upserting link fl format_time cfg (v ∷ values) service)

  -- The cycle of a known type of inverter, from its plan.
  unfoldable pub poll_plan : Bool → ℕ → List (ReadRange Num) → Service S C Num → Service S C Num
  poll_plan reopen now plan service =
      let (cycle, bus) =
        poll_ranges link fl cfg reopen now plan service.bus (empty_cycle link fl cfg) in
      finish_cycle now cycle.values cycle.errors (record service { bus = bus })

  unfoldable pub closing_if : Bool → Service S C Num → Service S C Num
  closing_if reopen service = record service { bus = close_if link fl cfg reopen service.bus }

  -- The connection is closed before and after a cycle where it is not kept open.
  unfoldable pub poll_locked : PollGroup → ℕ → Service S C Num → Service S C Num
  poll_locked group now service =
      let reopen = should_reopen_per_range cfg in
      let opened = closing_if reopen service in
      closing_if reopen (elim (normalized_inverter_type cfg.device) [
        | err e ↦ failing link fl format_time cfg (config e) opened
        | ok inverter_type ↦ poll_plan reopen now (read_plan_for_group fl cfg group) opened
      ])

  unfoldable pub poll_group : PollGroup → Service S C Num → Service S C Num
  poll_group group service =
      let (now, s) = moment link fl format_time cfg service in
      let polled = poll_locked group now s in
      if is_empty cfg.serial.port
      then reporting "disabled" false "serial port is empty" 0 s
      else polled

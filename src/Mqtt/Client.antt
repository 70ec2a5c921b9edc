-- ===== src/Mqtt/Client.antt =====
-- internal/mqtt/service.go: `ensureClient`, `resetClient`, `disconnect`, `recordError` and the marks
-- of health. Logging is left out.
use srne_inverter_to_mqtt.Base.{
  ℕ, ◌-◌, ◌*◌, String, Bool, true, false, not, Option, none, some, [], Result, ok, err, ◌==◌, ltb,
  if◌then◌else◌,
}
use srne_inverter_to_mqtt.Base.Letters.{same_codes}
use srne_inverter_to_mqtt.Config.Types.{Config, minute}
use srne_inverter_to_mqtt.Store.Services.{set_service_status}
use srne_inverter_to_mqtt.Mqtt.Types.{Broker, Mqtt}
use srne_inverter_to_mqtt.Mqtt.Topics.{mqtt_key, availability_topic}

abbrev pub mqtt_client_reset_after : ℕ
mqtt_client_reset_after = 2 * minute

module _ {S C E Num : Type 0} (broker : Broker S C E) (cfg : Config Num) where
  -- `s.state.SetServiceStatus("mqtt", status, connected, lastError, lastSuccess)`
  unfoldable pub set_status : String → Bool → String → ℕ → Mqtt S C → Mqtt S C
  set_status status connected last_error last_success s = record s {
    services =
        set_service_status (broker.now s.outside).0 "mqtt" status connected last_error last_success
          s.services;
    outside = (broker.now s.outside).1;
  }

  -- The fields of a service without a client.
  unfoldable pub cleared : ℕ → Mqtt S C → Mqtt S C
  cleared since s = record s {
    key = [];
    client = none;
    discovery_key = [];
    last_published = [];
    unhealthy_since = since;
  }

  unfoldable pub disconnecting : Option C → Mqtt S C → Mqtt S C
  disconnecting none s = s
  disconnecting (some c) s = record s { outside = broker.disconnect c s.outside }

  unfoldable pub mark_healthy : Mqtt S C → Mqtt S C
  mark_healthy s = record s { unhealthy_since = 0 }

  -- How long the service has been unhealthy, in nanoseconds.
  unfoldable pub mark_unhealthy : ℕ → Mqtt S C → ℕ × Mqtt S C
  mark_unhealthy now s =
      if s.unhealthy_since == 0
      then (0, record s { unhealthy_since = now })
      else (now - s.unhealthy_since, s)

  -- The reset of whatever client there is.
  unfoldable pub reset_any : Mqtt S C → Mqtt S C
  reset_any s =
      disconnecting s.client
        (cleared (broker.now s.outside).0 (record s { outside = (broker.now s.outside).1 }))

  unfoldable pub is_client : C → Option C → Bool
  is_client expected none = false
  is_client expected (some c) = broker.same_client c expected

  -- With an expected client: another one that took its place is kept.
  unfoldable pub reset_client : Option C → Mqtt S C → Mqtt S C
  reset_client none s = reset_any s
  reset_client (some expected) s =
      if not (is_client expected s.client)
      then record s { outside = broker.disconnect expected s.outside }
      else reset_any s

  -- `message` is the error's text.
  unfoldable pub record_error : String → Mqtt S C → Mqtt S C
  record_error message s =
      let (stalled_for, marked) =
        mark_unhealthy (broker.now s.outside).0 (record s { outside = (broker.now s.outside).1 }) in
      let reported = set_status "error" false message 0 marked in
      if ltb stalled_for mqtt_client_reset_after then reported else reset_client none reported

  unfoldable pub connected : C → Result E (Unit {0}) × Mqtt S C → Option C × Mqtt S C
  connected c (ok _, s) = (some c, s)
  connected c (err e, s) =
      (none, reset_client (some c) (set_status "error" false (broker.error_text e) 0 s))

  -- A new client in place of the old one.
  unfoldable pub replace_client : Mqtt S C → Option C × Mqtt S C
  replace_client s =
      let dropped = disconnecting s.client (cleared 0 s) in
      let (c, made) = broker.new_client cfg.mqtt dropped.outside in
      let (now, at) = broker.now made in
      let fresh = record (cleared now dropped) {
        client = some c;
        key = mqtt_key cfg;
        outside = at;
      } in
      let (result, after) = broker.connect c fresh.outside in
      connected c (result, record fresh { outside = after })

  unfoldable pub ensure_client : Mqtt S C → Option C × Mqtt S C
  ensure_client s = elim s.client [
    | none ↦ replace_client s
    | some c ↦ if same_codes s.key (mqtt_key cfg) then (some c, s) else replace_client s
  ]

  unfoldable pub say_offline : C → Mqtt S C → Mqtt S C
  say_offline c s =
      if broker.is_connection_open c s.outside
      then record s {
        outside =
            broker.disconnect c
              (broker.publish c (availability_topic cfg.mqtt) true "offline" s.outside).1;
      }
      else s

  unfoldable pub disconnect : Mqtt S C → Mqtt S C
  disconnect s = elim s.client [ none ↦ cleared 0 s | some c ↦ say_offline c (cleared 0 s) ]

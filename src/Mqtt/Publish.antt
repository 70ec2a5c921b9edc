-- ===== src/Mqtt/Publish.antt =====
-- internal/mqtt/service.go: `publish`, `publishAvailability`, `publishTelemetry`,
-- `publishCommandState` and `publishCurrentValue`.
use package.text.Mathlib.Text.{◌==◌ as str_eq}
use srne_inverter_to_mqtt.Base.{
  ℕ, String, Bool, true, false, not, Option, none, some, List, [], ◌∷◌, Result, ok, err, ◌==◌,
  if◌then◌else◌,
}
use srne_inverter_to_mqtt.Base.Float.{Float64}
use srne_inverter_to_mqtt.Base.Letters.{same_codes}
use srne_inverter_to_mqtt.Config.Types.{Config}
use srne_inverter_to_mqtt.Registers.Types.{Register, DecodedValue, text}
use srne_inverter_to_mqtt.Registers.Decode.{decode}
use srne_inverter_to_mqtt.Registers.Write.{encode_write}
use srne_inverter_to_mqtt.Mqtt.Types.{Broker, MqttError, no_client, not_published, Mqtt}
use srne_inverter_to_mqtt.Mqtt.Topics.{state_topic, availability_topic}

-- `s.lastPublished[topic]`
unfoldable pub get_last_published : List (List ℕ × String) → List ℕ → Option String
get_last_published [] topic = none
get_last_published ((key, payload) ∷ entries) topic =
    let rest = get_last_published entries topic in
    if same_codes key topic then some payload else rest

-- `s.lastPublished[topic] = value`: the new entry stands before an old one of the topic.
unfoldable pub set_last_published :
    List ℕ → String → List (List ℕ × String) → List (List ℕ × String)
set_last_published topic payload entries = (topic, payload) ∷ entries

unfoldable pub is_published : Option String → String → Bool
is_published none payload = false
is_published (some last) payload = str_eq last payload

module _ {S C E Num : Type 0} (broker : Broker S C E) (cfg : Config Num) where
  abbrev pub Published : Type 0
  Published = Result (MqttError E) (Unit {0}) × Mqtt S C

  unfoldable pub sent : Mqtt S C → Result E (Unit {0}) × S → Published
  sent s (ok _, t) = (ok tt, record s { outside = t })
  sent s (err e, t) = (err (not_published e), record s { outside = t })

  unfoldable pub publish : List ℕ → String → Bool → Mqtt S C → Published
  publish topic payload retained s = elim s.client [
    | none ↦ (err no_client, s)
    | some c ↦ sent s (broker.publish c topic retained payload s.outside)
  ]

  unfoldable pub publish_availability : String → Mqtt S C → Published
  publish_availability payload s = publish (availability_topic cfg.mqtt) payload true s

  -- The payload is noted once it was published.
  unfoldable pub noted : List ℕ → String → Published → Published
  noted topic payload (err e, s) = (err e, s)
  noted topic payload (ok _, s) =
      (ok tt, record s { last_published = set_last_published topic payload s.last_published })

  unfoldable pub publish_noted : List ℕ → String → Mqtt S C → Published
  publish_noted topic payload s = noted topic payload (publish topic payload cfg.mqtt.retain s)

  -- One value: it is skipped if it is the one that was published last.
  unfoldable pub publish_value : DecodedValue Num → Mqtt S C → Published
  publish_value value s =
      let topic = state_topic cfg.mqtt value.id in
      let done = publish_noted topic value.rendered s in
      if is_published (get_last_published s.last_published topic) value.rendered
      then (ok tt, s)
      else done

  unfoldable pub publish_telemetry : List (DecodedValue Num) → Mqtt S C → Published
  publish_telemetry [] s = (ok tt, s)
  publish_telemetry (value ∷ values) s =
      let (result, after) = publish_value value s in
      elim result [ err e ↦ (err e, after) | ok _ ↦ publish_telemetry values after ]

  -- The first value with the identifier, if there is one.
  unfoldable pub publish_current_value : List (DecodedValue Num) → String → Mqtt S C → Published
  publish_current_value [] id s = (ok tt, s)
  publish_current_value (value ∷ values) id s =
      let rest = publish_current_value values id s in
      let found = publish_noted (state_topic cfg.mqtt value.id) value.rendered s in
      if str_eq value.id id then found else rest

  -- The rendering of the value that a command wrote, if it can be told.
  unfoldable pub command_rendering : Float64 Num → Register Num → String → ℕ → Option String
  command_rendering fl reg payload now = elim (encode_write fl reg (text payload)) [
    | err e ↦ none
    | ok encoded ↦ if not (reg.count == 1) then none else elim (decode fl reg (encoded ∷ []) now) [
      | err e ↦ none
      | ok decoded ↦ some decoded.rendered
    ]
  ]

  unfoldable pub publish_rendering :
      List (DecodedValue Num) → String → Option String → Mqtt S C → Published
  publish_rendering values id none s = publish_current_value values id s
  publish_rendering values id (some rendered) s = publish_noted (state_topic cfg.mqtt id) rendered s

  unfoldable pub publish_command_state :
      Float64 Num → List (DecodedValue Num) → Register Num → String → ℕ → Mqtt S C → Published
  publish_command_state fl values reg payload now s =
      let done = publish_rendering values reg.id (command_rendering fl reg payload now) s in
      if reg.write_only then (ok tt, s) else done

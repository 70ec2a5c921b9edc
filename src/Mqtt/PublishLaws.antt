-- ===== src/Mqtt/PublishLaws.antt =====
-- Lemmas about `publishTelemetry` of internal/mqtt/service.go and what a broker then shows.
use srne_inverter_to_mqtt.Base.{
  ℕ, String, Bool, true, false, Option, some, List, [], ◌∷◌, All, ok, ◌≡◌,
}
use srne_inverter_to_mqtt.Base.Letters.{same_codes}
use srne_inverter_to_mqtt.Config.Types.{Config}
use srne_inverter_to_mqtt.Registers.Types.{DecodedValue}
use srne_inverter_to_mqtt.Mqtt.Types.{Broker, Mqtt}
use srne_inverter_to_mqtt.Mqtt.Topics.{state_topic}
use srne_inverter_to_mqtt.Mqtt.Publish.{get_last_published, set_last_published, publish}

-- What is relied on of a broker: a publish that succeeds shows its payload under its topic, and no
-- other topic changes. Topics are compared by their code points.
pub record ShowsPublished {S C E : Type 0} (broker : Broker S C E) : Type 0 where
  pub shown : S → List ℕ → Option String
  pub publish_ok :
      (c : C) (topic u : List ℕ) (retained : Bool) (payload : String) (s : S)
      → (broker.publish c topic retained payload s).0 ≡ ok tt
      → same_codes topic u ≡ true
      → shown (broker.publish c topic retained payload s).1 u ≡ some payload
  pub publish_other :
      (c : C) (topic u : List ℕ) (retained : Bool) (payload : String) (s : S)
      → same_codes topic u ≡ false
      → shown (broker.publish c topic retained payload s).1 u ≡ shown s u

module _ {S C E Num : Type 0} (broker : Broker S C E) (cfg : Config Num)
    (laws : ShowsPublished broker) where
  -- What the service noted as published last is what the broker shows.
  abbrev pub IsInStep : Mqtt S C → Type 0
  IsInStep s =
      (u : List ℕ) (p : String)
      → get_last_published s.last_published u ≡ some p
      → laws.shown s.outside u ≡ some p

  abbrev pub topic_of : DecodedValue Num → List ℕ
  topic_of v = state_topic cfg.mqtt v.id

  abbrev pub Differs : List ℕ → DecodedValue Num → Type 0
  Differs u v = same_codes (topic_of v) u ≡ false

  -- No two values have one topic.
  abbrev pub Distinct : List (DecodedValue Num) → Type 0
  Distinct [] = Unit
  Distinct (v ∷ vs) = All (Differs (topic_of v)) vs × Distinct vs

  abbrev pub IsShown : Mqtt S C → DecodedValue Num → Type 0
  IsShown s v = laws.shown s.outside (topic_of v) ≡ some v.rendered

  -- After a success the topic shows the payload, and it is noted; the others are as they were.
  record Told (topic : List ℕ) (payload : String) (before after : Mqtt S C) : Type 0 where
    told : (u : List ℕ) → same_codes topic u ≡ true → laws.shown after.outside u ≡ some payload
    others :
        (u : List ℕ)
        → same_codes topic u ≡ false
        → laws.shown after.outside u ≡ laws.shown before.outside u
    notes : after.last_published ≡ set_last_published topic payload before.last_published

  -- The value is shown and noted, and the other topics are as they were.
  record Shown (v : DecodedValue Num) (before after : Mqtt S C) : Type 0 where
    in_step : IsInStep after
    shown : IsShown after v
    others : (u : List ℕ) → Differs u v → laws.shown after.outside u ≡ laws.shown before.outside u

  -- The values are shown, and the topics of no value are as they were.
  record AllShown (vs : List (DecodedValue Num)) (before after : Mqtt S C) : Type 0 where
    in_step : IsInStep after
    shown : All (IsShown after) vs
    others :
        (u : List ℕ) → All (Differs u) vs → laws.shown after.outside u ≡ laws.shown before.outside u

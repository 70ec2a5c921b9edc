-- ===== src/Mqtt/Topics.antt =====
-- internal/mqtt/service.go: `mqttKey`, the topics and `sanitizeID`.
use mathlib.Core.List.{reverse}
use srne_inverter_to_mqtt.Base.{
  ℕ, String, ◌&&◌, List, [], ◌∷◌, ◌++◌, map, ok, err, leb, ◌==◌, if◌then◌else◌,
}
use srne_inverter_to_mqtt.Base.Letters.{codes, to_lower}
use srne_inverter_to_mqtt.Config.Types.{Config, DeviceConfig, MqttConfig}
use srne_inverter_to_mqtt.Config.Endpoint.{normalized_inverter_type}
use srne_inverter_to_mqtt.Modbus.Connection.{joined}

-- `strings.TrimSuffix(s, "/")`
unfoldable pub without_slash : List ℕ → List ℕ
without_slash [] = []
without_slash (c ∷ []) = if c == b'/' then [] else c ∷ []
without_slash (c ∷ d ∷ rest) = c ∷ without_slash (d ∷ rest)

-- The text of `inverterType, _ := cfg.Device.NormalizedInverterType()`
unfoldable pub type_text : DeviceConfig → String
type_text device = elim (normalized_inverter_type device) [ ok t ↦ t | err e ↦ "" ]

unfoldable pub mqtt_key : {Num : Type 0} → Config Num → List ℕ
mqtt_key cfg = joined (
    codes cfg.mqtt.broker
    ∷ codes cfg.mqtt.client_id
    ∷ codes cfg.mqtt.username
    ∷ codes cfg.mqtt.topic_prefix
    ∷ codes cfg.mqtt.discovery_prefix
    ∷ codes (if cfg.mqtt.retain then "true" else "false")
    ∷ codes (type_text cfg.device)
    ∷ [])

unfoldable pub availability_topic : MqttConfig → List ℕ
availability_topic c = without_slash (codes c.topic_prefix) ++ codes "/availability"

unfoldable pub state_topic : MqttConfig → String → List ℕ
state_topic c id = without_slash (codes c.topic_prefix) ++ codes "/state/" ++ codes id

unfoldable pub command_topic : MqttConfig → String → List ℕ
command_topic c id = without_slash (codes c.topic_prefix) ++ codes "/command/" ++ codes id

unfoldable pub discovery_topic : MqttConfig → List ℕ → List ℕ → List ℕ → List ℕ
discovery_topic c component device_id object_id =
    codes c.discovery_prefix
    ++ codes "/"
    ++ component
    ++ codes "/"
    ++ device_id
    ++ codes "/"
    ++ object_id
    ++ codes "/config"

-- Lower-case letters and digits stay, everything else becomes an underscore.
unfoldable pub sanitized : ℕ → ℕ
sanitized c = if leb b'a' c && leb c b'z' then c else if leb b'0' c && leb c b'9' then c else b'_'

unfoldable pub trim_underscores : List ℕ → List ℕ
trim_underscores [] = []
trim_underscores (c ∷ cs) = let rest = trim_underscores cs in if c == b'_' then rest else c ∷ cs

unfoldable pub or_device : List ℕ → List ℕ
or_device [] = codes "srne_device"
or_device (c ∷ cs) = c ∷ cs

unfoldable pub sanitize_id : String → List ℕ
sanitize_id input =
    let mapped = map sanitized (map to_lower (codes input)) in
    or_device (reverse (trim_underscores (reverse (trim_underscores mapped))))

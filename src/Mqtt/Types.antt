-- ===== src/Mqtt/Types.antt =====
-- internal/mqtt/service.go: the service's state, and what it calls of the MQTT library. A topic is
-- the list of its code points.
use srne_inverter_to_mqtt.Base.{ℕ, String, Bool, Option, List, Result}
use srne_inverter_to_mqtt.Config.Types.{MqttConfig}
use srne_inverter_to_mqtt.Store.Types.{ServiceStatus}

-- paho over a world `S` with clients `C` and errors `E`. `Connect`, `Publish` and the wait for their
-- tokens are one call; a wait that times out is an error of its own.
pub record Broker (S C E : Type 0) : Type 0 where
  pub new_client : MqttConfig → S → C × S
  pub connect : C → S → Result E (Unit {0}) × S
  pub is_connection_open : C → S → Bool
  pub publish : C → List ℕ → Bool → String → S → Result E (Unit {0}) × S
  pub disconnect : C → S → S
  pub same_client : C → C → Bool
  pub now : S → ℕ × S
  pub error_text : E → String

pub data MqttError (E : Type 0) : Type 0 where
  no_client : MqttError E
  not_published : E → MqttError E

-- `Service`, with the statuses of the store that it writes to. `unhealthy_since` is 0 for Go's zero
-- time, and `last_published` is its list of entries.
pub record Mqtt (S C : Type 0) : Type 0 where
  pub key : List ℕ
  pub client : Option C
  pub discovery_key : List ℕ
  pub last_published : List (List ℕ × String)
  pub unhealthy_since : ℕ
  pub services : List (String × ServiceStatus)
  pub outside : S

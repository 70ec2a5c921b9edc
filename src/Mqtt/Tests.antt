-- ===== src/Mqtt/Tests.antt =====
-- A run of `publishTelemetry` with a broker that keeps every message.
use srne_inverter_to_mqtt.Base.{
  ℕ, true, false, List, [], ◌∷◌, String, Option, some, none, ok, if◌then◌else◌,
}
use srne_inverter_to_mqtt.Base.Int.{pos}
use srne_inverter_to_mqtt.Base.Whole.{whole_numbers}
use srne_inverter_to_mqtt.Base.Letters.{same_codes}
use srne_inverter_to_mqtt.Config.Types.{Config, default_config}
use srne_inverter_to_mqtt.Registers.Types.{DecodedValue, fast, float64}
use srne_inverter_to_mqtt.Mqtt.Types.{Broker, Mqtt}
use srne_inverter_to_mqtt.Mqtt.Publish.{publish}

abbrev Messages : Type 0
Messages = List ℕ → Option String

abbrev settings : Config ℕ
settings = default_config whole_numbers

abbrev keeping_broker : Broker Messages (Unit {0}) (Unit {0})
keeping_broker = record {
  new_client = λ c s. (tt, s);
  connect = λ c s. (ok tt, s);
  is_connection_open = λ c s. true;
  publish =
      λ c topic retained payload s. (ok tt, λ u. if same_codes topic u then some payload else s u);
  disconnect = λ c s. s;
  same_client = λ c d. true;
  now = λ s. (7, s);
  error_text = λ e. "error";
}

abbrev voltage : String → String → DecodedValue ℕ
voltage id rendered = record {
  id = id;
  name = id;
  address = 0;
  group = fast;
  component = "sensor";
  entity = "";
  entity_category = "";
  writable = false;
  write_only = false;
  synthetic = false;
  raw_only = false;
  unit = "V";
  device_class = "voltage";
  state_class = "";
  icon = "";
  raw = pos 48;
  raw_words = 48 ∷ [];
  value = float64 48;
  rendered = rendered;
  write_min = 0;
  write_max = 0;
  write_step = 0;
  options = [];
  updated_at = 0;
}

abbrev values : List (DecodedValue ℕ)
values = voltage "battery" "48" ∷ voltage "grid" "230" ∷ []

-- Nothing was published yet.
abbrev before : Mqtt Messages (Unit {0})
before = record {
  key = [];
  client = some tt;
  discovery_key = [];
  last_published = [];
  unhealthy_since = 0;
  services = [];
  outside = λ u. none;
}

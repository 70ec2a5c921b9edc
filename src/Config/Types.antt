-- ===== src/Config/Types.antt =====
-- internal/config/config.go: the types and `Default`. A duration is its nanoseconds; `Num` is
-- float64.
use srne_inverter_to_mqtt.Base.{ℕ, String, Bool, true, ◌*◌}
use srne_inverter_to_mqtt.Base.Int.{ℤ, pos}
use srne_inverter_to_mqtt.Base.Float.{Float64}

pub record DeviceConfig : Type 0 where
  pub name : String
  pub slave_id : ℕ
  pub inverter_type : String

pub record SerialConfig : Type 0 where
  pub port : String
  pub network_protocol : String
  pub baud_rate : ℤ
  pub data_bits : ℤ
  pub parity : String
  pub stop_bits : ℤ
  pub timeout : ℤ

pub record PollingConfig : Type 0 where
  pub fast_interval : ℤ
  pub slow_interval : ℤ
  pub reconnect_delay : ℤ

pub record MqttConfig : Type 0 where
  pub broker : String
  pub username : String
  pub password : String
  pub client_id : String
  pub topic_prefix : String
  pub discovery_prefix : String
  pub retain : Bool

pub record HttpConfig : Type 0 where
  pub listen : String

pub record LoggingConfig : Type 0 where
  pub level : String

pub record StormChargeConfig (Num : Type 0) : Type 0 where
  pub target_soc : ℤ
  pub max_current_a : Num
  pub timeout : ℤ

pub record Config (Num : Type 0) : Type 0 where
  pub device : DeviceConfig
  pub serial : SerialConfig
  pub polling : PollingConfig
  pub mqtt : MqttConfig
  pub http : HttpConfig
  pub logging : LoggingConfig
  pub storm_charge : StormChargeConfig Num

-- `time.Second`, `time.Minute` and `time.Hour`
abbrev pub second : ℕ
second = 1000000000

abbrev pub minute : ℕ
minute = 60 * second

abbrev pub hour : ℕ
hour = 60 * minute

abbrev pub default_config : {Num : Type 0} → Float64 Num → Config Num
default_config fl = record {
  device = record { name = "srne-main"; slave_id = 1; inverter_type = "single_phase" };
  serial = record {
    port = "/dev/ttyUSB0";
    network_protocol = "rtu";
    baud_rate = pos 9600;
    data_bits = pos 8;
    parity = "N";
    stop_bits = pos 1;
    timeout = pos (3 * second);
  };
  polling = record {
    fast_interval = pos (15 * second);
    slow_interval = pos (60 * second);
    reconnect_delay = pos (5 * second);
  };
  mqtt = record {
    broker = "tcp://127.0.0.1:1883";
    username = "";
    password = "";
    client_id = "srne-hive-nuc";
    topic_prefix = "srne/srne-main";
    discovery_prefix = "homeassistant";
    retain = true;
  };
  http = record { listen = "127.0.0.1:8080" };
  logging = record { level = "info" };
  storm_charge = record {
    target_soc = pos 95;
    max_current_a = fl.ratio 50 0;
    timeout = pos (12 * hour);
  };
}

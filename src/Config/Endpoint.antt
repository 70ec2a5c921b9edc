-- ===== src/Config/Endpoint.antt =====
-- internal/config/config.go: the inverter's type, the connection's mode and the TCP address.
use srne_inverter_to_mqtt.Base.{
  ℕ, String, Bool, true, false, not, ◌||◌, Option, none, some, List, [], ◌∷◌, Result, ok, err,
  if◌then◌else◌,
}
use srne_inverter_to_mqtt.Base.Letters.{codes, means, trim_space, after_prefix}
use srne_inverter_to_mqtt.Config.Types.{DeviceConfig, SerialConfig}

pub data ConfigError : Type 0 where
  name_required slave_id_zero inverter_type_unknown baud_rate_range data_bits_range : ConfigError
  stop_bits_range parity_unknown serial_timeout_range fast_interval_range : ConfigError
  slow_interval_range reconnect_delay_range listen_required level_required : ConfigError
  target_soc_range max_current_range storm_timeout_range : ConfigError
  endpoint_incomplete rtu_over_tcp_needs_tcp modbus_tcp_needs_tcp protocol_unknown : ConfigError

pub data ConnectionMode : Type 0 where
  rtu rtu_over_tcp modbus_tcp : ConnectionMode

unfoldable pub is_not_empty : List ℕ → Bool
is_not_empty [] = false
is_not_empty (c ∷ cs) = true

-- The text behind `tcp://`, or behind `tcp:`.
unfoldable pub tcp_rest : List ℕ → Option (List ℕ)
unfolding after_prefix
tcp_rest port = elim (after_prefix (codes "tcp://") port) [
  | some rest ↦ some rest
  | none ↦ after_prefix (codes "tcp:") port
]

unfoldable pub tcp_address : String → List ℕ × Bool
tcp_address port = elim (tcp_rest (trim_space (codes port))) [
  | some rest ↦ (trim_space rest, is_not_empty (trim_space rest))
  | none ↦ ([], false)
]

unfoldable pub is_tcp_port : String → Bool
is_tcp_port port = elim (tcp_rest (trim_space (codes port))) [ some rest ↦ true | none ↦ false ]

unfoldable pub normalized_inverter_type : DeviceConfig → Result ConfigError String
normalized_inverter_type c =
    let t = c.inverter_type in
    if means t ""
      || means t "single_phase"
      || means t "single-phase"
      || means t "single"
      || means t "1p"
    then ok "single_phase"
    else if means t "three_phase" || means t "three-phase" || means t "three" || means t "3p"
    then ok "spi_h3p"
    else if means t "spi_h3p" || means t "spi-h3p" || means t "spi"
    then ok "spi_h3p"
    else if means t "hesp_sh3" || means t "hesp-sh3" || means t "hesp"
    then ok "hesp_sh3"
    else err inverter_type_unknown

unfoldable pub connection_mode : SerialConfig → Result ConfigError ConnectionMode
connection_mode c =
    let protocol = c.network_protocol in
    if means protocol "" || means protocol "rtu"
    then if (tcp_address c.port).1
      then ok rtu_over_tcp
      else if is_tcp_port c.port
      then err endpoint_incomplete
      else ok rtu
    else if means protocol "rtu_over_tcp" || means protocol "rtu-over-tcp"
    then if not (tcp_address c.port).1 then err rtu_over_tcp_needs_tcp else ok rtu_over_tcp
    else if means protocol "modbus_tcp" || means protocol "modbus-tcp" || means protocol "tcp"
    then if not (tcp_address c.port).1 then err modbus_tcp_needs_tcp else ok modbus_tcp
    else err protocol_unknown

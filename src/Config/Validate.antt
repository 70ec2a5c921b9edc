-- ===== src/Config/Validate.antt =====
-- internal/config/config.go: `Config.Validate`.
use srne_inverter_to_mqtt.Base.{ℕ, Bool, not, ◌&&◌, ◌||◌, ◌*◌, ◌==◌, Result, fail_if, ◌>>=◌, ◌>>◌}
use srne_inverter_to_mqtt.Base.Int.{ℤ, pos, ltb_ℤ, leb_ℤ}
use srne_inverter_to_mqtt.Base.Float.{Float64}
use srne_inverter_to_mqtt.Base.Letters.{means, is_empty}
use srne_inverter_to_mqtt.Config.Types.{
  Config, SerialConfig, PollingConfig, StormChargeConfig, minute, hour,
}
use srne_inverter_to_mqtt.Config.Endpoint.{
  ConfigError, name_required, slave_id_zero, baud_rate_range, data_bits_range, stop_bits_range,
  parity_unknown, serial_timeout_range, fast_interval_range, slow_interval_range,
  reconnect_delay_range, listen_required, level_required, target_soc_range, max_current_range,
  storm_timeout_range, connection_mode, normalized_inverter_type,
}

unfoldable pub outside : ℤ → ℕ → ℕ → Bool
outside x low high = ltb_ℤ x (pos low) || ltb_ℤ (pos high) x

-- The checks of `Validate` on the serial port.
unfoldable pub validate_serial : SerialConfig → Result ConfigError (Unit {0})
validate_serial c = do
  fail_if (leb_ℤ c.baud_rate (pos 0)) baud_rate_range
  fail_if (outside c.data_bits 5 8) data_bits_range
  fail_if (outside c.stop_bits 1 2) stop_bits_range
  _ ← connection_mode c
  fail_if (not (means c.parity "n") && not (means c.parity "e") && not (means c.parity "o"))
      parity_unknown
  fail_if (leb_ℤ c.timeout (pos 0)) serial_timeout_range

unfoldable pub validate_polling : PollingConfig → Result ConfigError (Unit {0})
validate_polling c = do
  fail_if (leb_ℤ c.fast_interval (pos 0)) fast_interval_range
  fail_if (leb_ℤ c.slow_interval (pos 0)) slow_interval_range
  fail_if (leb_ℤ c.reconnect_delay (pos 0)) reconnect_delay_range

module _ {Num : Type 0} (fl : Float64 Num) where
  unfoldable pub validate_storm : StormChargeConfig Num → Result ConfigError (Unit {0})
  validate_storm c = do
    fail_if (outside c.target_soc 50 100) target_soc_range
    fail_if (fl.le c.max_current_a (fl.ratio 0 0) || fl.lt (fl.ratio 120 0) c.max_current_a)
        max_current_range
    fail_if (outside c.timeout (5 * minute) (24 * hour)) storm_timeout_range

  unfoldable pub validate : Config Num → Result ConfigError (Unit {0})
  validate c = do
    fail_if (is_empty c.device.name) name_required
    fail_if (c.device.slave_id == 0) slave_id_zero
    _ ← normalized_inverter_type c.device
    validate_serial c.serial
    validate_polling c.polling
    fail_if (is_empty c.http.listen) listen_required
    fail_if (is_empty c.logging.level) level_required
    validate_storm c.storm_charge

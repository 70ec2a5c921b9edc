-- ===== src/Config/Laws.antt =====
-- Lemmas about `Validate` and `ConnectionMode` of internal/config/config.go, as their clients see them.
use srne_inverter_to_mqtt.Base.{
  ℕ, ◌+◌, ◌≤◌, String, Bool, true, false, not, ◌&&◌, ok, arith, ◌≡◌, ◌⊎◌, ◌==◌, guard, not_guarded,
  bind-ok,
}
use srne_inverter_to_mqtt.Base.Int.{ℤ, pos, negsuc, pos_part, neg_part, leb_ℤ}
use srne_inverter_to_mqtt.Base.Float.{Float64}
use srne_inverter_to_mqtt.Base.Letters.{means, is_empty}
use srne_inverter_to_mqtt.Config.Types.{Config, SerialConfig, StormChargeConfig}
use srne_inverter_to_mqtt.Config.Endpoint.{
  level_required, ConnectionMode, rtu, rtu_over_tcp, modbus_tcp, connection_mode, tcp_address,
  is_tcp_port, normalized_inverter_type,
}
use srne_inverter_to_mqtt.Config.Validate.{
  outside, validate_serial, validate_polling, validate_storm, validate,
}
use srne_inverter_to_mqtt.Storm.Telemetry.{settings_from_config, validate_settings}

-- A mode and the port that it is for: the TCP modes have an address, the serial mode has no TCP port.
unfoldable pub Reachable : ConnectionMode → SerialConfig → Type 0
Reachable rtu c = is_tcp_port c.port ≡ false
Reachable rtu_over_tcp c = (tcp_address c.port).1 ≡ true
Reachable modbus_tcp c = (tcp_address c.port).1 ≡ true

-- When ConnectionMode gives a mode, the port serves it: the TCP modes have a non-empty TCP address,
-- and the serial mode has a port that does not begin like a TCP endpoint.
pub connection_mode-Reachable :
    (c : SerialConfig) (m : ConnectionMode) → connection_mode c ≡ ok m → Reachable m c
unfolding connection_mode Reachable
connection_mode-Reachable c rtu h = ground arith
connection_mode-Reachable c rtu_over_tcp h = ground arith
connection_mode-Reachable c modbus_tcp h = ground arith

unfoldable pub IsPositive : ℤ → Type 0
IsPositive z = 1 ≤ pos_part z

unfoldable pub IsWithin : ℤ → ℕ → ℕ → Type 0
IsWithin z low high = (low + neg_part z ≤ pos_part z) × (pos_part z ≤ high + neg_part z)

-- A serial section that the service can work with.
pub record IsSerial (c : SerialConfig) : Type 0 where
  pub baud_rate : IsPositive c.baud_rate
  pub data_bits : IsWithin c.data_bits 5 8
  pub stop_bits : IsWithin c.stop_bits 1 2
  pub mode : ConnectionMode
  pub mode_known : connection_mode c ≡ ok mode
  pub parity :
      (means c.parity "n" ≡ true) ⊎ ((means c.parity "e" ≡ true) ⊎ (means c.parity "o" ≡ true))
  pub timeout : IsPositive c.timeout

positive : (z : ℤ) → leb_ℤ z (pos 0) ≡ false → IsPositive z
unfolding IsPositive
positive (pos n) h = ground arith
positive (negsuc n) h = ground arith

within : (z : ℤ) (low high : ℕ) → outside z low high ≡ false → IsWithin z low high
unfolding outside IsWithin
within z low high h = ground arith

one_parity :
    (a b c : Bool) → (not a && not b && not c) ≡ false → (a ≡ true) ⊎ ((b ≡ true) ⊎ (c ≡ true))
one_parity a b c h = ground arith

validate_serial-IsSerial : (c : SerialConfig) → validate_serial c ≡ ok tt → IsSerial c
unfolding validate_serial
validate_serial-IsSerial c h =
    let (baud, h1) = guard _ _ _ _ h in
    let (bits, h2) = guard _ _ _ _ h1 in
    let (stop, h3) = guard _ _ _ _ h2 in
    let (m, mode, h4) = bind-ok (connection_mode c) _ _ h3 in
    let (par, h5) = guard _ _ _ _ h4 in
    record {
      baud_rate = positive _ baud;
      data_bits = within _ _ _ bits;
      stop_bits = within _ _ _ stop;
      mode = m;
      mode_known = mode;
      parity = one_parity _ _ _ par;
      timeout = positive _ (not_guarded _ _ h5);
    }

validate_storm-settings :
    {E Num : Type 0} (fl : Float64 Num) (c : StormChargeConfig Num)
    → validate_storm fl c ≡ ok tt
    → validate_settings fl {E = E} (settings_from_config c) ≡ ok tt
unfolding validate_storm validate_settings outside settings_from_config
validate_storm-settings fl c h = ground arith

-- What the rest of the program relies on in a configuration.
pub record IsValid {Num : Type 0} (E : Type 0) (fl : Float64 Num) (c : Config Num) : Type 0 where
  pub named : is_empty c.device.name ≡ false
  pub slave_id : 1 ≤ c.device.slave_id
  pub inverter : String
  pub inverter_known : normalized_inverter_type c.device ≡ ok inverter
  pub serial : IsSerial c.serial
  pub serves : Reachable serial.mode c.serial
  pub fast_interval : IsPositive c.polling.fast_interval
  pub slow_interval : IsPositive c.polling.slow_interval
  pub reconnect_delay : IsPositive c.polling.reconnect_delay
  pub listen : is_empty c.http.listen ≡ false
  pub storm : validate_settings fl {E = E} (settings_from_config c.storm_charge) ≡ ok tt

slave_id-positive : (n : ℕ) → (n == 0) ≡ false → 1 ≤ n
slave_id-positive n h = ground arith

-- A configuration that Validate accepts has a name, a slave id, a known inverter type, a serial
-- section in range whose port serves its mode, positive polling intervals, an HTTP address, and
-- storm-charge defaults that the manager's own ValidateSettings accepts.
pub validate-IsValid :
    {E Num : Type 0} (fl : Float64 Num) (c : Config Num) → validate fl c ≡ ok tt → IsValid E fl c
unfolding validate validate_polling
validate-IsValid fl c h =
    let (named, h1) = guard _ _ _ _ h in
    let (slave, h2) = guard _ _ _ _ h1 in
    let (t, known, h3) = bind-ok (normalized_inverter_type c.device) _ _ h2 in
    let (_, serial, h4) = bind-ok (validate_serial c.serial) _ _ h3 in
    let (_, polling, h5) = bind-ok (validate_polling c.polling) _ _ h4 in
    let (fast, p1) = guard _ _ _ _ polling in
    let (slow, p2) = guard _ _ _ _ p1 in
    let (listen, h6) = guard _ _ _ _ h5 in
    let (level, h7) =
      guard (is_empty c.logging.level) level_required (λ _. validate_storm fl c.storm_charge) _
        h6 in
    let is_serial = validate_serial-IsSerial c.serial serial in
    record {
      named = named;
      slave_id = slave_id-positive _ slave;
      inverter = t;
      inverter_known = known;
      serial = is_serial;
      serves = connection_mode-Reachable c.serial is_serial.mode is_serial.mode_known;
      fast_interval = positive _ fast;
      slow_interval = positive _ slow;
      reconnect_delay = positive _ (not_guarded _ _ p2);
      listen = listen;
      storm = validate_storm-settings fl c.storm_charge h7;
    }

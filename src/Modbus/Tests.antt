-- ===== src/Modbus/Tests.antt =====
-- A run of the block access on a device that keeps the payload of the last block.
use srne_inverter_to_mqtt.Base.{
  ℕ, ◌/◌, ◌%◌, ◌≡◌, refl, String, List, [], ◌∷◌, take, none, ok, ◌==◌, if◌then◌else◌, arith,
}
use srne_inverter_to_mqtt.Base.Letters.{is_empty, means}
use srne_inverter_to_mqtt.Config.Endpoint.{connection_mode, tcp_address, tcp_rest, is_tcp_port}
use srne_inverter_to_mqtt.Base.Whole.{whole_numbers}
use srne_inverter_to_mqtt.Config.Types.{Config, default_config}
use srne_inverter_to_mqtt.Registers.Words.{words_of_bytes, words_from_bytes}
use srne_inverter_to_mqtt.Clock.Device.{KeepsWords}
use srne_inverter_to_mqtt.Modbus.Types.{Link, Bus}
use srne_inverter_to_mqtt.Modbus.Connection.{
  ensure_client, open_client, reopen, keep_client, close_locked, wrap_connect, call,
  read_holding_with_retry, report_connected,
}
use srne_inverter_to_mqtt.Modbus.Holding.{
  payload_of, first_mismatch, read_holding_words, write_holding_words, write_connected, write_block,
  send_block, unlock_before_write, compare_block,
}
use srne_inverter_to_mqtt.Modbus.Blocks.{HoldsWords}
use srne_inverter_to_mqtt.Modbus.BlockLaws.{
  Shows, accessor, write_holding_words-block, read_holding_words-Shows, accessor-KeepsWords,
}

-- The device's state is the payload; a write to the unlock register changes nothing.
abbrev pub one_block : Link (List ℕ) (Unit {0}) String
one_block = record {
  connect_serial = λ c parity slave s. (ok tt, s);
  connect_rtu_over_tcp = λ address slave timeout s. (ok tt, s);
  connect_modbus_tcp = λ address timeout slave s. (ok tt, s);
  close = λ c s. s;
  read_holding_registers = λ c a n s. (ok s, s);
  write_single_register =
      λ c a v s. if a == 0xE203 then (ok [], s) else (ok [], v / 256 ∷ v % 256 ∷ []);
  write_multiple_registers = λ c a n p s. (ok [], p);
  now = λ s. (7, s);
  error_text = λ e. "error";
  duration_text = λ d. [];
}

pub one_block-HoldsWords : HoldsWords one_block
one_block-HoldsWords = record {
  block = λ s a n. take n (words_of_bytes s);
  read_words = λ c a n s bytes read. ground arith;
  read_keeps = λ c a' n' s a n. refl;
  close_keeps = λ c s a n. refl;
  serial_keeps = λ p parity slave s a n. refl;
  rtu_over_tcp_keeps = λ address slave timeout s a n. refl;
  modbus_tcp_keeps = λ address timeout slave s a n. refl;
  now_keeps = λ s a n. refl;
}

abbrev pub settings : Config ℕ
settings = default_config whole_numbers

abbrev closed : Bus (List ℕ) (Unit {0})
closed = record { key = []; client = none; services = []; outside = [] }

abbrev clock_words : List ℕ
clock_words = 0x1802 ∷ 0x1D17 ∷ 0x3B3A ∷ []

written : (write_holding_words one_block settings 526 clock_words closed).0 ≡ ok tt
unfolding write_holding_words is_empty write_connected ensure_client reopen keep_client open_client
    connection_mode means tcp_address tcp_rest is_tcp_port wrap_connect write_block call send_block
    compare_block read_holding_with_retry close_locked unlock_before_write words_from_bytes
    words_of_bytes first_mismatch payload_of report_connected
written = refl

write_holding_words-block_example :
    one_block-HoldsWords.block
      (write_holding_words one_block settings 526 clock_words closed).1.outside
      526
      3
    ≡ clock_words
write_holding_words-block_example =
    write_holding_words-block one_block settings one_block-HoldsWords 526 clock_words closed written

read_holding_words-Shows_example :
    Shows one_block settings one_block-HoldsWords 526 3 closed
      (read_holding_words one_block settings 526 3 closed)
read_holding_words-Shows_example =
    read_holding_words-Shows one_block settings one_block-HoldsWords 526 3 closed

accessor-KeepsWords_example : KeepsWords (accessor one_block settings one_block-HoldsWords)
accessor-KeepsWords_example = accessor-KeepsWords one_block settings one_block-HoldsWords

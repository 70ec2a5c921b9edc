-- ===== src/Rtu/Tests.antt =====
-- Runs of the frame code and of `Send` on small inputs.
use srne_inverter_to_mqtt.Base.{
  ℕ, zero, suc, ◌+◌, ◌≡◌, ◌≢◌, refl, List, [], ◌∷◌, length, get_or, ok, err, true, none, some,
  arith,
}
use srne_inverter_to_mqtt.Rtu.Crc.{calculate_crc, crc_from, crc_rounds, crc_shift}
use srne_inverter_to_mqtt.Rtu.Frame.{ProtocolDataUnit, crc_mismatch, encode, verify, decode}
use srne_inverter_to_mqtt.Rtu.FrameLaws.{sealed, frame_decode-encode, decode_damaged}
use srne_inverter_to_mqtt.Rtu.Client.{
  FuncCodes, Network, Handler, fault, response, rtu_response_length, send, connect_locked, transmit,
  receive, read_at_least, read_rest, is_short, reads_count,
}
use srne_inverter_to_mqtt.Rtu.ClientLaws.{Outcome, send-Outcome, send-ne-fault}

-- A request for one holding register.
abbrev read_one : ProtocolDataUnit
read_one = record { function_code = 3; body = 0x01 ∷ 0x00 ∷ 0 ∷ 1 ∷ [] }

abbrev request : List ℕ
request = 1 ∷ 3 ∷ 0x01 ∷ 0x00 ∷ 0 ∷ 1 ∷ 0x85 ∷ 0xF6 ∷ []

encode-request : encode 1 read_one ≡ ok request
unfolding encode calculate_crc crc_from crc_rounds crc_shift
encode-request = refl

frame_decode-encode_example :
    (frame : List ℕ) × (encode 1 read_one ≡ ok frame)
    × (length frame ≡ length read_one.body + 4)
    × (get_or frame 0 0 ≡ 1)
    × (verify frame frame ≡ ok tt)
    × (decode frame ≡ ok read_one)
frame_decode-encode_example =
    frame_decode-encode 1 read_one (omega arith) (omega arith) (ground arith) (omega arith)

abbrev zeros : ℕ → List ℕ
zeros zero = []
zeros (suc n) = 0 ∷ zeros n

decode_damaged_example :
    decode (sealed (1 ∷ 3 ∷ 2 ∷ 0 ∷ 6 ∷ []) (calculate_crc (1 ∷ 3 ∷ 2 ∷ 0 ∷ 5 ∷ [])))
    ≡ err (
        crc_mismatch
          (calculate_crc (1 ∷ 3 ∷ 2 ∷ 0 ∷ 5 ∷ []))
          (calculate_crc (1 ∷ 3 ∷ 2 ∷ 0 ∷ 6 ∷ [])))
decode_damaged_example =
    decode_damaged (1 ∷ 3 ∷ 2 ∷ 0 ∷ []) [] 5 6 (ground arith) tt (omega arith) (omega arith)
      (ground arith) (omega arith)

-- The function codes of gomodbus.
abbrev modbus_codes : FuncCodes
modbus_codes = record {
  read_discrete_inputs = 2;
  read_coils = 1;
  read_input_registers = 4;
  read_holding_registers = 3;
  read_write_multiple_registers = 23;
  write_single_coil = 5;
  write_multiple_coils = 15;
  write_single_register = 6;
  write_multiple_registers = 16;
  mask_write_register = 22;
}

-- An answer that arrives in two pieces.
abbrev two_pieces : Network
two_pieces = record {
  dial = some ((1 ∷ 3 ∷ 2 ∷ 0 ∷ []) ∷ (5 ∷ 0x78 ∷ 0x47 ∷ []) ∷ []);
  deadline_set = true;
  written = true;
}

abbrev handler : Handler
handler = record { address = "10.0.0.2:502"; slave_id = 1; timeout = 3; conn = none }

send-two_pieces :
    (send modbus_codes two_pieces request handler).1
    ≡ response (1 ∷ 3 ∷ 2 ∷ 0 ∷ 5 ∷ 0x78 ∷ 0x47 ∷ [])
unfolding send connect_locked transmit receive read_at_least read_rest rtu_response_length is_short
    reads_count
send-two_pieces = refl

send-Outcome_example :
    let r = send modbus_codes two_pieces request handler in Outcome modbus_codes request r.0 r.1
send-Outcome_example = send-Outcome modbus_codes request two_pieces handler

send-ne-fault_example : (send modbus_codes two_pieces request handler).1 ≢ fault
send-ne-fault_example = send-ne-fault modbus_codes request two_pieces handler (omega arith)

-- ===== src/Rtu/Frame.antt =====
-- Framing in internal/modbus/rtu_tcp.go: `Encode`, `Verify`, `Decode` and the CRC bytes.
use srne_inverter_to_mqtt.Base.{
  ℕ, ◌+◌, ◌-◌, ◌*◌, ◌/◌, ◌%◌, ◌^◌, bit_or, not, List, [], ◌∷◌, ◌++◌, length, get_or, take, drop,
  Result, ok, err, ◌>>◌, fail_if, ◌==◌, ltb, if◌then◌else◌,
}
use srne_inverter_to_mqtt.Rtu.Crc.{calculate_crc}

abbrev pub rtu_min_frame_size : ℕ
rtu_min_frame_size = 4

abbrev pub rtu_max_frame_size : ℕ
rtu_max_frame_size = 256

abbrev pub rtu_exception_frame_size : ℕ
rtu_exception_frame_size = 5

-- gomodbus.ProtocolDataUnit
pub record ProtocolDataUnit : Type 0 where
  pub function_code : ℕ
  pub body : List ℕ

-- The messages of the errors that the framing returns, with the numbers that they print.
pub data FrameError : Type 0 where
  frame_too_long : ℕ → FrameError
  response_too_short : ℕ → FrameError
  slave_mismatch : ℕ → ℕ → FrameError
  crc_mismatch : ℕ → ℕ → FrameError

-- `byte(crc)` and `byte(crc >> 8)`
abbrev pub crc_bytes : ℕ → List ℕ
crc_bytes crc = crc % 2 ^ 8 ∷ crc / 2 ^ 8 % 2 ^ 8 ∷ []

-- Overwrites the last two places of the frame.
unfoldable pub append_crc : List ℕ → List ℕ
append_crc frame =
    let checked = take (length frame - 2) frame in checked ++ crc_bytes (calculate_crc checked)

unfoldable pub frame_crc : List ℕ → ℕ
frame_crc frame =
    bit_or (get_or frame (length frame - 2) 0) (get_or frame (length frame - 1) 0 * 2 ^ 8 % 2 ^ 16)

unfoldable pub encode : ℕ → ProtocolDataUnit → Result FrameError (List ℕ)
unfolding append_crc
encode slave_id pdu =
    let frame_len = length pdu.body + 4 in
    if ltb rtu_max_frame_size frame_len
    then err (frame_too_long frame_len)
    else ok (append_crc (slave_id ∷ pdu.function_code ∷ pdu.body ++ 0 ∷ 0 ∷ []))

unfoldable pub verify : List ℕ → List ℕ → Result FrameError (Unit {0})
verify request response = do
  fail_if (ltb (length response) rtu_min_frame_size) (response_too_short (length response))
  fail_if (not (get_or response 0 0 == get_or request 0 0))
      (slave_mismatch (get_or response 0 0) (get_or request 0 0))

unfoldable pub decode : List ℕ → Result FrameError ProtocolDataUnit
unfolding frame_crc
decode frame = do
  fail_if (ltb (length frame) rtu_min_frame_size) (response_too_short (length frame))
  let got = frame_crc frame
  let want = calculate_crc (take (length frame - 2) frame)
  fail_if (not (got == want)) (crc_mismatch got want)
  ok (record { function_code = get_or frame 1 0; body = take (length frame - 4) (drop 2 frame) })

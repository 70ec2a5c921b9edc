-- ===== src/Rtu/Crc.antt =====
-- The Modbus CRC-16 of internal/modbus/rtu_tcp.go: `calculateCRC`.
use srne_inverter_to_mqtt.Base.{
  ℕ, zero, suc, ◌/◌, bit_and, bit_xor, List, [], ◌∷◌, ◌==◌, if◌then◌else◌,
}

-- One turn of the inner loop over the eight bits.
unfoldable pub crc_shift : ℕ → ℕ
crc_shift crc = if bit_and crc 1 == 0 then crc / 2 else bit_xor (crc / 2) 0xA001

unfoldable pub crc_rounds : ℕ → ℕ → ℕ
crc_rounds zero crc = crc
crc_rounds (suc n) crc = crc_rounds n (crc_shift crc)

-- The outer loop over the bytes.
unfoldable pub crc_from : ℕ → List ℕ → ℕ
crc_from crc [] = crc
crc_from crc (b ∷ bs) = crc_from (crc_rounds 8 (bit_xor crc b)) bs

unfoldable pub calculate_crc : List ℕ → ℕ
calculate_crc bytes = crc_from 0xFFFF bytes

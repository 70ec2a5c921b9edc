-- ===== src/Registers/Write.antt =====
-- internal/registers/catalog.go: `EncodeWrite`, from a value of any type to a 16-bit word.
use srne_inverter_to_mqtt.Base.{
  ℕ, ◌-◌, ◌%◌, ◌^◌, ◌+◌, String, not, ◌&&◌, ◌||◌, List, [], ◌∷◌, Option, none, some, Result, ok,
  err, ◌>>=◌, ◌>>◌, fail_if, ◌==◌, if◌then◌else◌,
}
use srne_inverter_to_mqtt.Base.Int.{ℤ, pos, pos_part, neg_part, ltb_ℤ}
use srne_inverter_to_mqtt.Base.Letters.{equal_fold}
use srne_inverter_to_mqtt.Base.Numeral.{parse_int}
use srne_inverter_to_mqtt.Base.Float.{Float64}
use srne_inverter_to_mqtt.Registers.Types.{Register, Value, float64, int64, int, text}
use srne_inverter_to_mqtt.Registers.Words.{
  RegisterError, not_writable, single_register_only, out_of_uint16, unsupported_enum,
  unsupported_input, invalid_number, out_of_bounds, off_step,
}
use srne_inverter_to_mqtt.Registers.Decode.{label_of, is_empty_map, scale_or_one}

-- The first entry, in the order of the iteration, whose label is the text up to case.
unfoldable pub raw_of_label : List (ℤ × String) → String → Option ℤ
raw_of_label [] value = none
raw_of_label ((raw, label) ∷ mapping) value =
    if equal_fold label value then some raw else raw_of_label mapping value

-- A number is accepted if it is a key.
unfoldable pub known_key : List (ℤ × String) → ℤ → Result RegisterError ℤ
known_key mapping raw = elim (label_of mapping raw) [
  | some label ↦ ok raw
  | none ↦ err unsupported_enum
]

unfoldable pub number_key : List (ℤ × String) → Option ℤ → Result RegisterError ℤ
number_key mapping none = err unsupported_enum
number_key mapping (some raw) = known_key mapping raw

-- `uint16(raw)` of a number from 0 to 65535, with the test before it.
unfoldable pub checked_uint16 : ℤ → Result RegisterError ℕ
checked_uint16 raw =
    if ltb_ℤ raw (pos 0) || ltb_ℤ (pos 0xFFFF) raw
    then err out_of_uint16
    else ok (pos_part raw % 2 ^ 16)

-- `uint16(x)` of an integer, two's complement.
unfoldable pub to_uint16 : ℤ → ℕ
to_uint16 x = (pos_part x + 2 ^ 64 - neg_part x) % 2 ^ 16

module _ {Num : Type 0} (fl : Float64 Num) where
  unfoldable pub enum_raw_value : List (ℤ × String) → Value Num → Result RegisterError ℤ
  enum_raw_value mapping (text value) = elim (raw_of_label mapping value) [
    | some raw ↦ ok raw
    | none ↦ number_key mapping (parse_int value)
  ]
  enum_raw_value mapping (float64 value) = known_key mapping (fl.to_ℤ value)
  enum_raw_value mapping (int64 value) = known_key mapping value
  enum_raw_value mapping (int value) = known_key mapping value
  enum_raw_value mapping _ = err unsupported_input

  unfoldable pub numeric_input : Value Num → Result RegisterError Num
  numeric_input (float64 value) = ok value
  numeric_input (int64 value) = ok (fl.of_ℤ value)
  numeric_input (int value) = ok (fl.of_ℤ value)
  numeric_input (text value) = elim (fl.parse value) [
    | some parsed ↦ ok parsed
    | none ↦ err (invalid_number value)
  ]
  numeric_input _ = err unsupported_input

  abbrev zero_num : Num
  zero_num = fl.ratio 0 0

  unfoldable pub validate_write_bounds : Register Num → Num → Result RegisterError (Unit {0})
  validate_write_bounds r value = do
    fail_if
        ((not (fl.eq r.write_min zero_num) || not (fl.eq r.write_max zero_num))
          && (fl.lt value r.write_min || fl.lt r.write_max value))
        (out_of_bounds r.id)
    let steps = fl.round (fl.div (fl.sub value r.write_min) r.write_step)
    let expected = fl.add r.write_min (fl.mul steps r.write_step)
    fail_if (fl.lt zero_num r.write_step && fl.lt (fl.ratio 1 6) (fl.abs (fl.sub expected value)))
        (off_step r.id)

  -- The end of `EncodeWrite` for a register without an enum. The conversion `uint16(raw)` of a
  -- float64 is taken by way of the integer that `to_ℤ` gives.
  unfoldable pub encode_number : Register Num → Num → Result RegisterError ℕ
  encode_number r number = do
    validate_write_bounds r number
    let raw = fl.round (fl.div number (scale_or_one fl r.scale))
    fail_if (fl.lt raw zero_num || fl.lt (fl.ratio 0xFFFF 0) raw) out_of_uint16
    ok (to_uint16 (fl.to_ℤ raw))

  unfoldable pub encode_write : Register Num → Value Num → Result RegisterError ℕ
  encode_write r input = do
    fail_if (not r.writable) (not_writable r.id)
    fail_if (not (r.count == 1)) (single_register_only r.id)
    if is_empty_map r.enum
        then (numeric_input input >>= encode_number r)
        else (enum_raw_value r.enum input >>= checked_uint16)

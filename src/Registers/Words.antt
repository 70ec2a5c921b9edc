-- ===== src/Registers/Words.antt =====
-- internal/registers/catalog.go: from payload bytes to words and from words to raw numbers.
use srne_inverter_to_mqtt.Base.{
  ℕ, ◌+◌, ◌-◌, ◌*◌, ◌%◌, ◌^◌, bit_or, not, String, List, [], ◌∷◌, length, get_or, Result, ok, err,
  ◌==◌, ltb, if◌then◌else◌,
}
use srne_inverter_to_mqtt.Base.Int.{ℤ, pos, negsuc}
use srne_inverter_to_mqtt.Clock.Codec.{ClockError}
use srne_inverter_to_mqtt.Registers.Types.{
  ValueType, uint16, int16, uint32, int32, datetime, packed_time, other_type, WordOrder, low_high,
  Register,
}

-- The errors of the package, with what their messages print.
pub data RegisterError : Type 0 where
  odd_payload : ℕ → RegisterError
  short_payload : ℕ → ℕ → RegisterError
  too_few_words : String → ℕ → ℕ → RegisterError
  needs_two_words : String → RegisterError
  unsupported_type : String → RegisterError
  clock_error : ClockError → RegisterError
  not_writable : String → RegisterError
  single_register_only : String → RegisterError
  out_of_uint16 : RegisterError
  unsupported_enum : RegisterError
  unsupported_input : RegisterError
  invalid_number : String → RegisterError
  out_of_bounds : String → RegisterError
  off_step : String → RegisterError

-- The loop over the pairs of bytes, each in big-endian order.
unfoldable pub words_of_bytes : List ℕ → List ℕ
words_of_bytes (high ∷ low ∷ bytes) = (high * 2 ^ 8 + low) ∷ words_of_bytes bytes
words_of_bytes _ = []

unfoldable pub words_from_bytes : List ℕ → ℕ → Result RegisterError (List ℕ)
words_from_bytes bytes expected_words =
    let words = words_of_bytes bytes in
    if not (length bytes % 2 == 0)
    then err (odd_payload (length bytes))
    else if ltb (length words) expected_words
    then err (short_payload (length words) expected_words)
    else ok words

-- `int64(int16(w))` and `int64(int32(w))`
abbrev pub signed16 : ℕ → ℤ
signed16 w = if ltb w (2 ^ 15) then pos w else negsuc (2 ^ 16 - w - 1)

abbrev pub signed32 : ℕ → ℤ
signed32 w = if ltb w (2 ^ 31) then pos w else negsuc (2 ^ 32 - w - 1)

unfoldable pub join_words32 : ℕ → ℕ → WordOrder → ℕ
join_words32 first second low_high = bit_or (second * 2 ^ 16 % 2 ^ 32) first
join_words32 first second _ = bit_or (first * 2 ^ 16 % 2 ^ 32) second

-- The source indexes `words[0]` with no test of its own: every caller passes `Count` words.
unfoldable pub raw_of_type : String → WordOrder → ValueType → List ℕ → Result RegisterError ℤ
raw_of_type id order uint16 words = ok (pos (get_or words 0 0))
raw_of_type id order datetime words = ok (pos (get_or words 0 0))
raw_of_type id order packed_time words = ok (pos (get_or words 0 0))
raw_of_type id order int16 words = ok (signed16 (get_or words 0 0))
raw_of_type id order uint32 words =
    if ltb (length words) 2
    then err (needs_two_words id)
    else ok (pos (join_words32 (get_or words 0 0) (get_or words 1 0) order))
raw_of_type id order int32 words =
    if ltb (length words) 2
    then err (needs_two_words id)
    else ok (signed32 (join_words32 (get_or words 0 0) (get_or words 1 0) order))
raw_of_type id order (other_type t) words = err (unsupported_type t)

unfoldable pub raw_value : {Num : Type 0} → Register Num → List ℕ → Result RegisterError ℤ
raw_value r words = raw_of_type r.id r.word_order r.value_type words

-- ===== src/Clock/Tests.antt =====
-- Runs of the clock's codec.
use srne_inverter_to_mqtt.Base.{ℕ, ◌≤◌, ◌≡◌, ◌↔◌, refl, List, [], ◌∷◌, length, ok, arith}
use srne_inverter_to_mqtt.Clock.Codec.{
  DateTime, raw_value, validate, encode, decode, with_text, is_ok, part_out_of_range, date_moved,
  time_date, days_in, is_leap_year, decoded_year,
}
use srne_inverter_to_mqtt.Clock.CodecLaws.{
  IsDateTime, IsCalendar, validate_iff, stamped, since_2000, clock_decode-encode,
  clock_encode-decode,
}

-- 29 February 2024, 23:59:58.
abbrev leap_day : DateTime
leap_day = raw_value 2024 2 29 23 59 58

leap_february : 29 ≤ days_in 2024 2
unfolding days_in is_leap_year
leap_february = omega arith

leap_day-IsDateTime : IsDateTime 2024 2 29 23 59 58
leap_day-IsDateTime = record {
  year_low = omega arith;
  year_high = omega arith;
  month_low = omega arith;
  month_high = omega arith;
  day_low = omega arith;
  day_high = leap_february;
  hour_high = omega arith;
  minute_high = omega arith;
  second_high = omega arith;
}

validate_iff_example : (validate leap_day ≡ ok tt) ↔ IsCalendar leap_day
validate_iff_example = validate_iff leap_day

clock_decode-encode_example :
    (words : List ℕ) × (encode leap_day ≡ ok words)
    × (length words ≡ 3)
    × (decode words ≡ ok (stamped 2024 2 29 23 59 58))
clock_decode-encode_example = clock_decode-encode 2024 2 29 23 59 58 leap_day-IsDateTime

abbrev leap_words : List ℕ
leap_words = 0x1802 ∷ 0x1D17 ∷ 0x3B3A ∷ []

decoded : decode leap_words ≡ ok (stamped 2024 2 29 23 59 58)
unfolding decode with_text is_ok validate part_out_of_range date_moved time_date days_in
    is_leap_year decoded_year
decoded = refl

clock_encode-decode_example :
    encode (stamped 2024 2 29 23 59 58) ≡ ok (since_2000 0x1802 ∷ 0x1D17 ∷ 0x3B3A ∷ [])
clock_encode-decode_example =
    clock_encode-decode 0x1802 0x1D17 0x3B3A (stamped 2024 2 29 23 59 58) (omega arith)
      (omega arith) (omega arith) decoded refl

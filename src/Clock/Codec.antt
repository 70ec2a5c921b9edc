-- ===== src/Clock/Codec.antt =====
-- internal/inverterclock/clock.go: the clock registers and their validation.
use Prim.Native.String
use srne_inverter_to_mqtt.Base.{
  ℕ, ◌+◌, ◌-◌, ◌*◌, ◌/◌, ◌%◌, ◌^◌, bit_and, bit_or, String, Bool, true, false, not, ◌&&◌, ◌||◌,
  List, [], ◌∷◌, length, get_or, Result, ok, err, ◌>>◌, fail_if, ◌==◌, ltb, leb, if◌then◌else◌,
}
use srne_inverter_to_mqtt.Base.Int.{ℤ, pos, pos_part, ltb_ℤ}
use srne_inverter_to_mqtt.Base.Text.{decimal, zero_padded}

abbrev pub date_time_address : ℕ
date_time_address = 0x020C

abbrev pub date_time_words : ℕ
date_time_words = 3

pub record DateTime : Type 0 where
  pub year : ℤ
  pub month : ℤ
  pub day : ℤ
  pub hour : ℤ
  pub minute : ℤ
  pub second : ℤ
  pub formatted : String
  pub valid : Bool

pub data ClockError : Type 0 where
  too_few_words : ℕ → ClockError
  year_out_of_range invalid_date_time : ClockError

-- The calendar of Go's `time` package.
unfoldable pub is_leap_year : ℕ → Bool
is_leap_year y = (y % 4 == 0) && (not (y % 100 == 0) || (y % 400 == 0))

unfoldable pub days_in : ℕ → ℕ → ℕ
days_in y m =
    if m == 2
    then (if is_leap_year y then 29 else 28)
    else if (m == 4) || (m == 6) || (m == 9) || (m == 11)
    then 30
    else 31

-- Year, month and day of `time.Date`, for a month from 1 to 12 and a day from 1 to 31: a day past
-- the end of the month runs over into the next one. (December has 31 days, so the year stays.)
unfoldable pub time_date : ℕ → ℕ → ℕ → record { year : ℕ; month : ℕ; day : ℕ }
time_date y m d =
    if leb d (days_in y m)
    then record { year = y; month = m; day = d }
    else record { year = y; month = m + 1; day = d - days_in y m }

abbrev pub outside : ℤ → ℕ → ℕ → Bool
outside x low high = ltb_ℤ x (pos low) || ltb_ℤ (pos high) x

-- The second test of `validate`: a part outside its range.
unfoldable pub part_out_of_range : DateTime → Bool
part_out_of_range value =
    outside value.month 1 12
    || outside value.day 1 31
    || outside value.hour 0 23
    || outside value.minute 0 59
    || outside value.second 0 59

-- The third: `time.Date` moved the date to another day.
unfoldable pub date_moved : ℕ → ℕ → ℕ → Bool
date_moved y m d =
    let parsed = time_date y m d in
    not (parsed.year == y) || not (parsed.month == m) || not (parsed.day == d)

unfoldable pub validate : DateTime → Result ClockError (Unit {0})
validate value = do
  fail_if (outside value.year 2000 2099) year_out_of_range
  fail_if (part_out_of_range value) invalid_date_time
  fail_if (date_moved (pos_part value.year) (pos_part value.month) (pos_part value.day))
      invalid_date_time

unfoldable pub format_valid : ℕ → ℕ → ℕ → ℕ → ℕ → ℕ → String
unfolding zero_padded
format_valid y mo d h mi s = String.◌++◌ (zero_padded 4 y) (
    String.◌++◌ "-" (
      String.◌++◌ (zero_padded 2 mo) (
        String.◌++◌ "-" (
          String.◌++◌ (zero_padded 2 d) (
            String.◌++◌ " " (
              String.◌++◌ (zero_padded 2 h) (
                String.◌++◌ ":"
                  (String.◌++◌ (zero_padded 2 mi) (String.◌++◌ ":" (zero_padded 2 s))))))))))

unfoldable pub format_invalid : ℕ → ℕ → ℕ → ℕ → ℕ → ℕ → String
unfolding decimal
format_invalid y mo d h mi s = String.◌++◌ "invalid raw clock (" (
    String.◌++◌ (decimal y) (
      String.◌++◌ "-" (
        String.◌++◌ (decimal mo) (
          String.◌++◌ "-" (
            String.◌++◌ (decimal d) (
              String.◌++◌ " " (
                String.◌++◌ (decimal h) (
                  String.◌++◌ ":" (
                    String.◌++◌ (decimal mi)
                      (String.◌++◌ ":" (String.◌++◌ (decimal s) ")")))))))))))

unfoldable pub is_ok : Result ClockError (Unit {0}) → Bool
is_ok (ok u) = true
is_ok (err e) = false

-- The C `tm_year` representation counts from 1900.
unfoldable pub decoded_year : ℕ → ℕ
decoded_year raw_year = if leb 100 raw_year then 1900 + raw_year else 2000 + raw_year

abbrev pub raw_value : ℕ → ℕ → ℕ → ℕ → ℕ → ℕ → DateTime
raw_value y mo d h mi s = record {
  year = pos y;
  month = pos mo;
  day = pos d;
  hour = pos h;
  minute = pos mi;
  second = pos s;
  formatted = "";
  valid = false;
}

-- The end of `Decode`: the flag and the text, by whether the parts are a date.
unfoldable pub with_text : ℕ → ℕ → ℕ → ℕ → ℕ → ℕ → DateTime
with_text y mo d h mi s =
    let value = raw_value y mo d h mi s in
    if is_ok (validate value)
    then record value { valid = true; formatted = format_valid y mo d h mi s }
    else record value { formatted = format_invalid y mo d h mi s }

unfoldable pub decode : List ℕ → Result ClockError DateTime
decode words =
    if ltb (length words) date_time_words
    then err (too_few_words (length words))
    else ok (
        with_text (decoded_year (get_or words 0 0 / 2 ^ 8)) (bit_and (get_or words 0 0) 0xFF)
          (get_or words 1 0 / 2 ^ 8) (bit_and (get_or words 1 0) 0xFF) (get_or words 2 0 / 2 ^ 8)
          (bit_and (get_or words 2 0) 0xFF))

-- `uint16(high)<<8 | uint16(low)`
abbrev pub pack : ℕ → ℕ → ℕ
pack high low = bit_or (high % 2 ^ 16 * 2 ^ 8 % 2 ^ 16) (low % 2 ^ 16)

unfoldable pub encode : DateTime → Result ClockError (List ℕ)
encode value = do
  validate value
  ok (
      pack (pos_part value.year - 2000) (pos_part value.month)
      ∷ pack (pos_part value.day) (pos_part value.hour)
      ∷ pack (pos_part value.minute) (pos_part value.second)
      ∷ [])

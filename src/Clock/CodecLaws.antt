-- ===== src/Clock/CodecLaws.antt =====
-- Lemmas about `validate`, `Decode` and `Encode` of internal/inverterclock/clock.go.
use srne_inverter_to_mqtt.Base.{
  ℕ, ◌+◌, ◌-◌, ◌*◌, ◌/◌, ◌%◌, ◌^◌, ◌≤◌, ◌<◌, bit_and, true, List, [], ◌∷◌, length, ok, Result-cases,
  ltb, leb, if◌then◌else◌, arith, ◌≡◌, ◌↔◌, refl, ◌∙◌, sym, ap, ◌⊎◌, inl, inr,
}
use srne_inverter_to_mqtt.Base.Int.{ℤ, pos, negsuc, pos_part, neg_part}
use srne_inverter_to_mqtt.Base.Bits.{bit_or_high_low, bit_and-255}
use srne_inverter_to_mqtt.Clock.Codec.{
  DateTime, days_in, time_date, validate, format_valid, decode, encode, is_ok, date_moved,
  part_out_of_range, pack, decoded_year, raw_value, with_text,
}

-- A date and time of the years 2000 to 2099.
pub record IsDateTime (y mo d h mi s : ℕ) : Type 0 where
  pub year_low : 2000 ≤ y
  pub year_high : y ≤ 2099
  pub month_low : 1 ≤ mo
  pub month_high : mo ≤ 12
  pub day_low : 1 ≤ d
  pub day_high : d ≤ days_in y mo
  pub hour_high : h ≤ 23
  pub minute_high : mi ≤ 59
  pub second_high : s ≤ 59

date_moved-eq : (y m d : ℕ) → date_moved y m d ≡ ltb (days_in y m) d
unfolding date_moved time_date
date_moved-eq y m d = ground arith

days_in-le : (y m : ℕ) → days_in y m ≤ 31
unfolding days_in
days_in-le y m = ground arith

module _ (y mo d h mi s : ℕ) where
  validate-of-IsDateTime : IsDateTime y mo d h mi s → validate (raw_value y mo d h mi s) ≡ ok tt
  unfolding validate part_out_of_range
  validate-of-IsDateTime v = ground (arith, date_moved-eq y mo d, days_in-le y mo)

  IsDateTime-of-validate : validate (raw_value y mo d h mi s) ≡ ok tt → IsDateTime y mo d h mi s
  unfolding validate part_out_of_range
  IsDateTime-of-validate v = ground (arith, date_moved-eq y mo d, days_in-le y mo)

one_part : (z : ℤ) → (pos_part z ≡ 0) ⊎ (neg_part z ≡ 0)
one_part (pos n) = inr refl
one_part (negsuc n) = inl refl

-- A value that `validate` accepts: no part is negative, and the parts are a date and time.
pub record IsCalendar (v : DateTime) : Type 0 where
  pub parts :
      IsDateTime
        (pos_part v.year)
        (pos_part v.month)
        (pos_part v.day)
        (pos_part v.hour)
        (pos_part v.minute)
        (pos_part v.second)
  pub hour_sign : neg_part v.hour ≡ 0
  pub minute_sign : neg_part v.minute ≡ 0
  pub second_sign : neg_part v.second ≡ 0

-- validate accepts exactly the dates and times of the years 2000 to 2099, with month lengths and
-- leap years taken into account, and with no negative part.
pub validate_iff : (v : DateTime) → (validate v ≡ ok tt) ↔ IsCalendar v
unfolding validate part_out_of_range
validate_iff v = (
  (λ e. record {
    parts = ground (arith, date_moved-eq (pos_part v.year) (pos_part v.month) (pos_part v.day));
    hour_sign = ground (arith, one_part v.hour);
    minute_sign = ground (arith, one_part v.minute);
    second_sign = ground (arith, one_part v.second);
  }),
  (λ c. ground (
    arith,
    one_part v.year,
    one_part v.month,
    one_part v.day,
    days_in-le (pos_part v.year) (pos_part v.month),
    date_moved-eq (pos_part v.year) (pos_part v.month) (pos_part v.day),
  )),
)

pack-sum : (high low : ℕ) → high < 2 ^ 8 → low < 2 ^ 8 → pack high low ≡ high * 2 ^ 8 + low
pack-sum high low p q = ground (arith, bit_or_high_low 8 high low q)

-- What `Decode` makes of a date.
abbrev pub stamped : ℕ → ℕ → ℕ → ℕ → ℕ → ℕ → DateTime
stamped y mo d h mi s = record (raw_value y mo d h mi s) {
  valid = true;
  formatted = format_valid y mo d h mi s;
}

high_part : (a b : ℕ) → b < 2 ^ 8 → (a * 2 ^ 8 + b) / 2 ^ 8 ≡ a
high_part a b h = omega arith

low_part : (a b : ℕ) → b < 2 ^ 8 → bit_and (a * 2 ^ 8 + b) 0xFF ≡ b
low_part a b h = omega (arith, bit_and-255 (a * 2 ^ 8 + b))

-- The words of a date and time.
abbrev pub words_of : ℕ → ℕ → ℕ → ℕ → ℕ → ℕ → List ℕ
words_of y mo d h mi s = ((y - 2000) * 2 ^ 8 + mo) ∷ (d * 2 ^ 8 + h) ∷ (mi * 2 ^ 8 + s) ∷ []

decoded_year_lem : (r : ℕ) → decoded_year r ≡ (if leb 100 r then 1900 + r else 2000 + r)
unfolding decoded_year
decoded_year_lem r = refl

module _ (y mo d h mi s : ℕ) (v : IsDateTime y mo d h mi s) where
  pub encode-raw_value : encode (raw_value y mo d h mi s) ≡ ok (words_of y mo d h mi s)
  unfolding encode
  encode-raw_value = rw (
    validate-of-IsDateTime y mo d h mi s v,
    pack-sum (y - 2000) mo (omega arith) (omega arith),
    pack-sum d h (omega (arith, days_in-le y mo)) (omega arith),
    pack-sum mi s (omega arith) (omega arith),
  )

  with_text-date : with_text y mo d h mi s ≡ stamped y mo d h mi s
  unfolding with_text is_ok
  with_text-date = rw (validate-of-IsDateTime y mo d h mi s v)

  year_part : decoded_year (((y - 2000) * 2 ^ 8 + mo) / 2 ^ 8) ≡ y
  unfolding decoded_year
  year_part = ground arith

  pub decode-words_of : decode (words_of y mo d h mi s) ≡ ok (stamped y mo d h mi s)
  unfolding decode
  decode-words_of = rw (
    year_part,
    low_part (y - 2000) mo (omega arith),
    high_part d h (omega arith),
    low_part d h (omega arith),
    high_part mi s (omega arith),
    low_part mi s (omega arith),
    with_text-date,
  )

-- A date and time of the years 2000 to 2099 is encoded to three words, and they decode to the same
-- date and time, marked valid and with its text.
pub clock_decode-encode :
    (y mo d h mi s : ℕ)
    → IsDateTime y mo d h mi s
    → (words : List ℕ) × (encode (raw_value y mo d h mi s) ≡ ok words)
      × (length words ≡ 3)
      × (decode words ≡ ok (stamped y mo d h mi s))
clock_decode-encode y mo d h mi s v = (
  words_of y mo d h mi s,
  encode-raw_value y mo d h mi s v,
  refl,
  decode-words_of y mo d h mi s v,
)

-- The first word of a clock that counts its years from 2000.
abbrev pub since_2000 : ℕ → ℕ
since_2000 w = if leb 100 (w / 2 ^ 8) then w - 100 * 2 ^ 8 else w

whole : (w : ℕ) → w / 2 ^ 8 * 2 ^ 8 + bit_and w 0xFF ≡ w
whole w = omega (arith, bit_and-255 w)

first_word :
    (a : ℕ) {mo d h mi s : ℕ}
    → bit_and a 0xFF ≡ a % 2 ^ 8
    → IsDateTime (decoded_year (a / 2 ^ 8)) mo d h mi s
    → (decoded_year (a / 2 ^ 8) - 2000) * 2 ^ 8 + bit_and a 0xFF ≡ since_2000 a
first_word a low v = ground (arith, decoded_year_lem (a / 2 ^ 8))

module _ (y mo d h mi s : ℕ) where
  with_text-IsDateTime : (with_text y mo d h mi s).valid ≡ true → IsDateTime y mo d h mi s
  unfolding with_text is_ok
  with_text-IsDateTime valid = elim (Result-cases (validate (raw_value y mo d h mi s))) [
    | inl (u, fine) ↦ IsDateTime-of-validate y mo d h mi s fine
    | inr (e, bad) ↦ ground arith
  ]

  encode-with_text :
      IsDateTime y mo d h mi s → encode (with_text y mo d h mi s) ≡ ok (words_of y mo d h mi s)
  encode-with_text v =
      ap encode (with_text-date y mo d h mi s v) ∙ same ∙ encode-raw_value y mo d h mi s v
    where
      same : encode (stamped y mo d h mi s) ≡ encode (raw_value y mo d h mi s)
      same = unfold encode validate part_out_of_range in refl

-- Three words below 65536 that decode to a valid clock are encoded again to the same words, but for
-- the year of a clock that counted from 1900, which is then counted from 2000.
pub clock_encode-decode :
    (a b c : ℕ) (v : DateTime)
    → a < 2 ^ 16
    → b < 2 ^ 16
    → c < 2 ^ 16
    → decode (a ∷ b ∷ c ∷ []) ≡ ok v
    → v.valid ≡ true
    → encode v ≡ ok (since_2000 a ∷ b ∷ c ∷ [])
clock_encode-decode a b c v ha hb hc e valid =
    ap encode (sym read)
    ∙ encode-with_text year month (b / 2 ^ 8) (bit_and b 0xFF) (c / 2 ^ 8) (bit_and c 0xFF) date
    ∙ cc (first_word a (bit_and-255 a) date, whole b, whole c)
  where
    year : ℕ
    year = decoded_year (a / 2 ^ 8)

    month : ℕ
    month = bit_and a 0xFF

    read : with_text year month (b / 2 ^ 8) (bit_and b 0xFF) (c / 2 ^ 8) (bit_and c 0xFF) ≡ v
    read = unfold decode in cc

    date : IsDateTime year month (b / 2 ^ 8) (bit_and b 0xFF) (c / 2 ^ 8) (bit_and c 0xFF)
    date =
        with_text-IsDateTime year month (b / 2 ^ 8) (bit_and b 0xFF) (c / 2 ^ 8) (bit_and c 0xFF)
          (ap (λ (t : DateTime). t.valid) read ∙ valid)

-- ===== src/Base/Numeral.antt =====
-- `strconv.ParseInt(s, 10, 64)`: an optional sign and decimal digits, within int64.
use srne_inverter_to_mqtt.Base.{
  ℕ, ◌+◌, ◌-◌, ◌*◌, ◌^◌, String, ◌&&◌, List, [], ◌∷◌, Option, none, some, ◌==◌, ltb, leb,
  if◌then◌else◌, ◌≡◌, refl,
}
use srne_inverter_to_mqtt.Base.Int.{ℤ, pos, negsuc}
use srne_inverter_to_mqtt.Base.Letters.{codes}

digits_value : ℕ → List ℕ → Option ℕ
digits_value n [] = some n
digits_value n (c ∷ cs) =
    let more = digits_value (n * 10 + (c - b'0')) cs in
    if leb b'0' c && leb c b'9' then more else none

-- At least one digit.
unfoldable pub magnitude : List ℕ → Option ℕ
unfolding digits_value
magnitude [] = none
magnitude (c ∷ cs) = digits_value 0 (c ∷ cs)

positive : Option ℕ → Option ℤ
positive none = none
positive (some n) = if ltb n (2 ^ 63) then some (pos n) else none

negative : Option ℕ → Option ℤ
negative none = none
negative (some n) =
    if n == 0 then some (pos 0) else if leb n (2 ^ 63) then some (negsuc (n - 1)) else none

unfoldable pub signed : List ℕ → Option ℤ
unfolding positive negative
signed [] = none
signed (c ∷ cs) =
    if c == b'-'
    then negative (magnitude cs)
    else if c == b'+'
    then positive (magnitude cs)
    else positive (magnitude (c ∷ cs))

unfoldable pub parse_int : String → Option ℤ
unfolding signed magnitude
parse_int s = signed (codes s)

parse_int_example : parse_int "-12" ≡ some (negsuc 11)
unfolding parse_int
parse_int_example = refl

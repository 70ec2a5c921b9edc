-- ===== src/Base/Text.antt =====
-- Decimal rendering, as `strconv.Itoa` and the verbs `%d`, `%02d` and `%04d` give it.
use Prim.Native.Nat.{ℕ, zero, suc, ◌/◌, ◌%◌, ◌-◌}
use Prim.Native.String.{String, ◌++◌, len}
use mathlib.Core.Path.{◌≡◌, refl}
use mathlib.Core.List.{[], ◌∷◌}
use srne_inverter_to_mqtt.Base.Tests.{ltb, if◌then◌else◌}
use srne_inverter_to_mqtt.Base.Lists.{get_or}
use srne_inverter_to_mqtt.Base.Int.{ℤ, pos, negsuc}

digit : ℕ → String
digit n = get_or ("0" ∷ "1" ∷ "2" ∷ "3" ∷ "4" ∷ "5" ∷ "6" ∷ "7" ∷ "8" ∷ "9" ∷ []) n ""

-- One digit for each turn; `suc n` turns are more than `n` has digits.
decimal_fuel : ℕ → ℕ → String
decimal_fuel zero n = ""
decimal_fuel (suc fuel) n =
    let front = decimal_fuel fuel (n / 10) in if ltb n 10 then digit n else front ++ digit (n % 10)

unfoldable pub decimal : ℕ → String
unfolding decimal_fuel digit
decimal n = decimal_fuel (suc n) n

unfoldable pub decimal_ℤ : ℤ → String
unfolding decimal
decimal_ℤ (pos n) = decimal n
decimal_ℤ (negsuc n) = "-" ++ decimal (suc n)

zeros : ℕ → String
zeros zero = ""
zeros (suc n) = "0" ++ zeros n

-- `%02d` at width 2, `%04d` at width 4.
unfoldable pub zero_padded : ℕ → ℕ → String
unfolding decimal zeros
zero_padded width n = zeros (width - len (decimal n)) ++ decimal n

padded_example : zero_padded 4 7 ++ decimal 120 ≡ "0007120"
unfolding zero_padded
padded_example = refl

-- ===== src/Registers/WordsLaws.antt =====
-- Lemmas about words and bytes, two-word numbers and their signs in internal/registers/catalog.go.
use srne_inverter_to_mqtt.Base.{
  ℕ, ◌+◌, ◌-◌, ◌*◌, ◌/◌, ◌%◌, ◌^◌, ◌≤◌, ◌<◌, String, List, [], ◌∷◌, length, get_or, ok, All, arith,
  ◌≡◌, refl,
}
use srne_inverter_to_mqtt.Base.Bits.{bit_or_high_low}
use srne_inverter_to_mqtt.Base.Int.{ℤ, pos, pos_part, neg_part}
use srne_inverter_to_mqtt.Registers.Types.{
  ValueType, int16, uint32, int32, other_type, WordOrder, high_low, low_high, unset_order,
}
use srne_inverter_to_mqtt.Registers.Words.{
  words_of_bytes, words_from_bytes, join_words32, raw_of_type,
}

abbrev pub IsWord : ℕ → Type 0
IsWord w = w < 2 ^ 16

-- The bytes of words, high byte first: the payload that `WriteHoldingWords` builds.
unfoldable pub bytes_of_words : List ℕ → List ℕ
bytes_of_words [] = []
bytes_of_words (w ∷ ws) = w / 2 ^ 8 % 2 ^ 8 ∷ w % 2 ^ 8 ∷ bytes_of_words ws

pub length-bytes_of_words : (ws : List ℕ) → length (bytes_of_words ws) ≡ 2 * length ws
unfolding bytes_of_words
length-bytes_of_words [] = refl
length-bytes_of_words (w ∷ ws) = omega (arith, length-bytes_of_words ws)

words_of_bytes-bytes_of_words :
    (ws : List ℕ) → All IsWord ws → words_of_bytes (bytes_of_words ws) ≡ ws
unfolding words_of_bytes bytes_of_words
words_of_bytes-bytes_of_words [] h = refl
words_of_bytes-bytes_of_words (w ∷ ws) h = ground (arith, words_of_bytes-bytes_of_words ws h.1)

length-words_of_bytes : (bytes : List ℕ) → length (words_of_bytes bytes) ≡ length bytes / 2
unfolding words_of_bytes
length-words_of_bytes [] = refl
length-words_of_bytes (a ∷ []) = omega arith
length-words_of_bytes (a ∷ b ∷ bytes) = omega (arith, length-words_of_bytes bytes)

-- The payload of a block of words below 65536, high byte first, is read back by WordsFromBytes as
-- those words, if at least as many are there as are expected.
pub words_from_bytes-bytes_of_words :
    (ws : List ℕ) (expected : ℕ)
    → All IsWord ws
    → expected ≤ length ws
    → words_from_bytes (bytes_of_words ws) expected ≡ ok ws
unfolding words_from_bytes
words_from_bytes-bytes_of_words ws expected h enough =
    ground (arith, words_of_bytes-bytes_of_words ws h, length-bytes_of_words ws)

-- A payload that WordsFromBytes accepts has two bytes for every word that it gives, and gives at
-- least as many words as are expected.
pub words_from_bytes-length :
    (bytes words : List ℕ) (expected : ℕ)
    → words_from_bytes bytes expected ≡ ok words
    → (length bytes ≡ 2 * length words) × (expected ≤ length words)
unfolding words_from_bytes
words_from_bytes-length bytes words expected e = ground (arith, length-words_of_bytes bytes)

pub join_words32-sum :
    (first second : ℕ)
    → IsWord first
    → IsWord second
    → (join_words32 first second high_low ≡ first * 2 ^ 16 + second)
      × (join_words32 first second unset_order ≡ first * 2 ^ 16 + second)
      × (join_words32 first second low_high ≡ second * 2 ^ 16 + first)
unfolding join_words32
join_words32-sum first second h k = (
  ground (arith, bit_or_high_low 16 first second k),
  ground (arith, bit_or_high_low 16 first second k),
  ground (arith, bit_or_high_low 16 second first h),
)

-- Two words as one number: the first is the high one unless the order is low word first.
abbrev pub number_of : WordOrder → List ℕ → ℕ
number_of low_high words = get_or words 1 0 * 2 ^ 16 + get_or words 0 0
number_of _ words = get_or words 0 0 * 2 ^ 16 + get_or words 1 0

-- The range of a raw number, and the words that it comes from, by the register's type.
abbrev pub Represents : WordOrder → ValueType → List ℕ → ℤ → Type 0
Represents order int16 words raw =
    (pos_part raw < 2 ^ 15)
    × (neg_part raw ≤ 2 ^ 15)
    × ((pos_part raw + 2 ^ 16 - neg_part raw) % 2 ^ 16 ≡ get_or words 0 0)
Represents order uint32 words raw =
    (neg_part raw ≡ 0) × (pos_part raw < 2 ^ 32) × (pos_part raw ≡ number_of order words)
Represents order int32 words raw =
    (pos_part raw < 2 ^ 31)
    × (neg_part raw ≤ 2 ^ 31)
    × ((pos_part raw + 2 ^ 32 - neg_part raw) % 2 ^ 32 ≡ number_of order words)
Represents order (other_type t) words raw = ⊥
Represents order _ words raw = raw ≡ pos (get_or words 0 0)

join_words32-number :
    (order : WordOrder) (words : List ℕ)
    → IsWord (get_or words 0 0)
    → IsWord (get_or words 1 0)
    → (join_words32 (get_or words 0 0) (get_or words 1 0) order ≡ number_of order words)
      × (number_of order words < 2 ^ 32)
join_words32-number low_high words h k =
    omega (arith, join_words32-sum (get_or words 0 0) (get_or words 1 0) h k)
join_words32-number high_low words h k =
    omega (arith, join_words32-sum (get_or words 0 0) (get_or words 1 0) h k)
join_words32-number unset_order words h k =
    omega (arith, join_words32-sum (get_or words 0 0) (get_or words 1 0) h k)

-- If the first two words of a register are below 65536, a raw number that rawValue gives lies in
-- the range of the register's type and stands for its words, in two's complement for the signed
-- types; of two words the first is the high one, but for the order low word first.
pub raw_of_type-Represents :
    (id : String) (order : WordOrder) (t : ValueType) (words : List ℕ) (raw : ℤ)
    → IsWord (get_or words 0 0)
    → IsWord (get_or words 1 0)
    → raw_of_type id order t words ≡ ok raw
    → Represents order t words raw
unfolding raw_of_type
raw_of_type-Represents id order (other_type t) words raw h k e = cc
raw_of_type-Represents id order t words raw h k e =
    ground (arith, join_words32-number order words h k)

-- ===== src/Rtu/CrcLaws.antt =====
-- Lemmas about `calculateCRC` of internal/modbus/rtu_tcp.go.
use srne_inverter_to_mqtt.Base.{
  ℕ, zero, suc, ◌/◌, ◌^◌, ◌<◌, bit_xor, ◌≡◌, List, [], ◌∷◌, ◌++◌, All, arith,
}
use srne_inverter_to_mqtt.Base.Bits.{
  bit_and-one, bit_xor-lt, bit_xor_high, bit_xor_cancel_left, bit_xor_cancel_right,
}
use srne_inverter_to_mqtt.Rtu.Crc.{crc_shift, crc_rounds, crc_from, calculate_crc}

abbrev pub IsByte : ℕ → Type 0
IsByte b = b < 256

pub crc_shift-lt : (crc : ℕ) → crc < 2 ^ 16 → crc_shift crc < 2 ^ 16
unfolding crc_shift
crc_shift-lt crc h = ground (arith, bit_xor-lt 16 (crc / 2) 0xA001)

crc_rounds-lt : (n crc : ℕ) → crc < 2 ^ 16 → crc_rounds n crc < 2 ^ 16
unfolding crc_rounds
crc_rounds-lt zero crc h = h
crc_rounds-lt (suc n) crc h = crc_rounds-lt n (crc_shift crc) (crc_shift-lt crc h)

crc_byte-lt : (crc b : ℕ) → crc < 2 ^ 16 → IsByte b → crc_rounds 8 (bit_xor crc b) < 2 ^ 16
crc_byte-lt crc b h hb = crc_rounds-lt 8 _ (bit_xor-lt 16 crc b h (omega arith))

pub crc_from-lt : (crc : ℕ) (bs : List ℕ) → crc < 2 ^ 16 → All IsByte bs → crc_from crc bs < 2 ^ 16
unfolding crc_from
crc_from-lt crc [] h hs = h
crc_from-lt crc (b ∷ bs) h hs =
    crc_from-lt (crc_rounds 8 (bit_xor crc b)) bs (crc_byte-lt crc b h hs.0) hs.1

pub calculate_crc-lt : (bs : List ℕ) → All IsByte bs → calculate_crc bs < 2 ^ 16
unfolding calculate_crc
calculate_crc-lt bs h = crc_from-lt 0xFFFF bs (omega arith) h

-- The shift that mixes the polynomial in sets the top bit, the other leaves it clear.
crc_shift_injective : (a b : ℕ) → a < 2 ^ 16 → b < 2 ^ 16 → crc_shift a ≡ crc_shift b → a ≡ b
unfolding crc_shift
crc_shift_injective a b ha hb e = ground (
  arith,
  bit_and-one a,
  bit_and-one b,
  bit_xor_high 15 (a / 2) 0xA001,
  bit_xor_high 15 (b / 2) 0xA001,
  bit_xor_cancel_right (a / 2) (b / 2) 0xA001,
)

crc_rounds_injective :
    (n a b : ℕ) → a < 2 ^ 16 → b < 2 ^ 16 → crc_rounds n a ≡ crc_rounds n b → a ≡ b
unfolding crc_rounds
crc_rounds_injective zero a b ha hb e = e
crc_rounds_injective (suc n) a b ha hb e =
    crc_shift_injective a b ha hb
      (crc_rounds_injective n (crc_shift a) (crc_shift b) (crc_shift-lt a ha) (crc_shift-lt b hb) e)

crc_byte_injective :
    (a b x : ℕ)
    → a < 2 ^ 16
    → b < 2 ^ 16
    → IsByte x
    → crc_rounds 8 (bit_xor a x) ≡ crc_rounds 8 (bit_xor b x)
    → a ≡ b
crc_byte_injective a b x ha hb hx e = bit_xor_cancel_right a b x (
    crc_rounds_injective 8 _ _ (bit_xor-lt 16 a x ha (omega arith))
      (bit_xor-lt 16 b x hb (omega arith)) e)

-- Equal bytes lead equal CRCs back to equal starts.
crc_from_injective :
    (a b : ℕ) (bs : List ℕ)
    → a < 2 ^ 16
    → b < 2 ^ 16
    → All IsByte bs
    → crc_from a bs ≡ crc_from b bs
    → a ≡ b
unfolding crc_from
crc_from_injective a b [] ha hb hs e = e
crc_from_injective a b (x ∷ bs) ha hb hs e = crc_byte_injective a b x ha hb hs.0 (
    crc_from_injective (crc_rounds 8 (bit_xor a x)) (crc_rounds 8 (bit_xor b x)) bs
      (crc_byte-lt a x ha hs.0) (crc_byte-lt b x hb hs.0) hs.1 e)

crc_from-ne :
    (crc x y : ℕ) (pre post : List ℕ)
    → crc < 2 ^ 16
    → All IsByte pre
    → All IsByte post
    → IsByte x
    → IsByte y
    → crc_from crc (pre ++ x ∷ post) ≡ crc_from crc (pre ++ y ∷ post)
    → x ≡ y
unfolding crc_from
crc_from-ne crc x y [] post h hp hq hx hy e = bit_xor_cancel_left x y crc (
    crc_rounds_injective 8 _ _ (bit_xor-lt 16 crc x h (omega arith))
      (bit_xor-lt 16 crc y h (omega arith))
      (crc_from_injective _ _ post (crc_byte-lt crc x h hx) (crc_byte-lt crc y h hy) hq e))
crc_from-ne crc x y (p ∷ pre) post h hp hq hx hy e =
    crc_from-ne (crc_rounds 8 (bit_xor crc p)) x y pre post (crc_byte-lt crc p h hp.0) hp.1 hq hx hy
      e

-- Two messages that differ in one byte have different CRCs.
pub calculate_crc_one_byte :
    (pre post : List ℕ) (x y : ℕ)
    → All IsByte pre
    → All IsByte post
    → IsByte x
    → IsByte y
    → calculate_crc (pre ++ x ∷ post) ≡ calculate_crc (pre ++ y ∷ post)
    → x ≡ y
unfolding calculate_crc
calculate_crc_one_byte pre post x y = crc_from-ne 0xFFFF x y pre post (omega arith)

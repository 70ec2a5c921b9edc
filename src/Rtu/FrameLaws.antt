-- ===== src/Rtu/FrameLaws.antt =====
-- Lemmas about `Encode`, `Verify` and `Decode` of internal/modbus/rtu_tcp.go.
use srne_inverter_to_mqtt.Base.{
  ℕ, suc, ◌+◌, ◌-◌, ◌*◌, ◌/◌, ◌%◌, ◌^◌, ◌≤◌, ◌<◌, ◌≡◌, ◌≢◌, refl, ap, ◌∙◌, List, [], ◌∷◌, ◌++◌,
  length, get_or, take, drop, length-append, take-length-append, All, ok, err, arith, ◌==◌,
  if◌then◌else◌,
}
use srne_inverter_to_mqtt.Base.Bits.{bit_or_low_high}
use srne_inverter_to_mqtt.Rtu.Crc.{calculate_crc}
use srne_inverter_to_mqtt.Rtu.CrcLaws.{IsByte, calculate_crc-lt, calculate_crc_one_byte}
use srne_inverter_to_mqtt.Rtu.Frame.{
  ProtocolDataUnit, frame_too_long, crc_mismatch, crc_bytes, append_crc, frame_crc, encode, verify,
  decode,
}

get_or-append : (xs ys : List ℕ) (i d : ℕ) → get_or (xs ++ ys) (length xs + i) d ≡ get_or ys i d
get_or-append [] ys i d = ap (λ (t : ℕ). get_or ys t d) (omega arith)
get_or-append (x ∷ xs) ys i d =
    ap (λ (t : ℕ). get_or (x ∷ xs ++ ys) t d) suc_first ∙ get_or-append xs ys i d
  where
    suc_first : suc (length xs) + i ≡ suc (length xs + i)
    suc_first = omega arith

-- The frame whose checked part is `checked` and whose last two bytes hold `crc`.
abbrev pub sealed : List ℕ → ℕ → List ℕ
sealed checked crc = checked ++ crc_bytes crc

length-sealed : (checked : List ℕ) (crc : ℕ) → length (sealed checked crc) ≡ length checked + 2
length-sealed checked crc = omega (arith, length-append checked (crc_bytes crc))

sealed-checked : (xs : List ℕ) (crc : ℕ) → take (length (sealed xs crc) - 2) (sealed xs crc) ≡ xs
sealed-checked xs crc =
    ap (λ (t : ℕ). take t (sealed xs crc)) (omega (arith, length-sealed xs crc))
    ∙ take-length-append xs (crc_bytes crc)

frame_crc-sealed : (xs : List ℕ) (crc : ℕ) → crc < 2 ^ 16 → frame_crc (sealed xs crc) ≡ crc
unfolding frame_crc
frame_crc-sealed xs crc h =
    rw (first, second) (omega (arith, bit_or_low_high 8 (crc % 2 ^ 8) (crc / 2 ^ 8) (omega arith)))
  where
    first : get_or (sealed xs crc) (length (sealed xs crc) - 2) 0 ≡ crc % 2 ^ 8
    first =
        ap (λ (t : ℕ). get_or (sealed xs crc) t 0) (omega (arith, length-sealed xs crc))
        ∙ get_or-append xs (crc_bytes crc) 0 0

    second :
        get_or (sealed xs crc) (length (sealed xs crc) - 1) 0 * 2 ^ 8 % 2 ^ 16 ≡ crc / 2 ^ 8 * 2 ^ 8
    second =
        ap (λ (t : ℕ). get_or (sealed xs crc) t 0 * 2 ^ 8 % 2 ^ 16) {x = length (sealed xs crc) - 1}
          {y = length xs + 1} (omega (arith, length-sealed xs crc))
        ∙ ap (λ (t : ℕ). t * 2 ^ 8 % 2 ^ 16) (get_or-append xs (crc_bytes crc) 1 0)
        ∙ omega arith

sealed-body :
    (slave code : ℕ) (body : List ℕ) (crc : ℕ)
    → take
        (length (sealed (slave ∷ code ∷ body) crc) - 4)
        (drop 2 (sealed (slave ∷ code ∷ body) crc))
      ≡ body
sealed-body slave code body crc =
    ap (λ (t : ℕ). take t (body ++ crc_bytes crc))
      {x = length (sealed (slave ∷ code ∷ body) crc) - 4} {y = length body}
      (omega (arith, length-sealed body crc))
    ∙ take-length-append body (crc_bytes crc)

-- What `Decode` returns for a frame with any CRC bytes, right or wrong.
decode-sealed :
    (slave code : ℕ) (body : List ℕ) (crc : ℕ)
    → crc < 2 ^ 16
    → decode (sealed (slave ∷ code ∷ body) crc) ≡ (
        if crc == calculate_crc (slave ∷ code ∷ body)
        then ok (record { function_code = code; body = body })
        else err (crc_mismatch crc (calculate_crc (slave ∷ code ∷ body))))
unfolding decode
decode-sealed slave code body crc h = ground (
  arith,
  length-sealed body crc,
  frame_crc-sealed (slave ∷ code ∷ body) crc h,
  sealed-checked (slave ∷ code ∷ body) crc,
  sealed-body slave code body crc,
)

encode-eq-sealed :
    (slave : ℕ) (pdu : ProtocolDataUnit)
    → length pdu.body ≤ 252
    → encode slave pdu
      ≡ ok (
          sealed
            (slave ∷ pdu.function_code ∷ pdu.body)
            (calculate_crc (slave ∷ pdu.function_code ∷ pdu.body)))
unfolding encode append_crc
encode-eq-sealed slave pdu h =
    ground (arith, sealed-checked (slave ∷ pdu.function_code ∷ pdu.body) 0)

decode_wrong_crc :
    (checked : List ℕ) (crc : ℕ)
    → 2 ≤ length checked
    → crc < 2 ^ 16
    → crc ≢ calculate_crc checked
    → decode (sealed checked crc) ≡ err (crc_mismatch crc (calculate_crc checked))
decode_wrong_crc [] crc h fits wrong = absurd (omega arith)
decode_wrong_crc (a ∷ []) crc h fits wrong = absurd (omega arith)
decode_wrong_crc (a ∷ b ∷ body) crc h fits wrong = ground (arith, decode-sealed a b body crc fits)

All-append : (xs ys : List ℕ) → All IsByte xs → All IsByte ys → All IsByte (xs ++ ys)
All-append [] ys h k = k
All-append (x ∷ xs) ys h k = (h.0, All-append xs ys h.1 k)

-- A PDU of bytes with at most 252 of them in its body is encoded to a frame of four bytes more that
-- begins with the slave's id, that Verify accepts as the response to itself, and that decodes to
-- the PDU.
pub frame_decode-encode :
    (slave : ℕ) (pdu : ProtocolDataUnit)
    → IsByte slave
    → IsByte pdu.function_code
    → All IsByte pdu.body
    → length pdu.body ≤ 252
    → (frame : List ℕ) × (encode slave pdu ≡ ok frame)
      × (length frame ≡ length pdu.body + 4)
      × (get_or frame 0 0 ≡ slave)
      × (verify frame frame ≡ ok tt)
      × (decode frame ≡ ok pdu)
unfolding verify
frame_decode-encode slave pdu hs hc hb fits =
    let crc = calculate_crc (slave ∷ pdu.function_code ∷ pdu.body) in
    let small : crc < 2 ^ 16 =
      calculate_crc-lt (slave ∷ pdu.function_code ∷ pdu.body) (hs, (hc, hb)) in
    (
      sealed (slave ∷ pdu.function_code ∷ pdu.body) crc,
      encode-eq-sealed slave pdu fits,
      omega (arith, length-sealed pdu.body crc),
      refl,
      ground (arith, length-sealed pdu.body crc),
      ground (arith, decode-sealed slave pdu.function_code pdu.body crc small),
    )

-- Encode refuses a PDU with more than 252 bytes in its body, with the length that the frame would
-- have had.
pub encode_too_long :
    (slave : ℕ) (pdu : ProtocolDataUnit)
    → 252 < length pdu.body
    → encode slave pdu ≡ err (frame_too_long (length pdu.body + 4))
unfolding encode
encode_too_long slave pdu h = ground arith

-- A frame of bytes, at least two of them before the CRC, of which one byte before the CRC was
-- changed to another is refused by Decode, wherever the byte stands, with both CRCs in the error.
pub decode_damaged :
    (pre post : List ℕ) (x y : ℕ)
    → All IsByte pre
    → All IsByte post
    → IsByte x
    → IsByte y
    → x ≢ y
    → 1 ≤ length pre + length post
    → decode (sealed (pre ++ y ∷ post) (calculate_crc (pre ++ x ∷ post)))
      ≡ err (crc_mismatch (calculate_crc (pre ++ x ∷ post)) (calculate_crc (pre ++ y ∷ post)))
decode_damaged pre post x y hp hq hx hy ne h =
    decode_wrong_crc (pre ++ y ∷ post) (calculate_crc (pre ++ x ∷ post))
      (omega (arith, length-append pre (y ∷ post)))
      (calculate_crc-lt (pre ++ x ∷ post) (All-append pre (x ∷ post) hp (hx, hq)))
      (λ e. ne (calculate_crc_one_byte pre post x y hp hq hx hy e))

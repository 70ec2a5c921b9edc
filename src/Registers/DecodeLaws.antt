-- ===== src/Registers/DecodeLaws.antt =====
-- Inversions of `Decode` and `EncodeWrite` of internal/registers/catalog.go.
use srne_inverter_to_mqtt.Base.{
  ℕ, not, false, List, length, take, Result, ok, ltb, ◌==◌, guard, bind-ok, ◌≡◌, sym, ap, ◌∙◌,
  arith,
}
use srne_inverter_to_mqtt.Base.Float.{Float64}
use srne_inverter_to_mqtt.Registers.Types.{Register, DecodedValue, Value}
use srne_inverter_to_mqtt.Registers.Words.{
  too_few_words, not_writable, single_register_only, raw_value,
}
use srne_inverter_to_mqtt.Registers.Decode.{decode, value_of}
use srne_inverter_to_mqtt.Registers.Write.{encode_write}

is_one : (n : ℕ) → not (n == 1) ≡ false → n ≡ 1
is_one n h = ground arith

result_of : {E A : Type 0} {x y : A} → ◌≡◌ {A = Result E A} (ok x) (ok y) → x ≡ y
result_of h = cc

module _ {Num : Type 0} (fl : Float64 Num) where
  pub decode-raw :
      (reg : Register Num) (words : List ℕ) (now : ℕ) (decoded : DecodedValue Num)
      → decode fl reg words now ≡ ok decoded
      → (ltb (length words) reg.count ≡ false)
        × (raw_value reg (take reg.count words) ≡ ok decoded.raw)
        × (decoded.id ≡ reg.id)
        × (decoded.updated_at ≡ now)
  unfolding decode
  decode-raw reg words now decoded h =
      let (short, h1) =
        guard (ltb (length words) reg.count) (too_few_words reg.id reg.count (length words)) _ _
          h in
      let (raw, found, h2) = bind-ok (raw_value reg (take reg.count words)) _ _ h1 in
      let (shown, text, h3) =
        bind-ok (value_of fl reg.value_type reg (take reg.count words) raw) _ _ h2 in
      (
        short,
        found ∙ ap ok (ap (λ (d : DecodedValue Num). d.raw) (result_of h3)),
        sym (ap (λ (d : DecodedValue Num). d.id) (result_of h3)),
        sym (ap (λ (d : DecodedValue Num). d.updated_at) (result_of h3)),
      )

  pub encode_write-count :
      (reg : Register Num) (value : Value Num) (n : ℕ)
      → encode_write fl reg value ≡ ok n
      → reg.count ≡ 1
  unfolding encode_write
  encode_write-count reg value n h =
      let (writable, h1) = guard (not reg.writable) (not_writable reg.id) _ _ h in
      let (single, h2) = guard (not (reg.count == 1)) (single_register_only reg.id) _ _ h1 in
      is_one reg.count single

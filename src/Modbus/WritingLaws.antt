-- ===== src/Modbus/WritingLaws.antt =====
-- Lemmas about `WriteRegister` of internal/modbus/service.go on a device that holds words.
use srne_inverter_to_mqtt.Base.{
  ℕ, ◌≤◌, String, true, not, some, List, [], ◌∷◌, length, take, Result, ok, err, ◌≡◌, refl, ap, ◌∙◌,
  if_cases, arith, Result-cases, inl, inr,
}
use srne_inverter_to_mqtt.Base.Int.{ℤ, pos, eqb_ℤ}
use srne_inverter_to_mqtt.Base.Float.{Float64}
use srne_inverter_to_mqtt.Config.Types.{Config}
use srne_inverter_to_mqtt.Registers.Types.{Register, DecodedValue, ValueType, WordOrder}
use srne_inverter_to_mqtt.Registers.Words.{words_of_bytes, words_from_bytes, raw_of_type, raw_value}
use srne_inverter_to_mqtt.Registers.Decode.{decode}
use srne_inverter_to_mqtt.Registers.DecodeLaws.{decode-raw}
use package.text.Mathlib.TextEquality.{eq_iff}
use srne_inverter_to_mqtt.Store.Values.{lookup_value}
use srne_inverter_to_mqtt.Store.ValueLaws.{lookup-upsert_telemetry, last_with_id}
use srne_inverter_to_mqtt.Modbus.Types.{BusError, Link}
use srne_inverter_to_mqtt.Modbus.Service.{Service, upserting, report_status, decode_payload}
use srne_inverter_to_mqtt.Modbus.Writing.{confirm, confirm_decoded}
use srne_inverter_to_mqtt.Modbus.Blocks.{HoldsWords}
use srne_inverter_to_mqtt.Modbus.BlockLaws.{words_from_bytes-ok}

raw_of_one_word :
    (id : String) (order : WordOrder) (t : ValueType) (w n : ℕ)
    → raw_of_type id order t (w ∷ []) ≡ ok (pos n)
    → w ≡ n
unfolding raw_of_type
raw_of_one_word id order t w n h = ground arith

eqb_ℤ-pos : (z : ℤ) (n : ℕ) → eqb_ℤ z (pos n) ≡ true → z ≡ pos n
eqb_ℤ-pos z n h = ground arith

module _ {S C E Num : Type 0} (link : Link S C E) (fl : Float64 Num) (format_time : ℕ → String)
    (cfg : Config Num) (holds : HoldsWords link) where
  abbrev pub words_at : Register Num → Service S C Num → List ℕ
  words_at reg service = holds.block service.bus.outside reg.address reg.count

  -- The device holds the word in the register, and the store has a value of it with that number.
  pub record IsConfirmed (reg : Register Num) (encoded : ℕ) (service : Service S C Num)
      : Type 0 where
    pub device : words_at reg service ≡ encoded ∷ []
    pub value : DecodedValue Num
    pub stored : lookup_value service.store.values reg.id ≡ some value
    pub raw : value.raw ≡ pos encoded

  abbrev pub Outcome : Type 0
  Outcome = Result (BusError E) (Unit {0}) × Service S C Num

  -- An outcome that, if it is a success, is a confirmed one.
  abbrev pub Confirms : Register Num → ℕ → Outcome → Type 0
  Confirms reg encoded r = r.0 ≡ ok tt → IsConfirmed reg encoded r.1

  -- A value of the register, which has the number only if the words are that number.
  abbrev pub Reports : Register Num → ℕ → List ℕ → DecodedValue Num → Type 0
  Reports reg encoded words d = (d.id ≡ reg.id) × (d.raw ≡ pos encoded → words ≡ encoded ∷ [])

  lookup-upserted :
      (reg : Register Num) (d : DecodedValue Num) (service : Service S C Num)
      → d.id ≡ reg.id
      → lookup_value (upserting link fl format_time cfg (d ∷ []) service).store.values reg.id
        ≡ some d
  unfolding last_with_id
  lookup-upserted reg d service e =
      lookup-upsert_telemetry fl (d ∷ []) service.store reg.id ∙ rw ((eq_iff d.id reg.id).1 e) refl

  confirm-Confirms :
      (reg : Register Num) (encoded now : ℕ) (d : DecodedValue Num) (service : Service S C Num)
      → Reports reg encoded (words_at reg service) d
      → Confirms reg encoded (confirm link fl format_time cfg reg encoded now d service)
  unfolding confirm report_status
  confirm-Confirms reg encoded now d service reports =
      if_cases (Confirms reg encoded) (not (eqb_ℤ d.raw (pos encoded))) (λ other h. absurd cc)
        λ same h.
          let e : d.raw ≡ pos encoded = eqb_ℤ-pos d.raw encoded (ground arith) in
          record {
            device = holds.now_keeps _ _ _ ∙ reports.1 e;
            value = d;
            stored = lookup-upserted reg d service reports.0;
            raw = e;
          }

  pub confirm_decoded-Confirms :
      (reg : Register Num) (encoded now : ℕ) (r : Result (BusError E) (DecodedValue Num))
      (service : Service S C Num)
      → ((d : DecodedValue Num) → r ≡ ok d → Reports reg encoded (words_at reg service) d)
      → Confirms reg encoded (confirm_decoded link fl format_time cfg reg encoded now r service)
  unfolding confirm_decoded
  confirm_decoded-Confirms reg encoded now (err e) service reports h = absurd cc
  confirm_decoded-Confirms reg encoded now (ok d) service reports h =
      confirm-Confirms reg encoded now d service (reports d refl) h

  first_word :
      (reg : Register Num) (encoded : ℕ) (words : List ℕ) (raw : ℤ)
      → reg.count ≡ 1
      → 1 ≤ length words
      → raw_value reg (take reg.count (take reg.count words)) ≡ ok raw
      → raw ≡ pos encoded
      → take reg.count words ≡ encoded ∷ []
  unfolding raw_value
  first_word reg encoded [] raw one h found e = absurd (omega arith)
  first_word reg encoded (w ∷ ws) raw one h found e =
      rw (one, take)
        (ap (λ (n : ℕ). n ∷ [])
          (raw_of_one_word reg.id reg.word_order reg.value_type w encoded
            (rw (one, take) at (found ∙ ap ok e))))

  pub decode_payload-Reports :
      (reg : Register Num) (encoded now : ℕ) (bytes : List ℕ) (d : DecodedValue Num)
      → reg.count ≡ 1
      → decode_payload link fl format_time cfg reg bytes now ≡ ok d
      → Reports reg encoded (take reg.count (words_of_bytes bytes)) d
  unfolding decode_payload
  decode_payload-Reports reg encoded now bytes d one h =
      elim (Result-cases (words_from_bytes bytes reg.count)) [
        | inr (e, short) ↦ ground arith
        | inl (words, found) ↦ elim (Result-cases (decode fl reg (take reg.count words) now)) [
          | inr (e, bad) ↦ ground arith
          | inl (got, decoded) ↦
              let same : got ≡ d = ground arith in
              let facts = decode-raw fl reg (take reg.count words) now d (decoded ∙ ap ok same) in
              let parts = words_from_bytes-ok bytes words reg.count found in
              (
                facts.2,
                λ e.
                    rw (← parts.0) (first_word reg encoded words d.raw one (omega arith) facts.1 e),
              )
        ]
      ]

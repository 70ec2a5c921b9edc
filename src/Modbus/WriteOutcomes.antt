-- ===== src/Modbus/WriteOutcomes.antt =====
-- Lemmas about the outcomes of `WriteRegister` of internal/modbus/service.go on a device that holds
-- words.
use srne_inverter_to_mqtt.Base.{
  ℕ, String, Bool, true, false, not, List, [], ◌∷◌, take, Result, ok, err, ◌≡◌, refl, sym, ◌∙◌,
  if_cases, Result-cases, inl, inr,
}
use srne_inverter_to_mqtt.Base.Letters.{is_empty}
use srne_inverter_to_mqtt.Base.Float.{Float64}
use srne_inverter_to_mqtt.Config.Types.{Config}
use srne_inverter_to_mqtt.Registers.Types.{Register, Value}
use srne_inverter_to_mqtt.Registers.Words.{words_of_bytes}
use srne_inverter_to_mqtt.Registers.Decode.{decode}
use srne_inverter_to_mqtt.Registers.Write.{encode_write}
use srne_inverter_to_mqtt.Registers.DecodeLaws.{encode_write-count}
use srne_inverter_to_mqtt.Modbus.Types.{BusError, call_failed, Link}
use srne_inverter_to_mqtt.Modbus.Service.{Service, ◌>>=◌, upserting, moment, lookup_register}
use srne_inverter_to_mqtt.Modbus.Thresholds.{validate_write}
use srne_inverter_to_mqtt.Modbus.Writing.{
  read_back, after_write, after_verification, settle_write, send_register, encode_and_send,
  with_client, write_found, write_register,
}
use srne_inverter_to_mqtt.Modbus.Blocks.{
  HoldsWords, read_holding_with_retry-block, read_holding_with_retry-words,
}
use srne_inverter_to_mqtt.Modbus.WritingLaws.{
  words_at, IsConfirmed, Outcome, Confirms, confirm_decoded-Confirms, decode_payload-Reports,
}

module _ {S C E Num : Type 0} (link : Link S C E) (fl : Float64 Num) (format_time : ℕ → String)
    (cfg : Config Num) (holds : HoldsWords link) where
  abbrev Confirmed : Register Num → ℕ → Outcome link fl format_time cfg holds → Type 0
  Confirmed = Confirms link fl format_time cfg holds

  abbrev words_in : Register Num → Service S C Num → List ℕ
  words_in = words_at link fl format_time cfg holds

  read_back-Confirms :
      (reg : Register Num) (encoded now : ℕ) (r : Result (BusError E) (List ℕ) × Service S C Num)
      → reg.count ≡ 1
      → ((bytes : List ℕ)
          → r.0 ≡ ok bytes
          → take reg.count (words_of_bytes bytes) ≡ words_in reg r.1)
      → Confirmed reg encoded (read_back link fl format_time cfg reg encoded now r)
  unfolding read_back
  read_back-Confirms reg encoded now (err e, service) one read h = absurd cc
  read_back-Confirms reg encoded now (ok bytes, service) one read h =
      confirm_decoded-Confirms link fl format_time cfg holds reg encoded now _ service
        (λ d found.
          rw (← read bytes refl) (
            decode_payload-Reports link fl format_time cfg holds reg encoded now bytes d one found))
        h

  after_write-Confirms :
      (reg : Register Num) (encoded : ℕ) (client : C) (service : Service S C Num)
      → reg.count ≡ 1
      → reg.write_only ≡ false
      → Confirmed reg encoded (after_write link fl format_time cfg reg encoded client service)
  unfolding after_write
  after_write-Confirms reg encoded client service one readable =
      if_cases (Confirmed reg encoded) reg.write_only (λ hidden h. absurd cc)
        λ _.
          elim (Result-cases
            (decode fl reg (encoded ∷ []) (moment link fl format_time cfg service).0)) [
              | inr (e, bad) ↦ rw bad (λ h. absurd cc)
              | inl (optimistic, found) ↦
                  let stored =
                    upserting link fl format_time cfg (optimistic ∷ [])
                      (moment link fl format_time cfg service).1 in
                  rw found (
                    read_back-Confirms reg encoded _ _ one (λ bytes read.
                      read_holding_with_retry-words link cfg holds reg.address reg.count client
                        stored.bus bytes read
                      ∙ sym (
                          read_holding_with_retry-block link cfg holds reg.address reg.count client
                            stored.bus)))
            ]

  after_verification-Confirms :
      (reg : Register Num) (encoded : ℕ) (client : C) (e : BusError E)
      (r : Result (BusError E) Bool × Service S C Num)
      → reg.count ≡ 1
      → reg.write_only ≡ false
      → Confirmed reg encoded (after_verification link fl format_time cfg reg encoded client e r)
  unfolding after_verification
  after_verification-Confirms reg encoded client e (ok true, service) one readable h =
      after_write-Confirms reg encoded client service one readable h
  after_verification-Confirms reg encoded client e (ok false, service) one readable h = absurd cc
  after_verification-Confirms reg encoded client e (err x, service) one readable h = absurd cc

  settle_write-Confirms :
      (reg : Register Num) (encoded : ℕ) (client : C) (r : Result E (List ℕ) × Service S C Num)
      → reg.count ≡ 1
      → reg.write_only ≡ false
      → Confirmed reg encoded (settle_write link fl format_time cfg reg encoded client r)
  unfolding settle_write
  settle_write-Confirms reg encoded client (ok _, service) one readable =
      after_write-Confirms reg encoded client service one readable
  settle_write-Confirms reg encoded client (err x, service) one readable =
      if_cases (Confirmed reg encoded) reg.write_only (λ hidden h. absurd cc)
        (λ _. after_verification-Confirms reg encoded client (call_failed x) _ one readable)

  -- A chain whose first step fails has no value.
  chained :
      {A : Type 0} (reg : Register Num) (encoded : ℕ) (r : Result (BusError E) A × Service S C Num)
      (next : A → Service S C Num → Outcome link fl format_time cfg holds)
      → ((a : A) (s : Service S C Num) → Confirmed reg encoded (next a s))
      → Confirmed reg encoded (r >>= next)
  chained reg encoded (ok a, s) next k h = k a s h
  chained reg encoded (err e, s) next k h = absurd cc

  -- The register was written with the encoding of the value, and that is confirmed.
  pub record IsWritten (reg : Register Num) (value : Value Num) (service : Service S C Num)
      : Type 0 where
    pub encoded : ℕ
    pub encoding : encode_write fl reg value ≡ ok encoded
    pub confirmed : IsConfirmed link fl format_time cfg holds reg encoded service

  abbrev Writes : Register Num → Value Num → Outcome link fl format_time cfg holds → Type 0
  Writes reg value r = r.0 ≡ ok tt → IsWritten reg value r.1

  encode_and_send-Writes :
      (reg : Register Num) (value : Value Num) (client : C) (service : Service S C Num)
      → reg.write_only ≡ false
      → Writes reg value (encode_and_send link fl format_time cfg reg value client service)
  unfolding encode_and_send send_register
  encode_and_send-Writes reg value client service readable =
      elim (Result-cases (encode_write fl reg value)) [
        | inr (e, refused) ↦ rw (refused, encode_and_send) (λ h. absurd cc)
        | inl (encoded, found) ↦
            rw (found, encode_and_send)
              (λ h. record {
                encoded = encoded;
                encoding = found;
                confirmed =
                    chained reg encoded (validate_write link fl format_time cfg reg encoded service)
                      _
                      (λ _ s.
                        settle_write-Confirms reg encoded client _
                          (encode_write-count fl reg value encoded found) readable)
                      h;
              })
      ]

  with_client-Writes :
      (reg : Register Num) (value : Value Num) (r : Result (BusError E) C × Service S C Num)
      → reg.write_only ≡ false
      → Writes reg value (with_client link fl format_time cfg reg value r)
  unfolding with_client
  with_client-Writes reg value (err e, service) readable h = absurd cc
  with_client-Writes reg value (ok client, service) readable h =
      encode_and_send-Writes reg value client service readable h

  write_found-Writes :
      (reg : Register Num) (id : String) (value : Value Num) (service : Service S C Num)
      → reg.write_only ≡ false
      → Writes reg value (write_found link fl format_time cfg reg id value service)
  unfolding write_found
  write_found-Writes reg id value service readable =
      if_cases (Writes reg value) (not reg.writable) (λ fixed h. absurd cc)
        λ writable.
          if_cases (Writes reg value) (is_empty cfg.serial.port) (λ no_port h. absurd cc)
            (λ port. with_client-Writes reg value _ readable)

  -- For a device whose registers only writes change and a register that the catalog knows and that
  -- can be read, WriteRegister reports success only if the value was encoded, the device then holds
  -- that word in the register, and the store has a value of the register with that raw number.
  pub write_register-IsWritten :
      (id : String) (value : Value Num) (service : Service S C Num) (reg : Register Num)
      → lookup_register link fl format_time cfg id ≡ ok reg
      → reg.write_only ≡ false
      → (write_register link fl format_time cfg id value service).0 ≡ ok tt
      → IsWritten reg value (write_register link fl format_time cfg id value service).1
  unfolding write_register
  write_register-IsWritten id value service reg known readable =
      rw (known, write_register) (write_found-Writes reg id value service readable)

-- ===== src/Clock/Device.antt =====
-- internal/inverterclock/clock.go: `Service.Read` and `Service.Set` over a word accessor.
use srne_inverter_to_mqtt.Base.{ℕ, ◌≡◌, List, Result, ok, err, length}
use srne_inverter_to_mqtt.Clock.Codec.{
  DateTime, ClockError, date_time_address, date_time_words, decode, encode,
}

-- The interface `WordAccessor`, over a device with states `S`; a call may fail with an error `E`.
pub record WordAccessor (S E : Type 0) : Type 0 where
  pub read_holding_words : ℕ → ℕ → S → Result E (List ℕ) × S
  pub write_holding_words : ℕ → List ℕ → S → Result E (Unit {0}) × S

-- After a write that reported success, a read of the same registers that succeeds returns the
-- words that were written.
pub record KeepsWords {S E : Type 0} (accessor : WordAccessor S E) : Type 0 where
  pub read_back :
      (address : ℕ) (words got : List ℕ) (s : S)
      → (accessor.write_holding_words address words s).0 ≡ ok tt
      → (accessor.read_holding_words address
          (length words)
          (accessor.write_holding_words address words s).1).0
        ≡ ok got
      → got ≡ words

-- The error of a method is the accessor's or the codec's.
pub data ClockFailure (E : Type 0) : Type 0 where
  access : E → ClockFailure E
  codec : ClockError → ClockFailure E

unfoldable pub lift_codec : {E A : Type 0} → Result ClockError A → Result (ClockFailure E) A
lift_codec (ok a) = ok a
lift_codec (err e) = err (codec e)

module _ {S E : Type 0} (accessor : WordAccessor S E) where
  unfoldable pub read : S → Result (ClockFailure E) DateTime × S
  read s =
      let (r, s') = accessor.read_holding_words date_time_address date_time_words s in
      elim r [ ok words ↦ (lift_codec (decode words), s') | err e ↦ (err (access e), s') ]

  unfoldable pub set_clock : DateTime → S → Result (ClockFailure E) DateTime × S
  set_clock value s = elim (encode value) [
    | err e ↦ (err (codec e), s)
    | ok words ↦
        let (r, s') = accessor.write_holding_words date_time_address words s in
        elim r [ err e ↦ (err (access e), s') | ok u ↦ read s' ]
  ]

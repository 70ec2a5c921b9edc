-- ===== src/Modbus/ThresholdLaws.antt =====
-- Lemmas about `validateWriteLocked` of internal/modbus/service.go and the thresholds of the battery.
use package.text.Mathlib.Text.{◌==◌ as str_eq}
use srne_inverter_to_mqtt.Base.{
  ℕ, ◌+◌, ◌≤◌, ◌<◌, String, Bool, true, false, some, Result, ok, err, ltb, if◌then◌else◌, ◌≡◌, refl,
  arith, Bool-cases, inl, inr,
}
use srne_inverter_to_mqtt.Base.Float.{Float64}
use srne_inverter_to_mqtt.Config.Types.{Config}
use srne_inverter_to_mqtt.Registers.Types.{Register}
use srne_inverter_to_mqtt.Store.Types.{Snapshot}
use srne_inverter_to_mqtt.Modbus.Types.{BusError, Link}
use srne_inverter_to_mqtt.Modbus.Service.{
  Service, ◌>>=◌, state_of, raw_from_snapshot, current_register_raw,
}
use srne_inverter_to_mqtt.Modbus.Thresholds.{
  with_gap, check_against, check_alarm, check_start, validate_write,
}

-- The four thresholds, in percent.
pub record Thresholds : Type 0 where
  pub cutoff : ℕ
  pub alarm : ℕ
  pub stop : ℕ
  pub start : ℕ

-- Cutoff, alarm and start lie at least 5 apart, and stop is not above start.
pub record IsSpaced (t : Thresholds) : Type 0 where
  pub alarm_above_cutoff : t.cutoff + 5 ≤ t.alarm
  pub start_above_alarm : t.alarm + 5 ≤ t.start
  pub stop_below_start : t.stop ≤ t.start

-- No sum of a threshold and the gap leaves 16 bits.
pub record IsSmall (t : Thresholds) : Type 0 where
  pub cutoff : t.cutoff < 65531
  pub alarm : t.alarm < 65531

-- The thresholds after a register was written.
unfoldable pub put_threshold : String → ℕ → Thresholds → Thresholds
put_threshold id value t =
    if str_eq id "battery_discharge_cutoff_soc"
    then record t { cutoff = value }
    else if str_eq id "battery_low_soc_alarm"
    then record t { alarm = value }
    else if str_eq id "battery_discharge_stop"
    then record t { stop = value }
    else if str_eq id "battery_discharge_start"
    then record t { start = value }
    else t

-- The snapshot shows these thresholds.
pub record Shows {Num : Type 0} (snapshot : Snapshot Num) (t : Thresholds) : Type 0 where
  pub cutoff : raw_from_snapshot snapshot.telemetry "battery_discharge_cutoff_soc" ≡ some t.cutoff
  pub alarm : raw_from_snapshot snapshot.telemetry "battery_low_soc_alarm" ≡ some t.alarm
  pub stop : raw_from_snapshot snapshot.telemetry "battery_discharge_stop" ≡ some t.stop
  pub start : raw_from_snapshot snapshot.telemetry "battery_discharge_start" ≡ some t.start

with_gap_small : (n : ℕ) → n < 65531 → with_gap n ≡ n + 5
unfolding with_gap
with_gap_small n h = omega arith

IsSpaced-cutoff :
    (t : Thresholds) (n : ℕ)
    → n < 65531
    → IsSpaced t
    → ltb t.alarm (with_gap n) ≡ false
    → IsSpaced (record t { cutoff = n })
IsSpaced-cutoff t n fits spaced k = ground (arith, with_gap_small n fits)

IsSpaced-alarm :
    (t : Thresholds) (n : ℕ)
    → IsSmall t
    → n < 65531
    → IsSpaced t
    → (ltb n (with_gap t.cutoff) ≡ false) × (ltb t.start (with_gap n) ≡ false)
    → IsSpaced (record t { alarm = n })
IsSpaced-alarm t n small fits spaced k =
    ground (arith, with_gap_small n fits, with_gap_small t.cutoff small.cutoff)

IsSpaced-stop :
    (t : Thresholds) (n : ℕ) → IsSpaced t → ltb t.start n ≡ false → IsSpaced (record t { stop = n })
IsSpaced-stop t n spaced k = ground arith

IsSpaced-start :
    (t : Thresholds) (n : ℕ)
    → IsSmall t
    → IsSpaced t
    → (ltb n t.stop ≡ false) × (ltb n (with_gap t.alarm) ≡ false)
    → IsSpaced (record t { start = n })
IsSpaced-start t n small spaced k = ground (arith, with_gap_small t.alarm small.alarm)

module _ {S C E Num : Type 0} (link : Link S C E) (fl : Float64 Num) (format_time : ℕ → String)
    (cfg : Config Num) where
  abbrev Answer : Type 0
  Answer = Result (BusError E) (Unit {0}) × Service S C Num

  -- The comparison with a value that the snapshot shows, which changes nothing.
  abbrev compared : Bool → BusError E → Service S C Num → Answer
  compared bad e service = if bad then (err e, service) else (ok tt, service)

  check_against-stored :
      (id : String) (bad : ℕ → Bool) (error : ℕ → BusError E) (service : Service S C Num)
      (value : ℕ)
      → raw_from_snapshot (state_of link fl format_time cfg service).telemetry id ≡ some value
      → check_against link fl format_time cfg id bad error service
        ≡ compared (bad value) (error value) service
  unfolding check_against current_register_raw
  check_against-stored id bad error service value h = rw (h, current_register_raw) refl

  compared-ok :
      (bad : Bool) (e : BusError E) (service : Service S C Num)
      → (compared bad e service).0 ≡ ok tt
      → bad ≡ false
  compared-ok true e service h = absurd cc
  compared-ok false e service h = refl

  -- Two comparisons, one after the other.
  compared-both :
      (bad worse : Bool) (e f : BusError E) (service : Service S C Num)
      (next : Unit {0} → Service S C Num → Answer)
      → next tt service ≡ compared worse f service
      → (compared bad e service >>= next).0 ≡ ok tt
      → (bad ≡ false) × (worse ≡ false)
  compared-both true worse e f service next k h = absurd cc
  compared-both false worse e f service next k h = (refl, compared-ok worse f service (rw k at h))

  check_alarm-ok :
      (encoded : ℕ) (service : Service S C Num) (t : Thresholds)
      → Shows (state_of link fl format_time cfg service) t
      → (check_alarm link fl format_time cfg encoded service).0 ≡ ok tt
      → (ltb encoded (with_gap t.cutoff) ≡ false) × (ltb t.start (with_gap encoded) ≡ false)
  unfolding check_alarm
  check_alarm-ok encoded service t shows h =
      compared-both _ _ _ _ service _
        (check_against-stored "battery_discharge_start" _ _ service t.start shows.start)
        (rw (check_against-stored "battery_discharge_cutoff_soc" _ _ service t.cutoff shows.cutoff)
          at h)

  check_start-ok :
      (encoded : ℕ) (service : Service S C Num) (t : Thresholds)
      → Shows (state_of link fl format_time cfg service) t
      → (check_start link fl format_time cfg encoded service).0 ≡ ok tt
      → (ltb encoded t.stop ≡ false) × (ltb encoded (with_gap t.alarm) ≡ false)
  unfolding check_start
  check_start-ok encoded service t shows h =
      compared-both _ _ _ _ service _
        (check_against-stored "battery_low_soc_alarm" _ _ service t.alarm shows.alarm)
        (rw (check_against-stored "battery_discharge_stop" _ _ service t.stop shows.stop) at h)

  -- If the snapshot shows the battery's four thresholds, of which the cutoff and the alarm are
  -- below 65531, as is the word to be written, and they are spaced - cutoff and alarm at least 5
  -- apart, alarm and start at least 5 apart, stop not above start - then a write that
  -- validateWriteLocked allows leaves them spaced, whichever register it is for.
  pub validate_write-IsSpaced :
      (reg : Register Num) (encoded : ℕ) (service : Service S C Num) (t : Thresholds)
      → Shows (state_of link fl format_time cfg service) t
      → IsSmall t
      → encoded < 65531
      → IsSpaced t
      → (validate_write link fl format_time cfg reg encoded service).0 ≡ ok tt
      → IsSpaced (put_threshold reg.id encoded t)
  unfolding validate_write put_threshold
  validate_write-IsSpaced reg encoded service t shows small fits spaced h =
      elim (Bool-cases (str_eq reg.id "battery_discharge_cutoff_soc")) [
        | inl cutoff ↦
            let k = compared-ok _ _ service (
              rw (check_against-stored "battery_low_soc_alarm" _ _ service t.alarm shows.alarm) at
                (rw cutoff at h)) in
            rw cutoff (IsSpaced-cutoff t encoded fits spaced k)
        | inr e1 ↦ elim (Bool-cases (str_eq reg.id "battery_low_soc_alarm")) [
          | inl alarm ↦
              rw (e1, alarm)
                (IsSpaced-alarm t encoded small fits spaced
                  (check_alarm-ok encoded service t shows (rw (e1, alarm) at h)))
          | inr e2 ↦ elim (Bool-cases (str_eq reg.id "battery_discharge_stop")) [
            | inl stop ↦
                let k = compared-ok _ _ service (
                  rw
                    (check_against-stored "battery_discharge_start" _ _ service t.start shows.start)
                    at (rw (e1, e2, stop) at h)) in
                rw (e1, e2, stop) (IsSpaced-stop t encoded spaced k)
            | inr e3 ↦ elim (Bool-cases (str_eq reg.id "battery_discharge_start")) [
              | inl start ↦
                  rw (e1, e2, e3, start)
                    (IsSpaced-start t encoded small spaced
                      (check_start-ok encoded service t shows (rw (e1, e2, e3, start) at h)))
              | inr e4 ↦ rw (e1, e2, e3, e4) spaced
            ]
          ]
        ]
      ]

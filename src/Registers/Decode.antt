-- ===== src/Registers/Decode.antt =====
-- internal/registers/catalog.go: `Decode`, `ControlValue` and the options of a register.
use Prim.Native.String
use srne_inverter_to_mqtt.Base.{
  ℕ, ◌/◌, ◌%◌, ◌^◌, String, Bool, true, false, not, ◌&&◌, ◌||◌, List, [], ◌∷◌, length, take, Option,
  none, some, Result, ok, err, ◌>>=◌, ◌>>◌, fail_if, ◌==◌, ltb, if◌then◌else◌,
}
use srne_inverter_to_mqtt.Base.Int.{ℤ, pos, pos_part, ltb_ℤ, eqb_ℤ}
use srne_inverter_to_mqtt.Base.Text.{decimal_ℤ, zero_padded}
use srne_inverter_to_mqtt.Base.Float.{Float64}
use srne_inverter_to_mqtt.Clock.Codec
use srne_inverter_to_mqtt.Clock.Codec.{DateTime, ClockError}
use srne_inverter_to_mqtt.Registers.Types.{
  ValueType, datetime, packed_time, Register, WriteOption, DecodedValue, Value, float64, int64,
  text, nothing,
}
use srne_inverter_to_mqtt.Registers.Words.{RegisterError, too_few_words, clock_error, raw_value}

-- `mapping[raw]`
unfoldable pub label_of : List (ℤ × String) → ℤ → Option String
label_of [] raw = none
label_of ((key, label) ∷ mapping) raw = if eqb_ℤ key raw then some label else label_of mapping raw

unfoldable pub enum_value : List (ℤ × String) → ℤ → String
enum_value mapping raw = elim (label_of mapping raw) [
  | some label ↦ label
  | none ↦ String.◌++◌ "Unknown (" (String.◌++◌ (decimal_ℤ raw) ")")
]

-- The options in the order of their raw values: the keys sorted by insertion.
insert_option : WriteOption → List WriteOption → List WriteOption
insert_option o [] = o ∷ []
insert_option o (p ∷ ps) = if ltb_ℤ p.raw o.raw then p ∷ insert_option o ps else o ∷ p ∷ ps

unfoldable pub enum_options : List (ℤ × String) → List WriteOption
unfolding insert_option
enum_options [] = []
enum_options ((raw, label) ∷ mapping) =
    insert_option (record { raw = raw; label = label }) (enum_options mapping)

-- A moment of the day in one word, hours in the high byte.
unfoldable pub packed_time_text : ℤ → String
packed_time_text raw =
    let hour = pos_part raw / 2 ^ 8 in
    let minute = pos_part raw % 2 ^ 8 in
    if ltb 23 hour || ltb 59 minute
    then String.◌++◌ "Invalid (" (String.◌++◌ (decimal_ℤ raw) ")")
    else String.◌++◌ (zero_padded 2 hour) (String.◌++◌ ":" (zero_padded 2 minute))

unfoldable pub is_empty_map : List (ℤ × String) → Bool
is_empty_map [] = true
is_empty_map (e ∷ es) = false

module _ {Num : Type 0} (fl : Float64 Num) where
  unfoldable pub write_options : Register Num → List WriteOption
  write_options r = if not r.writable then [] else enum_options r.enum

  unfoldable pub scale_or_one : Num → Num
  scale_or_one scale = if fl.eq scale (fl.ratio 0 0) then fl.ratio 1 0 else scale

  unfoldable pub pow10 : ℕ → Num
  pow10 precision = fl.ratio (10 ^ precision) 0

  unfoldable pub round_float : Num → ℕ → Num
  round_float value precision = fl.div (fl.round (fl.mul value (pow10 precision))) (pow10 precision)

  -- The default case: the scaled number, as an integer where it is one.
  unfoldable pub scaled_value : Register Num → ℤ → Value Num × String
  scaled_value r raw =
      let scaled = fl.mul (fl.of_ℤ raw) (scale_or_one r.scale) in
      let whole = fl.round scaled in
      if (r.precision == 0) && fl.lt (fl.abs (fl.sub scaled whole)) (fl.ratio 1 6)
      then (int64 (fl.to_ℤ whole), decimal_ℤ (fl.to_ℤ whole))
      else (
        float64 (round_float scaled r.precision),
        fl.format (round_float scaled r.precision) r.precision,
      )

  abbrev as_text : String → Value Num × String
  as_text s = (text s, s)

  clock_text : Result ClockError DateTime → Result RegisterError (Value Num × String)
  clock_text (ok clock) = ok (as_text clock.formatted)
  clock_text (err e) = err (clock_error e)

  -- The `switch` of `Decode`.
  unfoldable pub value_of :
      ValueType → Register Num → List ℕ → ℤ → Result RegisterError (Value Num × String)
  unfolding clock_text
  value_of datetime r words raw = clock_text (Codec.decode words)
  value_of packed_time r words raw = ok (as_text (packed_time_text raw))
  value_of _ r words raw =
      if is_empty_map r.enum then ok (scaled_value r raw) else ok (as_text (enum_value r.enum raw))

  unfoldable pub decode : Register Num → List ℕ → ℕ → Result RegisterError (DecodedValue Num)
  decode r words now = do
    fail_if (ltb (length words) r.count) (too_few_words r.id r.count (length words))
    raw ← raw_value r (take r.count words)
    shown ← value_of r.value_type r (take r.count words) raw
    ok (record {
      id = r.id;
      name = r.name;
      address = r.address;
      group = r.group;
      component = r.component;
      entity = r.entity;
      entity_category = r.entity_category;
      writable = r.writable;
      write_only = r.write_only;
      synthetic = r.synthetic;
      raw_only = r.raw_only;
      unit = r.unit;
      device_class = r.device_class;
      state_class = r.state_class;
      icon = r.icon;
      raw = raw;
      raw_words = take r.count words;
      value = shown.0;
      rendered = shown.1;
      write_min = r.write_min;
      write_max = r.write_max;
      write_step = r.write_step;
      options = write_options r;
      updated_at = now;
    })

  only_label : Bool → List WriteOption → Option String
  only_label true (o ∷ []) = some o.label
  only_label _ _ = none

  control_text : Option String → Value Num × String
  control_text none = (nothing, "")
  control_text (some label) = as_text label

  unfoldable pub control_value : Register Num → ℕ → DecodedValue Num
  unfolding only_label control_text
  control_value r now =
      let options = write_options r in
      let shown = control_text (only_label r.write_only options) in
      record {
        id = r.id;
        name = r.name;
        address = r.address;
        group = r.group;
        component = r.component;
        entity = r.entity;
        entity_category = r.entity_category;
        writable = r.writable;
        write_only = r.write_only;
        synthetic = r.synthetic;
        raw_only = r.raw_only;
        unit = r.unit;
        device_class = r.device_class;
        state_class = r.state_class;
        icon = r.icon;
        raw = pos 0;
        raw_words = [];
        value = shown.0;
        rendered = shown.1;
        write_min = r.write_min;
        write_max = r.write_max;
        write_step = r.write_step;
        options = options;
        updated_at = now;
      }

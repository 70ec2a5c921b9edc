-- ===== src/Store/Values.antt =====
-- internal/state/store.go: `Store` without its services, and `UpsertTelemetry` with the switch of
-- the machine's state. The map of values is its list of entries.
use package.text.Mathlib.Text.{◌==◌ as str_eq}
use srne_inverter_to_mqtt.Base.{
  ℕ, String, false, ◌||◌, List, [], ◌∷◌, Option, none, some, ltb, ◌==◌, if◌then◌else◌,
}
use srne_inverter_to_mqtt.Base.Int.{pos}
use srne_inverter_to_mqtt.Base.Float.{Float64}
use srne_inverter_to_mqtt.Registers.Types.{
  DecodedValue, Value, float64, int64, int, uint64, text, nothing, other_value, slow,
}

-- `at` is 0 for an event that did not happen.
pub record SwitchEvent (Num : Type 0) : Type 0 where
  pub at : ℕ
  pub soc : Num
  pub updated_at : ℕ

pub record Telemetry (Num : Type 0) : Type 0 where
  pub values : List (String × DecodedValue Num)
  pub last_switch_grid : SwitchEvent Num
  pub last_switch_batt : SwitchEvent Num

module _ {Num : Type 0} where
  -- The value and whether the key is there.
  unfoldable pub lookup_value :
      List (String × DecodedValue Num) → String → Option (DecodedValue Num)
  lookup_value [] id = none
  lookup_value ((key, value) ∷ values) id =
      let rest = lookup_value values id in if str_eq key id then some value else rest

  -- `s.values[id] = value`
  unfoldable pub put_value :
      String
      → DecodedValue Num
      → List (String × DecodedValue Num)
      → List (String × DecodedValue Num)
  put_value id value [] = (id, value) ∷ []
  put_value id value ((key, old) ∷ values) =
      let rest = put_value id value values in
      if str_eq key id then (key, value) ∷ values else (key, old) ∷ rest

  -- `for _, value := range values { s.values[value.ID] = value }`
  unfoldable pub put_values :
      List (DecodedValue Num) → List (String × DecodedValue Num) → List (String × DecodedValue Num)
  put_values [] entries = entries
  put_values (value ∷ values) entries = put_values values (put_value value.id value entries)

  -- The first value with that identifier.
  unfoldable pub first_with_id : String → List (DecodedValue Num) → Option (DecodedValue Num)
  first_with_id id [] = none
  first_with_id id (value ∷ values) =
      let rest = first_with_id id values in if str_eq value.id id then some value else rest

  newest_after : ℕ → List (DecodedValue Num) → ℕ
  newest_after newest [] = newest
  newest_after newest (value ∷ values) =
      newest_after (if ltb newest value.updated_at then value.updated_at else newest) values

  unfoldable pub newest_updated_at : List (DecodedValue Num) → ℕ
  unfolding newest_after
  newest_updated_at values = newest_after 0 values

module _ {Num : Type 0} (fl : Float64 Num) where
  -- Go's zero value; the group's is the empty text, and every literal of the store sets a group.
  abbrev pub blank_value : DecodedValue Num
  blank_value = record {
    id = "";
    name = "";
    address = 0;
    group = slow;
    component = "";
    entity = "";
    entity_category = "";
    writable = false;
    write_only = false;
    synthetic = false;
    raw_only = false;
    unit = "";
    device_class = "";
    state_class = "";
    icon = "";
    raw = pos 0;
    raw_words = [];
    value = nothing;
    rendered = "";
    write_min = fl.ratio 0 0;
    write_max = fl.ratio 0 0;
    write_step = fl.ratio 0 0;
    options = [];
    updated_at = 0;
  }

  -- `s.values[id]`, the zero value for a missing key.
  unfoldable pub value_at : List (String × DecodedValue Num) → String → DecodedValue Num
  unfolding lookup_value
  value_at values id = elim (lookup_value values id) [ some value ↦ value | none ↦ blank_value ]

  unfoldable pub number_of : Value Num → Option Num
  number_of (float64 x) = some x
  number_of (int i) = some (fl.of_ℤ i)
  number_of (int64 i) = some (fl.of_ℤ i)
  number_of (uint64 n) = some (fl.of_ℤ (pos n))
  number_of (text s) = fl.parse s
  number_of nothing = none
  number_of other_value = none

  unfoldable pub numeric_value : DecodedValue Num → Option Num
  numeric_value value = number_of value.value

  number_or : Num → Option Num → Num
  number_or d none = d
  number_or d (some x) = x

  -- The state of charge of the update, or else the one that is stored.
  unfoldable pub switch_soc : Option (DecodedValue Num) → Num → Num
  unfolding number_or
  switch_soc none stored = stored
  switch_soc (some value) stored = number_or stored (numeric_value value)

  unfoldable pub switch_event :
      List (DecodedValue Num)
      → List (String × DecodedValue Num)
      → DecodedValue Num
      → SwitchEvent Num
  unfolding number_or
  switch_event values entries machine_state =
      let updated_at = newest_updated_at (machine_state ∷ value_at entries "battery_soc" ∷ []) in
      record {
        at = machine_state.updated_at;
        soc =
            switch_soc (first_with_id "battery_soc" values)
              (number_or (fl.ratio 0 0) (numeric_value (value_at entries "battery_soc")));
        updated_at = if updated_at == 0 then machine_state.updated_at else updated_at;
      }

  -- The switch at the end of `UpsertTelemetry`, by the text of the machine's state.
  unfoldable pub record_switch : String → SwitchEvent Num → Telemetry Num → Telemetry Num
  record_switch machine_state event store =
      if str_eq machine_state "AC Power Operation"
      then record store { last_switch_grid = event }
      else if str_eq machine_state "Inverter Operation"
      then record store { last_switch_batt = event }
      else store

  unfoldable pub upsert_telemetry : List (DecodedValue Num) → Telemetry Num → Telemetry Num
  upsert_telemetry values store =
      let entries = put_values values store.values in
      let before = (value_at store.values "machine_state").rendered in
      let after = (value_at entries "machine_state").rendered in
      let stored = record store { values = entries } in
      if str_eq before "" || str_eq after "" || str_eq after before
      then stored
      else record_switch after (switch_event values entries (value_at entries "machine_state"))
          stored

  -- `New`
  unfoldable pub new_telemetry : Telemetry Num
  new_telemetry = record {
    values = [];
    last_switch_grid = record { at = 0; soc = fl.ratio 0 0; updated_at = 0 };
    last_switch_batt = record { at = 0; soc = fl.ratio 0 0; updated_at = 0 };
  }

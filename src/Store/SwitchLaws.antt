-- ===== src/Store/SwitchLaws.antt =====
-- Lemmas about the switches that `UpsertTelemetry` of internal/state/store.go records.
use package.text.Mathlib.Text.{◌==◌ as str_eq}
use package.text.Mathlib.TextEquality.{eq_iff}
use srne_inverter_to_mqtt.Base.{
  String, Bool, true, false, ◌||◌, List, if◌then◌else◌, ◌≡◌, ◌≢◌, refl, sym, ◌∙◌, ◌⊎◌, inl, inr,
  if_cases, Bool-cases, arith,
}
use srne_inverter_to_mqtt.Base.Float.{Float64}
use srne_inverter_to_mqtt.Registers.Types.{DecodedValue}
use srne_inverter_to_mqtt.Store.Values.{
  SwitchEvent, Telemetry, put_values, value_at, switch_event, record_switch, upsert_telemetry,
}
use srne_inverter_to_mqtt.Store.ValueLaws.{str_eq→≡, upsert-values}

≢_of_test : (s t : String) → str_eq s t ≡ false → s ≢ t
≢_of_test s t h e = let same : str_eq s t ≡ true = (eq_iff s t).1 e in absurd cc

-- The choice that ends `UpsertTelemetry`, for any two texts of the machine's state.
abbrev switched :
    {Num : Type 0} → Float64 Num → String → String → SwitchEvent Num → Telemetry Num → Telemetry Num
switched fl before after event stored =
    if str_eq before "" || str_eq after "" || str_eq after before
    then stored
    else record_switch fl after event stored

abbrev Switched :
    {Num : Type 0}
    → String
    → String
    → String
    → SwitchEvent Num
    → SwitchEvent Num
    → SwitchEvent Num
    → Type 0
Switched target before after event old new =
    (new ≡ old) ⊎ ((before ≢ "") × (before ≢ target) × (after ≡ target) × (new ≡ event))

record_switch-Switched :
    {Num : Type 0} (fl : Float64 Num) (before after : String) (event : SwitchEvent Num)
    (stored : Telemetry Num)
    → before ≢ ""
    → after ≢ before
    → Switched "AC Power Operation" before after event stored.last_switch_grid
        (record_switch fl after event stored).last_switch_grid
      × Switched "Inverter Operation" before after event stored.last_switch_batt
          (record_switch fl after event stored).last_switch_batt
unfolding record_switch
record_switch-Switched fl before after event stored h k =
    elim (Bool-cases (str_eq after "AC Power Operation")) [
      | inl grid ↦
          let e : after ≡ "AC Power Operation" = str_eq→≡ _ _ grid in
          rw grid (inr (h, (λ b. k (e ∙ sym b)), e, refl), inl refl)
      | inr other ↦ elim (Bool-cases (str_eq after "Inverter Operation")) [
        | inl battery ↦
            let e : after ≡ "Inverter Operation" = str_eq→≡ _ _ battery in
            rw (other, battery) (inl refl, inr (h, (λ b. k (e ∙ sym b)), e, refl))
        | inr neither ↦ rw (other, neither) (inl refl, inl refl)
      ]
    ]

or_parts : (a b c : Bool) → a || b || c ≡ false → (a ≡ false) × (b ≡ false) × (c ≡ false)
or_parts a b c h = ground arith

switched-Switched :
    {Num : Type 0} (fl : Float64 Num) (before after : String) (event : SwitchEvent Num)
    (stored : Telemetry Num)
    → Switched "AC Power Operation" before after event stored.last_switch_grid
        (switched fl before after event stored).last_switch_grid
      × Switched "Inverter Operation" before after event stored.last_switch_batt
          (switched fl before after event stored).last_switch_batt
switched-Switched {Num} fl before after event stored =
    if_cases
      (λ (s : Telemetry Num).
        Switched "AC Power Operation" before after event stored.last_switch_grid s.last_switch_grid
        × Switched "Inverter Operation" before after event stored.last_switch_batt
            s.last_switch_batt)
      (str_eq before "" || str_eq after "" || str_eq after before) (λ _. (inl refl, inl refl))
      (λ e.
        let parts = or_parts _ _ _ e in
        record_switch-Switched fl before after event stored (≢_of_test _ _ parts.0)
          (≢_of_test _ _ parts.2))

module _ {Num : Type 0} (fl : Float64 Num) where
  -- An event is kept, or replaced because the state turned from another text into this one.
  abbrev pub IsSwitch :
      String → DecodedValue Num → DecodedValue Num → SwitchEvent Num → SwitchEvent Num → Type 0
  IsSwitch target before after old new =
      (new ≡ old)
      ⊎ ((before.rendered ≢ "")
          × (before.rendered ≢ target)
          × (after.rendered ≡ target)
          × (new.at ≡ after.updated_at))

  Switched-IsSwitch :
      (target : String) (before after : DecodedValue Num) (event old new : SwitchEvent Num)
      → event.at ≡ after.updated_at
      → Switched target before.rendered after.rendered event old new
      → IsSwitch target before after old new
  Switched-IsSwitch target before after event old new e (inl h) = inl h
  Switched-IsSwitch target before after event old new e (inr h) = inr (h.0, h.1, h.2, rw h.3 e)

  stored_IsSwitch :
      (values : List (DecodedValue Num)) (store : Telemetry Num)
      → let before = value_at fl store.values "machine_state" in
        let after = value_at fl (put_values values store.values) "machine_state" in
        IsSwitch "AC Power Operation" before after store.last_switch_grid
          (upsert_telemetry fl values store).last_switch_grid
        × IsSwitch "Inverter Operation" before after store.last_switch_batt
            (upsert_telemetry fl values store).last_switch_batt
  unfolding upsert_telemetry switch_event
  stored_IsSwitch values store =
      let entries = put_values values store.values in
      let before = value_at fl store.values "machine_state" in
      let machine = value_at fl entries "machine_state" in
      let event = switch_event fl values entries machine in
      let done =
        switched-Switched fl before.rendered machine.rendered event
          (record store { values = entries }) in
      (
        Switched-IsSwitch "AC Power Operation" before machine event _ _ refl done.0,
        Switched-IsSwitch "Inverter Operation" before machine event _ _ refl done.1,
      )

  -- UpsertTelemetry keeps the last switch to the grid, or to the battery, unless the machine's
  -- state turned from another non-empty text into AC Power Operation, or into Inverter Operation;
  -- the new switch then has the moment of the new state.
  pub upsert_telemetry-IsSwitch :
      (values : List (DecodedValue Num)) (store : Telemetry Num)
      → let before = value_at fl store.values "machine_state" in
        let after = value_at fl (upsert_telemetry fl values store).values "machine_state" in
        IsSwitch "AC Power Operation" before after store.last_switch_grid
          (upsert_telemetry fl values store).last_switch_grid
        × IsSwitch "Inverter Operation" before after store.last_switch_batt
            (upsert_telemetry fl values store).last_switch_batt
  upsert_telemetry-IsSwitch values store =
      rw (upsert-values fl values store) (stored_IsSwitch values store)

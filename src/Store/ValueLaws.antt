-- ===== src/Store/ValueLaws.antt =====
-- Lemmas about the values of internal/state/store.go and `UpsertTelemetry`.
use package.text.Mathlib.Text.{◌==◌ as str_eq}
use package.text.Mathlib.TextEquality.{eq_iff}
use srne_inverter_to_mqtt.Base.{
  String, Bool, true, false, List, [], ◌∷◌, Option, some, if◌then◌else◌, ◌≡◌, refl, sym, ◌∙◌, inl,
  inr, Bool-cases, arith,
}
use srne_inverter_to_mqtt.Base.Float.{Float64}
use srne_inverter_to_mqtt.Registers.Types.{DecodedValue}
use srne_inverter_to_mqtt.Store.Values.{
  SwitchEvent, Telemetry, lookup_value, put_value, put_values, record_switch, upsert_telemetry,
}

pub str_eq→≡ : (s t : String) → str_eq s t ≡ true → s ≡ t
str_eq→≡ s t h = (eq_iff s t).0 h

-- Two keys that differ are not both the same text.
not_same : (a b c : String) → str_eq a b ≡ false → str_eq a c ≡ true → str_eq b c ≡ true → ⊥
not_same a b c h k l =
    let e : str_eq a b ≡ true = (eq_iff a b).1 (str_eq→≡ a c k ∙ sym (str_eq→≡ b c l)) in absurd cc

str_eq-flip : (a b : String) → str_eq a b ≡ false → str_eq b a ≡ false
str_eq-flip a b h = elim (Bool-cases (str_eq b a)) [
  | inl same ↦ let e : str_eq a b ≡ true = (eq_iff a b).1 (sym (str_eq→≡ b a same)) in absurd cc
  | inr other ↦ other
]

if_twice :
    {A : Type 0} (x y z : A) (b : Bool)
    → (if b then x else z) ≡ (if b then x else (if b then y else z))
if_twice x y z true = refl
if_twice x y z false = refl

if_swap :
    {A : Type 0} (x y z : A) (b c : Bool)
    → (b ≡ true → c ≡ true → ⊥)
    → (if c then y else (if b then x else z)) ≡ (if b then x else (if c then y else z))
if_swap x y z true true h = absurd (h refl refl)
if_swap x y z true false h = refl
if_swap x y z false true h = refl
if_swap x y z false false h = refl

module _ {Num : Type 0} where
  -- What the last of the values with that identifier is, or else `old`.
  unfoldable pub last_with_id :
      String → List (DecodedValue Num) → Option (DecodedValue Num) → Option (DecodedValue Num)
  last_with_id id [] old = old
  last_with_id id (value ∷ values) old =
      last_with_id id values (if str_eq value.id id then some value else old)

  lookup-put :
      (id key : String) (value : DecodedValue Num) (entries : List (String × DecodedValue Num))
      → lookup_value (put_value key value entries) id
        ≡ (if str_eq key id then some value else lookup_value entries id)
  unfolding lookup_value put_value
  lookup-put id key value [] = refl
  lookup-put id key value ((k, old) ∷ entries) =
      let rest = lookup-put id key value entries in
      elim (Bool-cases (str_eq k key)) [
        | inl same ↦
            rw (same, lookup_value) (rw (str_eq→≡ k key same) (if_twice _ _ _ (str_eq key id)))
        | inr other ↦
            rw (other, lookup_value, rest)
              (if_swap _ _ _ (str_eq key id) (str_eq k id) (λ a b. not_same k key id other b a))
      ]

  lookup-put_values :
      (id : String) (values : List (DecodedValue Num)) (entries : List (String × DecodedValue Num))
      → lookup_value (put_values values entries) id
        ≡ last_with_id id values (lookup_value entries id)
  unfolding put_values last_with_id
  lookup-put_values id [] entries = refl
  lookup-put_values id (value ∷ values) entries =
      rw
        (
          lookup-put_values id values (put_value value.id value entries),
          lookup-put id value.id value entries,
        )
        refl

module _ {Num : Type 0} (fl : Float64 Num) where
  record_switch-values :
      (s : String) (event : SwitchEvent Num) (store : Telemetry Num)
      → (record_switch fl s event store).values ≡ store.values
  unfolding record_switch
  record_switch-values s event store = ground arith

  pub upsert-values :
      (values : List (DecodedValue Num)) (store : Telemetry Num)
      → (upsert_telemetry fl values store).values ≡ put_values values store.values
  unfolding upsert_telemetry
  upsert-values values store = grind (arith, record_switch-values)

module _ {Num : Type 0} (fl : Float64 Num) where
  -- After UpsertTelemetry an identifier has the last of the new values with that identifier, or
  -- else the value that it had.
  pub lookup-upsert_telemetry :
      (values : List (DecodedValue Num)) (store : Telemetry Num) (id : String)
      → lookup_value (upsert_telemetry fl values store).values id
        ≡ last_with_id id values (lookup_value store.values id)
  lookup-upsert_telemetry values store id =
      rw (upsert-values fl values store) (lookup-put_values id values store.values)

-- ===== src/Store/ViewLaws.antt =====
-- Lemmas about `Snapshot` of internal/state/store.go.
use mathlib.Core.List.{Perm}
use mathlib.Core.List.Perm
use srne_inverter_to_mqtt.Base.{
  ℕ, ◌≤◌, ◌⊎◌, ltb, if◌then◌else◌, String, true, false, List, [], ◌∷◌, ◌++◌, map, All, ◌≡◌, refl,
  inl, inr, Bool-cases, arith,
}
use srne_inverter_to_mqtt.Base.Float.{Float64}
use srne_inverter_to_mqtt.Registers.Types.{DecodedValue, PollGroup, fast, slow}
use srne_inverter_to_mqtt.Registers.Catalog.Queries.{
  sort_values, insert_value, comes_before, same_group, group_before,
}
use srne_inverter_to_mqtt.Store.Types.{ServiceStatus}
use srne_inverter_to_mqtt.Store.Values.{Telemetry, SwitchEvent}
use srne_inverter_to_mqtt.Store.Derived.{derived_telemetry, as_synthetic}
use srne_inverter_to_mqtt.Store.View.{snapshot, values_in}

before_lem :
    (g h : PollGroup) (a b : ℕ)
    → (if same_group g h then ltb a b else group_before g h) ≡ true
    → ((g ≡ fast) × (h ≡ slow)) ⊎ ((g ≡ h) × (a ≤ b))
unfolding same_group
before_lem fast fast a b k = inr (refl, ground arith)
before_lem slow slow a b k = inr (refl, ground arith)
before_lem fast slow a b k = inl (refl, refl)
before_lem slow fast a b k = absurd cc

not_before_lem :
    (g h : PollGroup) (a b : ℕ)
    → (if same_group g h then ltb a b else group_before g h) ≡ false
    → ((h ≡ fast) × (g ≡ slow)) ⊎ ((h ≡ g) × (b ≤ a))
unfolding same_group
not_before_lem fast fast a b k = inr (refl, ground arith)
not_before_lem slow slow a b k = inr (refl, ground arith)
not_before_lem fast slow a b k = absurd cc
not_before_lem slow fast a b k = inl (refl, refl)

module _ {Num : Type 0} where
  -- Fast before slow, and by ascending address within a group.
  abbrev pub Precedes : DecodedValue Num → DecodedValue Num → Type 0
  Precedes v w =
      ((v.group ≡ fast) × (w.group ≡ slow)) ⊎ ((v.group ≡ w.group) × (v.address ≤ w.address))

  abbrev pub Ordered : List (DecodedValue Num) → Type 0
  Ordered [] = Unit
  Ordered (v ∷ []) = Unit
  Ordered (v ∷ w ∷ rest) = Precedes v w × Ordered (w ∷ rest)

  comes_before-Precedes : (v w : DecodedValue Num) → comes_before w v ≡ true → Precedes w v
  unfolding comes_before
  comes_before-Precedes v w h = before_lem w.group v.group w.address v.address h

  not_comes_before-Precedes : (v w : DecodedValue Num) → comes_before w v ≡ false → Precedes v w
  unfolding comes_before
  not_comes_before-Precedes v w h = not_before_lem w.group v.group w.address v.address h

  insert-perm :
      (v : DecodedValue Num) (vs : List (DecodedValue Num)) → Perm (insert_value v vs) (v ∷ vs)
  unfolding insert_value
  insert-perm v [] = Perm.refl _
  insert-perm v (w ∷ ws) = elim (Bool-cases (comes_before w v)) [
    | inl less ↦ rw less (Perm.trans (Perm.cons w (insert-perm v ws)) (Perm.swap v w ws))
    | inr more ↦ rw more (Perm.refl _)
  ]

  sort-perm : (vs : List (DecodedValue Num)) → Perm (sort_values vs) vs
  unfolding sort_values
  sort-perm [] = Perm.refl _
  sort-perm (v ∷ vs) = Perm.trans (insert-perm v (sort_values vs)) (Perm.cons v (sort-perm vs))

  insert-Ordered-cons :
      (u v : DecodedValue Num) (vs : List (DecodedValue Num))
      → Precedes u v
      → Ordered (u ∷ vs)
      → Ordered (u ∷ insert_value v vs)
  unfolding insert_value
  insert-Ordered-cons u v [] h k = (h, tt)
  insert-Ordered-cons u v (w ∷ ws) h k = elim (Bool-cases (comes_before w v)) [
    | inl less ↦ rw less (k.0, insert-Ordered-cons w v ws (comes_before-Precedes v w less) k.1)
    | inr more ↦ rw more (h, (not_comes_before-Precedes v w more, k.1))
  ]

  insert-Ordered :
      (v : DecodedValue Num) (vs : List (DecodedValue Num))
      → Ordered vs
      → Ordered (insert_value v vs)
  unfolding insert_value
  insert-Ordered v [] k = tt
  insert-Ordered v (w ∷ ws) k = elim (Bool-cases (comes_before w v)) [
    | inl less ↦ rw less (insert-Ordered-cons w v ws (comes_before-Precedes v w less) k)
    | inr more ↦ rw more (not_comes_before-Precedes v w more, k)
  ]

  sort-Ordered : (vs : List (DecodedValue Num)) → Ordered (sort_values vs)
  unfolding sort_values
  sort-Ordered [] = tt
  sort-Ordered (v ∷ vs) = insert-Ordered v (sort_values vs) (sort-Ordered vs)

  abbrev pub IsSynthetic : DecodedValue Num → Type 0
  IsSynthetic v = v.synthetic ≡ true

  map-IsSynthetic : (vs : List (DecodedValue Num)) → All IsSynthetic (map as_synthetic vs)
  map-IsSynthetic [] = tt
  map-IsSynthetic (v ∷ vs) = (refl, map-IsSynthetic vs)

module _ {Num : Type 0} (fl : Float64 Num) (format_time : ℕ → String) where
  derived-IsSynthetic :
      (values : List (DecodedValue Num)) (grid battery : SwitchEvent Num)
      → All IsSynthetic (derived_telemetry fl format_time values grid battery)
  unfolding derived_telemetry
  derived-IsSynthetic values grid battery = map-IsSynthetic _

  -- The telemetry of a snapshot is the stored values and the derived ones in some order, each value
  -- either fast before a slow one or in the group of the next with no higher address, and every
  -- derived value is marked synthetic.
  pub snapshot-Ordered :
      (services : List (String × ServiceStatus)) (store : Telemetry Num)
      → let derived =
          derived_telemetry fl format_time
            (values_in store.values)
            store.last_switch_grid
            store.last_switch_batt in
        Perm (snapshot fl format_time services store).telemetry (values_in store.values ++ derived)
        × Ordered (snapshot fl format_time services store).telemetry
        × All IsSynthetic derived
  unfolding snapshot
  snapshot-Ordered services store = (sort-perm _, sort-Ordered _, derived-IsSynthetic _ _ _)

-- ===== src/Registers/Catalog/Queries.antt =====
-- internal/registers/catalog.go: the registers of a group, the read plans, `FindByIDForInverterType`
-- and `MergeWriteOnlyControlsForCatalog`.
use srne_inverter_to_mqtt.Base.{
  ℕ, String, Bool, true, false, not, ◌&&◌, ◌||◌, List, [], ◌∷◌, ◌++◌, Option, none, some, ltb,
  if◌then◌else◌,
}
use srne_inverter_to_mqtt.Base.Float.{Float64}
use text.Mathlib.Text.{◌==◌ as str_eq}
use srne_inverter_to_mqtt.Registers.Types.{Register, DecodedValue, ReadRange, PollGroup, fast, slow}
use srne_inverter_to_mqtt.Registers.Decode.{control_value}
use srne_inverter_to_mqtt.Registers.Plan.{sort_by_address, build_read_plan}
use srne_inverter_to_mqtt.Registers.Catalog.Selection.{
  catalog_for_inverter_type, is_three_phase_inverter_type,
}

unfoldable pub same_group : PollGroup → PollGroup → Bool
same_group fast fast = true
same_group slow slow = true
same_group _ _ = false

unfoldable pub is_critical : Bool → String → Bool
is_critical three_phase id =
    str_eq id "battery_soc"
    || str_eq id "battery_voltage"
    || str_eq id "battery_current"
    || str_eq id "maximum_charge_current"
    || (if three_phase
        then str_eq id "pv1_voltage"
          || str_eq id "pv1_current"
          || str_eq id "pv1_power"
          || str_eq id "pv2_voltage"
          || str_eq id "pv2_current"
          || str_eq id "pv2_power"
          || str_eq id "grid_voltage_phase_a"
          || str_eq id "grid_voltage_phase_b"
          || str_eq id "grid_voltage_phase_c"
          || str_eq id "grid_current_phase_a"
          || str_eq id "grid_current_phase_b"
          || str_eq id "grid_current_phase_c"
          || str_eq id "grid_frequency"
          || str_eq id "load_current_phase_a"
          || str_eq id "load_current_phase_b"
          || str_eq id "load_current_phase_c"
          || str_eq id "load_power_phase_a"
          || str_eq id "load_power_phase_b"
          || str_eq id "load_power_phase_c"
          || str_eq id "grid_power_phase_a"
          || str_eq id "grid_power_phase_b"
          || str_eq id "grid_power_phase_c"
        else str_eq id "pv_voltage"
          || str_eq id "pv_current"
          || str_eq id "pv_power"
          || str_eq id "load_power")

module _ {Num : Type 0} where
  -- `reg.Group == group && !reg.WriteOnly && !reg.Synthetic`
  unfoldable pub is_polled : PollGroup → Register Num → Bool
  unfolding same_group
  is_polled group reg = same_group reg.group group && not reg.write_only && not reg.synthetic

  unfoldable pub filter_registers :
      (Register Num → Bool) → List (Register Num) → List (Register Num)
  filter_registers test [] = []
  filter_registers test (reg ∷ regs) =
      let rest = filter_registers test regs in if test reg then reg ∷ rest else rest

  unfoldable pub find_in : List (Register Num) → String → Option (Register Num)
  find_in [] id = none
  find_in (reg ∷ regs) id =
      let rest = find_in regs id in if str_eq reg.id id then some reg else rest

module _ {Num : Type 0} (F : Float64 Num) where
  unfoldable pub by_group_for_inverter_type : PollGroup → String → List (Register Num)
  by_group_for_inverter_type group t =
      sort_by_address (filter_registers (is_polled group) (catalog_for_inverter_type F t))

  unfoldable pub build_read_plan_for_inverter_type : PollGroup → String → List (ReadRange Num)
  build_read_plan_for_inverter_type group t = build_read_plan (by_group_for_inverter_type group t)

  unfoldable pub build_critical_fast_read_plan_for_inverter_type : String → List (ReadRange Num)
  build_critical_fast_read_plan_for_inverter_type t = build_read_plan (
      filter_registers (λ (reg : Register Num). is_critical (is_three_phase_inverter_type t) reg.id)
        (by_group_for_inverter_type fast t))

  unfoldable pub find_by_id_for_inverter_type : String → String → Option (Register Num)
  find_by_id_for_inverter_type id t = find_in (catalog_for_inverter_type F t) id

-- The order of the groups' texts: "fast" is below "slow".
abbrev pub group_before : PollGroup → PollGroup → Bool
group_before fast slow = true
group_before _ _ = false

unfoldable pub comes_before : {Num : Type 0} → DecodedValue Num → DecodedValue Num → Bool
comes_before a b =
    if same_group a.group b.group then ltb a.address b.address else group_before a.group b.group

module _ {Num : Type 0} where
  unfoldable pub insert_value : DecodedValue Num → List (DecodedValue Num) → List (DecodedValue Num)
  insert_value v [] = v ∷ []
  insert_value v (w ∷ ws) =
      let rest = insert_value v ws in if comes_before w v then w ∷ rest else v ∷ w ∷ ws

  unfoldable pub sort_values : List (DecodedValue Num) → List (DecodedValue Num)
  sort_values [] = []
  sort_values (v ∷ vs) = insert_value v (sort_values vs)

  unfoldable pub is_seen : List (DecodedValue Num) → String → Bool
  is_seen [] id = false
  is_seen (v ∷ vs) id = str_eq v.id id || is_seen vs id

module _ {Num : Type 0} (F : Float64 Num) where
  -- The controls of the registers that are only written and have no value yet.
  unfoldable pub missing_controls :
      List (DecodedValue Num) → ℕ → List (Register Num) → List (DecodedValue Num)
  missing_controls values now [] = []
  missing_controls values now (reg ∷ regs) =
      let rest = missing_controls values now regs in
      if not reg.writable || not reg.write_only
      then rest
      else if is_seen values reg.id
      then rest
      else control_value F reg now ∷ rest

  unfoldable pub merge_write_only_controls :
      List (DecodedValue Num) → ℕ → List (Register Num) → List (DecodedValue Num)
  merge_write_only_controls values now catalog =
      sort_values (values ++ missing_controls values now catalog)

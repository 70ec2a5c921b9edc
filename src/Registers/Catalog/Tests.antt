-- ===== src/Registers/Catalog/Tests.antt =====
-- Runs of the catalog of three-phase inverters.
use mathlib.Core.List.{Perm}
use srne_inverter_to_mqtt.Base.{ℕ, List, ◌++◌, ◌≡◌, refl, All, some}
use srne_inverter_to_mqtt.Base.Letters.{means}
use srne_inverter_to_mqtt.Base.Whole.{whole_numbers}
use srne_inverter_to_mqtt.Registers.Types.{Register, slow}
use srne_inverter_to_mqtt.Registers.PlanShape.{IsExact, Apart, registers_of}
use srne_inverter_to_mqtt.Registers.Catalog.Selection.{
  catalog_for_inverter_type, normalize_inverter_type,
}
use srne_inverter_to_mqtt.Registers.Catalog.Queries.{
  build_read_plan_for_inverter_type, find_by_id_for_inverter_type,
}
use srne_inverter_to_mqtt.Registers.Catalog.Laws.{
  IsPolled, IsLeftOut, build_read_plan-catalog, find_by_id-catalog,
}

three_phase_name : normalize_inverter_type " 3P" ≡ "spi_h3p"
unfolding normalize_inverter_type means
three_phase_name = refl

build_read_plan-catalog_example :
    let plan = build_read_plan_for_inverter_type whole_numbers slow "hesp" in
    (polled : List (Register ℕ)) × (left_out : List (Register ℕ)) × Perm
      (polled ++ left_out)
      (catalog_for_inverter_type whole_numbers "hesp")
    × Perm (registers_of plan) polled
    × All (IsPolled slow) polled
    × All (IsLeftOut slow) left_out
    × All IsExact plan
    × Apart plan
build_read_plan-catalog_example = build_read_plan-catalog whole_numbers slow "hesp"

find_by_id-catalog_example :
    All
      (λ (reg : Register _). find_by_id_for_inverter_type whole_numbers reg.id "spi" ≡ some reg)
      (catalog_for_inverter_type whole_numbers "spi")
find_by_id-catalog_example = find_by_id-catalog whole_numbers "spi"

-- ===== src/Registers/Plan.antt =====
-- internal/registers/catalog.go: `BuildReadPlanForRegisters` merges registers into ranges to read.
use srne_inverter_to_mqtt.Base.{
  ℕ, ◌+◌, ◌-◌, ◌%◌, ◌^◌, true, false, List, [], ◌∷◌, ◌++◌, ltb, leb, if◌then◌else◌,
}
use srne_inverter_to_mqtt.Registers.Types.{Register, ReadRange}

module _ {Num : Type 0} where
  -- `sort.Slice` by address, as an insertion sort.
  unfoldable pub insert_register : Register Num → List (Register Num) → List (Register Num)
  insert_register r [] = r ∷ []
  insert_register r (q ∷ qs) =
      if ltb q.address r.address then q ∷ insert_register r qs else r ∷ q ∷ qs

  unfoldable pub sort_by_address : List (Register Num) → List (Register Num)
  sort_by_address [] = []
  sort_by_address (r ∷ rs) = insert_register r (sort_by_address rs)

  -- The ends of ranges and of registers are sums of `uint16`.
  unfoldable pub range_end : ReadRange Num → ℕ
  range_end range = (range.start + range.count) % 2 ^ 16

  unfoldable pub register_end : Register Num → ℕ
  register_end reg = (reg.address + reg.count) % 2 ^ 16

  unfoldable pub single_range : Register Num → ReadRange Num
  single_range reg = record { start = reg.address; count = reg.count; registers = reg ∷ [] }

  unfoldable pub extend_range : ReadRange Num → Register Num → ReadRange Num
  extend_range current reg = record {
    start = current.start;
    count =
        if ltb (range_end current) (register_end reg)
        then (register_end reg + 2 ^ 16 - current.start) % 2 ^ 16
        else current.count;
    registers = current.registers ++ reg ∷ [];
  }

  -- The loop over the remaining registers, with the range that is still open.
  unfoldable pub merge_ranges : ReadRange Num → List (Register Num) → List (ReadRange Num)
  merge_ranges current [] = current ∷ []
  merge_ranges current (reg ∷ regs) = elim (leb reg.address (range_end current)) [
    | true ↦ merge_ranges (extend_range current reg) regs
    | false ↦ current ∷ merge_ranges (single_range reg) regs
  ]

  unfoldable pub plan_of_sorted : List (Register Num) → List (ReadRange Num)
  plan_of_sorted [] = []
  plan_of_sorted (reg ∷ regs) = merge_ranges (single_range reg) regs

  unfoldable pub build_read_plan : List (Register Num) → List (ReadRange Num)
  build_read_plan regs = plan_of_sorted (sort_by_address regs)

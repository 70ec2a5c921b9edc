-- ===== src/Registers/PlanShape.antt =====
-- The shape of the ranges of `BuildReadPlanForRegisters` of internal/registers/catalog.go.
use srne_inverter_to_mqtt.Base.{ℕ, ◌+◌, ◌^◌, ◌≤◌, ◌<◌, List, [], ◌∷◌, ◌++◌, ◌≡◌, All, ◌⊎◌}
use srne_inverter_to_mqtt.Registers.Types.{Register, ReadRange}

module _ {Num : Type 0} where
  -- The register's words lie below the last address, so that no sum wraps around.
  abbrev pub Fits : Register Num → Type 0
  Fits reg = reg.address + reg.count < 2 ^ 16

  abbrev pub Owns : ℕ → Register Num → Type 0
  Owns a reg = (reg.address ≤ a) × (a < reg.address + reg.count)

  abbrev pub OwnedBy : List (Register Num) → ℕ → Type 0
  OwnedBy [] a = ⊥
  OwnedBy (reg ∷ regs) a = Owns a reg ⊎ OwnedBy regs a

  abbrev pub Inside : ReadRange Num → Register Num → Type 0
  Inside range reg =
      (range.start ≤ reg.address) × (reg.address + reg.count ≤ range.start + range.count)

  -- The registers of a range lie in it, and every word of it belongs to one of them.
  pub record IsExact (range : ReadRange Num) : Type 0 where
    pub fits : range.start + range.count < 2 ^ 16
    pub covers : All (Inside range) range.registers
    pub filled :
        (a : ℕ) → range.start ≤ a → a < range.start + range.count → OwnedBy range.registers a

  abbrev pub Ascending : ℕ → List (Register Num) → Type 0
  Ascending low [] = Unit
  Ascending low (reg ∷ regs) = (low ≤ reg.address) × Ascending reg.address regs

  -- The ranges follow one another, with at least one word between two of them.
  abbrev pub Apart : List (ReadRange Num) → Type 0
  Apart [] = Unit
  Apart (r ∷ []) = Unit
  Apart (r ∷ q ∷ rest) = (r.start + r.count < q.start) × Apart (q ∷ rest)

  abbrev pub registers_of : List (ReadRange Num) → List (Register Num)
  registers_of [] = []
  registers_of (r ∷ rest) = r.registers ++ registers_of rest

  abbrev pub StartsAt : ℕ → List (ReadRange Num) → Type 0
  StartsAt start [] = ⊥
  StartsAt start (r ∷ rest) = r.start ≡ start

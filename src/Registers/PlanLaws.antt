-- ===== src/Registers/PlanLaws.antt =====
-- Lemmas about `BuildReadPlanForRegisters` of internal/registers/catalog.go.
use srne_inverter_to_mqtt.Base.{
  ℕ, ◌+◌, ◌^◌, ◌≤◌, ◌<◌, true, false, List, [], ◌∷◌, ◌++◌, leb, All, arith, ◌≡◌, refl, max, inl,
  inr, Bool-cases, ◌∙◌, ap,
}
use native.Mathlib.Decide.{dec_lt}
use mathlib.Core.List.{Perm, append_assoc}
use srne_inverter_to_mqtt.Registers.Types.{Register, ReadRange}
use srne_inverter_to_mqtt.Registers.Plan.{
  sort_by_address, range_end, register_end, single_range, extend_range, merge_ranges,
  build_read_plan, plan_of_sorted,
}
use srne_inverter_to_mqtt.Registers.PlanShape.{
  Fits, Owns, OwnedBy, Inside, IsExact, Ascending, Apart, registers_of, StartsAt,
}
use srne_inverter_to_mqtt.Registers.PlanSort.{sort-perm, sort-Ascending, sort-Fits}

module _ {Num : Type 0} where
  extend_end :
      (current : ReadRange Num) (reg : Register Num)
      → current.start + current.count < 2 ^ 16
      → Fits reg
      → current.start ≤ reg.address
      → current.start + (extend_range current reg).count
        ≡ max (current.start + current.count) (reg.address + reg.count)
  unfolding extend_range range_end register_end
  extend_end current reg h k low = ground arith

  OwnedBy-left :
      (regs more : List (Register Num)) (a : ℕ) → OwnedBy regs a → OwnedBy (regs ++ more) a
  OwnedBy-left [] more a h = absurd h
  OwnedBy-left (r ∷ regs) more a (inl h) = inl h
  OwnedBy-left (r ∷ regs) more a (inr h) = inr (OwnedBy-left regs more a h)

  OwnedBy-last :
      (regs : List (Register Num)) (reg : Register Num) (a : ℕ)
      → Owns a reg
      → OwnedBy (regs ++ reg ∷ []) a
  OwnedBy-last [] reg a h = inl h
  OwnedBy-last (r ∷ regs) reg a h = inr (OwnedBy-last regs reg a h)

  All-Inside-last :
      (range : ReadRange Num) (regs : List (Register Num)) (reg : Register Num)
      → All (Inside range) regs
      → Inside range reg
      → All (Inside range) (regs ++ reg ∷ [])
  All-Inside-last range [] reg h k = (k, tt)
  All-Inside-last range (r ∷ regs) reg h k = (h.0, All-Inside-last range regs reg h.1 k)

  All-Inside-wider :
      (narrow wide : ReadRange Num) (regs : List (Register Num))
      → narrow.start ≡ wide.start
      → narrow.count ≤ wide.count
      → All (Inside narrow) regs
      → All (Inside wide) regs
  All-Inside-wider narrow wide [] s c h = tt
  All-Inside-wider narrow wide (r ∷ regs) s c h =
      ((omega arith, omega arith), All-Inside-wider narrow wide regs s c h.1)

  single-IsExact : (reg : Register Num) → Fits reg → IsExact (single_range reg)
  unfolding single_range
  single-IsExact reg h = record {
    fits = h;
    covers = ((omega arith, omega arith), tt);
    filled = λ a low high. inl (low, high);
  }

  extend-IsExact :
      (current : ReadRange Num) (reg : Register Num)
      → IsExact current
      → Fits reg
      → current.start ≤ reg.address
      → reg.address ≤ current.start + current.count
      → IsExact (extend_range current reg)
  extend-IsExact current reg exact h low joined =
      let grown : current.start + (extend_range current reg).count
          ≡ max (current.start + current.count) (reg.address + reg.count) =
        extend_end current reg exact.fits h low in
      unfold extend_range in
      record {
        fits = omega (arith, grown, exact.fits);
        covers =
            All-Inside-last (extend_range current reg) current.registers reg
              (All-Inside-wider current (extend_range current reg) current.registers refl
                (omega (arith, grown)) exact.covers)
              (low, omega (arith, grown));
        filled = λ a start below. elim (dec_lt a (current.start + current.count)) [
          | yes old ↦ OwnedBy-left current.registers (reg ∷ []) a (exact.filled a start old)
          | no new ↦ OwnedBy-last current.registers reg a (omega arith, omega (arith, grown))
        ];
      }

  Ascending-lower :
      (low high : ℕ) (regs : List (Register Num))
      → low ≤ high
      → Ascending high regs
      → Ascending low regs
  Ascending-lower low high [] h k = tt
  Ascending-lower low high (reg ∷ regs) h k = (omega arith, k.1)

  Apart-cons :
      (current : ReadRange Num) (next : ℕ) (plan : List (ReadRange Num))
      → current.start + current.count < next
      → StartsAt next plan
      → Apart plan
      → Apart (current ∷ plan)
  Apart-cons current next [] gap starts apart = tt
  Apart-cons current next (r ∷ rest) gap starts apart = (omega arith, apart)

  range_end-le :
      (current : ReadRange Num) (reg : Register Num)
      → current.start + current.count < 2 ^ 16
      → leb reg.address (range_end current) ≡ true
      → reg.address ≤ current.start + current.count
  unfolding range_end
  range_end-le current reg h e = ground arith

  range_end-lt :
      (current : ReadRange Num) (reg : Register Num)
      → current.start + current.count < 2 ^ 16
      → leb reg.address (range_end current) ≡ false
      → current.start + current.count < reg.address
  unfolding range_end
  range_end-lt current reg h e = ground arith

  -- What the loop returns from an open range and the registers that are left.
  record Merged (current : ReadRange Num) (regs : List (Register Num)) (plan : List (ReadRange Num))
      : Type 0 where
    exact : All IsExact plan
    apart : Apart plan
    starts : StartsAt current.start plan
    kept : registers_of plan ≡ current.registers ++ regs

  merge_ranges-Merged :
      (current : ReadRange Num) (regs : List (Register Num))
      → IsExact current
      → All Fits regs
      → Ascending current.start regs
      → Merged current regs (merge_ranges current regs)
  unfolding merge_ranges extend_range single_range
  merge_ranges-Merged current [] exact fits order = record {
    exact = (exact, tt);
    apart = tt;
    starts = refl;
    kept = refl;
  }
  merge_ranges-Merged current (reg ∷ regs) exact fits order =
      elim (Bool-cases (leb reg.address (range_end current))) [
        | inl joined ↦
            let rest =
              merge_ranges-Merged (extend_range current reg) regs
                (extend-IsExact current reg exact fits.0 order.0
                  (range_end-le current reg exact.fits joined))
                fits.1 (Ascending-lower current.start reg.address regs order.0 order.1) in
            rw (joined, merge_ranges)
              (record {
                exact = rest.exact;
                apart = rest.apart;
                starts = rest.starts;
                kept = rest.kept ∙ append_assoc current.registers (reg ∷ []) regs;
              })
        | inr gap ↦
            let rest =
              merge_ranges-Merged (single_range reg) regs (single-IsExact reg fits.0) fits.1
                order.1 in
            rw (gap, merge_ranges)
              (record {
                exact = (exact, rest.exact);
                apart =
                    Apart-cons current reg.address _ (range_end-lt current reg exact.fits gap)
                      rest.starts rest.apart;
                starts = refl;
                kept = ap (λ (t : List (Register Num)). current.registers ++ t) rest.kept;
              })
      ]

  plan_of_sorted_lem :
      (regs : List (Register Num))
      → All Fits regs
      → Ascending 0 regs
      → (registers_of (plan_of_sorted regs) ≡ regs)
        × All IsExact (plan_of_sorted regs)
        × Apart (plan_of_sorted regs)
  unfolding plan_of_sorted single_range
  plan_of_sorted_lem [] h order = (refl, tt, tt)
  plan_of_sorted_lem (reg ∷ regs) h order =
      let merged =
        merge_ranges-Merged (single_range reg) regs (single-IsExact reg h.0) h.1 order.1 in
      (merged.kept, merged.exact, merged.apart)

  -- For registers whose words all end below 65536, the ranges of the read plan hold exactly the
  -- given registers in some order, each register lies inside its range, every word of a range
  -- belongs to one of its registers, and the ranges ascend with a gap between any two.
  pub build_read_plan_lem :
      (regs : List (Register Num))
      → All Fits regs
      → Perm (registers_of (build_read_plan regs)) regs
        × All IsExact (build_read_plan regs)
        × Apart (build_read_plan regs)
  unfolding build_read_plan
  build_read_plan_lem regs h =
      let done =
        plan_of_sorted_lem (sort_by_address regs) (sort-Fits regs h) (sort-Ascending regs) in
      (rw done.0 (sort-perm regs), done.1, done.2)

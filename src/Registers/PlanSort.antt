-- ===== src/Registers/PlanSort.antt =====
-- Lemmas about the sort in `BuildReadPlanForRegisters` of internal/registers/catalog.go.
use srne_inverter_to_mqtt.Base.{ℕ, ◌≤◌, List, [], ◌∷◌, ltb, All, arith, inl, inr, Bool-cases}
use mathlib.Core.List.{Perm}
use mathlib.Core.List.Perm
use srne_inverter_to_mqtt.Registers.Types.{Register}
use srne_inverter_to_mqtt.Registers.Plan.{insert_register, sort_by_address}
use srne_inverter_to_mqtt.Registers.PlanShape.{Fits, Ascending}

module _ {Num : Type 0} where
  insert-perm : (r : Register Num) (rs : List (Register Num)) → Perm (insert_register r rs) (r ∷ rs)
  unfolding insert_register
  insert-perm r [] = Perm.refl _
  insert-perm r (q ∷ qs) = elim (Bool-cases (ltb q.address r.address)) [
    | inl less ↦ rw less (Perm.trans (Perm.cons q (insert-perm r qs)) (Perm.swap r q qs))
    | inr more ↦ rw more (Perm.refl _)
  ]

  pub sort-perm : (rs : List (Register Num)) → Perm (sort_by_address rs) rs
  unfolding sort_by_address
  sort-perm [] = Perm.refl _
  sort-perm (r ∷ rs) = Perm.trans (insert-perm r (sort_by_address rs)) (Perm.cons r (sort-perm rs))

  insert-Ascending :
      (low : ℕ) (r : Register Num) (rs : List (Register Num))
      → low ≤ r.address
      → Ascending low rs
      → Ascending low (insert_register r rs)
  unfolding insert_register
  insert-Ascending low r [] h k = (h, tt)
  insert-Ascending low r (q ∷ qs) h k = elim (Bool-cases (ltb q.address r.address)) [
    | inl less ↦ rw less (k.0, insert-Ascending q.address r qs (ground arith) k.1)
    | inr more ↦ rw more (h, (ground arith, k.1))
  ]

  pub sort-Ascending : (rs : List (Register Num)) → Ascending 0 (sort_by_address rs)
  unfolding sort_by_address
  sort-Ascending [] = tt
  sort-Ascending (r ∷ rs) =
      insert-Ascending 0 r (sort_by_address rs) (omega arith) (sort-Ascending rs)

  insert-Fits :
      (r : Register Num) (rs : List (Register Num))
      → Fits r
      → All Fits rs
      → All Fits (insert_register r rs)
  unfolding insert_register
  insert-Fits r [] h k = (h, tt)
  insert-Fits r (q ∷ qs) h k = elim (Bool-cases (ltb q.address r.address)) [
    | inl less ↦ rw less (k.0, insert-Fits r qs h k.1)
    | inr more ↦ rw more (h, k)
  ]

  pub sort-Fits : (rs : List (Register Num)) → All Fits rs → All Fits (sort_by_address rs)
  unfolding sort_by_address
  sort-Fits [] h = tt
  sort-Fits (r ∷ rs) h = insert-Fits r (sort_by_address rs) h.0 (sort-Fits rs h.1)

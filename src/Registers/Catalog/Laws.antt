-- ===== src/Registers/Catalog/Laws.antt =====
-- Lemmas about the catalogs of internal/registers/catalog.go, their groups, plans and lookups.
use srne_inverter_to_mqtt.Base.{
  String, Bool, true, false, ◌&&◌, not, ◌++◌, ◌≢◌, ◌⊎◌, ◌↔◌, inl, inr, Bool-cases, List, [], ◌∷◌,
  Option, some, All, ◌≡◌, refl, if_cases, arith, ltb→lt,
}
use srne_inverter_to_mqtt.Base.Float.{Float64}
use mathlib.Core.List.{Perm}
use mathlib.Core.List.Perm
use mathlib.Core.List.{perm_middle}
use text.Mathlib.Text.{◌==◌ as str_eq}
use text.Mathlib.TextEquality.{eq_iff}
use srne_inverter_to_mqtt.Registers.Types.{Register, PollGroup, fast, slow}
use srne_inverter_to_mqtt.Registers.PlanShape.{Fits, IsExact, Apart, registers_of}
use srne_inverter_to_mqtt.Registers.PlanSort.{sort-perm, sort-Fits}
use srne_inverter_to_mqtt.Registers.PlanLaws.{build_read_plan_lem}
use srne_inverter_to_mqtt.Registers.Catalog.Selection.{
  catalog_for_inverter_type, is_three_phase_inverter_type,
}
use srne_inverter_to_mqtt.Registers.Catalog.Queries.{
  same_group, is_polled, is_critical, filter_registers, find_in, by_group_for_inverter_type,
  build_read_plan_for_inverter_type, build_critical_fast_read_plan_for_inverter_type,
  find_by_id_for_inverter_type,
}
use srne_inverter_to_mqtt.Registers.Catalog.Facts.{
  all_fit, is_free, all_distinct, is_sound, catalog-is_sound,
}

and_left : (a b : Bool) → a && b ≡ true → a ≡ true
and_left true b h = refl
and_left false b h = h

and_right : (a b : Bool) → a && b ≡ true → b ≡ true
and_right true b h = h
and_right false b h = absurd cc

not-true : (b : Bool) → not b ≡ true → b ≡ true → ⊥
not-true true h k = absurd cc
not-true false h k = absurd cc

same_group-eq : (g h : PollGroup) → (same_group g h ≡ true) ↔ (g ≡ h)
unfolding same_group
same_group-eq fast fast = (λ _. refl, λ _. refl)
same_group-eq slow slow = (λ _. refl, λ _. refl)
same_group-eq fast slow = (λ h. absurd cc, λ e. absurd cc)
same_group-eq slow fast = (λ h. absurd cc, λ e. absurd cc)

module _ {Num : Type 0} where
  is_sound_parts :
      (rs : List (Register Num))
      → is_sound rs ≡ true
      → (all_fit rs ≡ true) × (all_distinct rs ≡ true)
  unfolding is_sound
  is_sound_parts rs h = ground arith

  all_fit-Fits : (rs : List (Register Num)) → all_fit rs ≡ true → All Fits rs
  unfolding all_fit
  all_fit-Fits [] h = tt
  all_fit-Fits (r ∷ rs) h = (ltb→lt _ _ (and_left _ _ h), all_fit-Fits rs (and_right _ _ h))

  filter-Fits :
      (test : Register Num → Bool) (rs : List (Register Num))
      → All Fits rs
      → All Fits (filter_registers test rs)
  unfolding filter_registers
  filter-Fits test [] h = tt
  filter-Fits test (r ∷ rs) h =
      if_cases (λ (qs : List (Register Num)). All Fits qs) (test r)
        (λ _. (h.0, filter-Fits test rs h.1)) (λ _. filter-Fits test rs h.1)

  -- A register of the group that a poll reads, and one that it leaves out.
  pub record IsPolled (group : PollGroup) (reg : Register Num) : Type 0 where
    pub same_group : reg.group ≡ group
    pub readable : reg.write_only ≡ false
    pub real : reg.synthetic ≡ false

  abbrev pub IsLeftOut : PollGroup → Register Num → Type 0
  IsLeftOut group reg = (reg.group ≢ group) ⊎ ((reg.write_only ≡ true) ⊎ (reg.synthetic ≡ true))

  is_polled-IsPolled :
      (group : PollGroup) (reg : Register Num) → is_polled group reg ≡ true → IsPolled group reg
  unfolding is_polled
  is_polled-IsPolled group reg h = record {
    same_group = (same_group-eq reg.group group).0 (ground arith);
    readable = ground arith;
    real = ground arith;
  }

  is_polled-IsLeftOut :
      (group : PollGroup) (reg : Register Num)
      → not (is_polled group reg) ≡ true
      → IsLeftOut group reg
  unfolding is_polled
  is_polled-IsLeftOut group reg h = elim (Bool-cases (same_group reg.group group)) [
    | inl same ↦ inr (ground arith)
    | inr other ↦ inl (λ e. ground (arith, (same_group-eq reg.group group).1 e))
  ]

  filter-All :
      (test : Register Num → Bool) (P : Register Num → Type 0)
      → ((reg : Register Num) → test reg ≡ true → P reg)
      → (rs : List (Register Num)) → All P (filter_registers test rs)
  unfolding filter_registers
  filter-All test P f [] = tt
  filter-All test P f (r ∷ rs) =
      if_cases (λ (qs : List (Register Num)). All P qs) (test r)
        (λ good. (f r good, filter-All test P f rs)) (λ bad. filter-All test P f rs)

  abbrev rejects : (Register Num → Bool) → Register Num → Bool
  rejects test reg = not (test reg)

  filter-parts :
      (test : Register Num → Bool) (rs : List (Register Num))
      → Perm (filter_registers test rs ++ filter_registers (rejects test) rs) rs
  unfolding filter_registers
  filter-parts test [] = Perm.refl _
  filter-parts test (r ∷ rs) = elim (Bool-cases (test r)) [
    | inl good ↦ rw good (Perm.cons r (filter-parts test rs))
    | inr bad ↦ rw bad (
        Perm.trans (perm_middle (filter_registers test rs) (filter_registers (rejects test) rs))
          (Perm.cons r (filter-parts test rs)))
  ]

  -- Each of the registers is the one that its identifier finds.
  abbrev FoundIn : List (Register Num) → Register Num → Type 0
  FoundIn rs r = find_in rs r.id ≡ some r

  FoundIn-cons :
      (r : Register Num) (rs qs : List (Register Num))
      → is_free r.id qs ≡ true
      → All (FoundIn rs) qs
      → All (FoundIn (r ∷ rs)) qs
  unfolding find_in is_free
  FoundIn-cons r rs [] h k = tt
  FoundIn-cons r rs (q ∷ qs) h k = (
    if_cases (λ (o : Option (Register Num)). o ≡ some q) (str_eq r.id q.id)
        (λ e. absurd (not-true _ (and_left _ _ h) e)) (λ _. k.0),
    FoundIn-cons r rs qs (and_right _ _ h) k.1,
  )

  all_distinct-FoundIn : (rs : List (Register Num)) → all_distinct rs ≡ true → All (FoundIn rs) rs
  unfolding all_distinct find_in
  all_distinct-FoundIn [] h = tt
  all_distinct-FoundIn (r ∷ rs) h = (
    rw ((eq_iff r.id r.id).1 refl) refl,
    FoundIn-cons r rs rs (and_left _ _ h) (all_distinct-FoundIn rs (and_right _ _ h)),
  )

module _ {Num : Type 0} (F : Float64 Num) where
  catalog-Fits : (t : String) → All Fits (catalog_for_inverter_type F t)
  catalog-Fits t = all_fit-Fits _ (is_sound_parts _ (catalog-is_sound F t)).0

  -- For every text as the type of the inverter and both groups, the catalog falls into registers
  -- that are all of the group, not write-only and not synthetic, and registers that are each of the
  -- other group, write-only or synthetic; the read plan holds exactly the first ones, and its
  -- ranges lie below address 65536, hold their registers and no word that belongs to none, and
  -- ascend with a gap between any two.
  pub build_read_plan-catalog :
      (group : PollGroup) (t : String)
      → let plan = build_read_plan_for_inverter_type F group t in
        (polled : List (Register Num)) × (left_out : List (Register Num)) × Perm
          (polled ++ left_out)
          (catalog_for_inverter_type F t)
        × Perm (registers_of plan) polled
        × All (IsPolled group) polled
        × All (IsLeftOut group) left_out
        × All IsExact plan
        × Apart plan
  unfolding build_read_plan_for_inverter_type by_group_for_inverter_type
  build_read_plan-catalog group t =
      let catalog = catalog_for_inverter_type F t in
      let kept = filter-Fits (is_polled group) catalog (catalog-Fits t) in
      let done = build_read_plan_lem (by_group_for_inverter_type F group t) (sort-Fits _ kept) in
      (
        filter_registers (is_polled group) catalog,
        filter_registers (rejects (is_polled group)) catalog,
        filter-parts (is_polled group) catalog,
        Perm.trans done.0 (sort-perm _),
        filter-All (is_polled group) (IsPolled group) (is_polled-IsPolled group) catalog,
        filter-All (rejects (is_polled group)) (IsLeftOut group) (is_polled-IsLeftOut group)
            catalog,
        done.1,
        done.2,
      )

  -- For every text as the type of the inverter, the critical plan holds exactly the critical
  -- registers of the fast group, its ranges lie below address 65536, hold their registers and no
  -- word that belongs to none, and ascend with a gap between any two.
  pub build_critical_fast_read_plan-catalog :
      (t : String)
      → Perm (registers_of (build_critical_fast_read_plan_for_inverter_type F t)) (
          filter_registers
            (λ (reg : Register Num). is_critical (is_three_phase_inverter_type t) reg.id)
            (by_group_for_inverter_type F fast t))
        × All IsExact (build_critical_fast_read_plan_for_inverter_type F t)
        × Apart (build_critical_fast_read_plan_for_inverter_type F t)
  unfolding build_critical_fast_read_plan_for_inverter_type by_group_for_inverter_type
  build_critical_fast_read_plan-catalog t =
      let kept = filter-Fits (is_polled fast) (catalog_for_inverter_type F t) (catalog-Fits t) in
      build_read_plan_lem _ (filter-Fits _ _ (sort-Fits _ kept))

  -- For every text as the type of the inverter, FindByIDForInverterType finds each register of the
  -- catalog by its own identifier.
  pub find_by_id-catalog :
      (t : String)
      → All
          (λ (reg : Register Num). find_by_id_for_inverter_type F reg.id t ≡ some reg)
          (catalog_for_inverter_type F t)
  unfolding find_by_id_for_inverter_type
  find_by_id-catalog t = all_distinct-FoundIn _ (is_sound_parts _ (catalog-is_sound F t)).1

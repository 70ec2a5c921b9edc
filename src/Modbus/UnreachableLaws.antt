-- ===== src/Modbus/UnreachableLaws.antt =====
-- Lemmas about the poll cycle of internal/modbus/service.go when no connection can be opened.
use srne_inverter_to_mqtt.Base.{
  ℕ, ◌≤◌, Bool, none, List, [], ◌∷◌, length, Result, ok, err, ◌≡◌, refl, sym, Option-cases, subst,
  inl, inr, arith,
}
use srne_inverter_to_mqtt.Base.Float.{Float64}
use srne_inverter_to_mqtt.Config.Types.{Config}
use srne_inverter_to_mqtt.Registers.Types.{ReadRange}
use srne_inverter_to_mqtt.Modbus.Types.{BusError, Link, Bus}
use srne_inverter_to_mqtt.Modbus.Connection.{
  open_client, close_locked, keep_client, reopen, ensure_client,
}
use srne_inverter_to_mqtt.Modbus.Polling.{
  PollError, Cycle, note_error, note_open_failure, poll_ranges, empty_cycle, range_failed,
}

module _ {S C E Num : Type 0} (link : Link S C E) (fl : Float64 Num) (cfg : Config Num)
    (now : ℕ) where
  -- Opening the connection fails, whatever the state of the world.
  abbrev pub IsUnreachable : Type 0
  IsUnreachable = (s : S) → (e : BusError E) × ((open_client link cfg s).0 ≡ err e)

  keep_client-failed :
      (bus : Bus S C) (r : Result (BusError E) C × S) (e : BusError E)
      → r.0 ≡ err e
      → bus.client ≡ none
      → ((keep_client link cfg bus r).0 ≡ err e) × ((keep_client link cfg bus r).1.client ≡ none)
  unfolding keep_client
  keep_client-failed bus (ok c, s) e h closed = absurd cc
  keep_client-failed bus (err x, s) e h closed = (h, closed)

  close_locked-client : (bus : Bus S C) → (close_locked link cfg bus).client ≡ none
  unfolding close_locked
  close_locked-client bus = elim (Option-cases bus.client) [
    | inl idle ↦ rw (idle, close_locked) refl
    | inr (c, opened) ↦ rw (opened, close_locked) refl
  ]

  -- A client that could not be opened, and no client left.
  abbrev Refused : Result (BusError E) C × Bus S C → Type 0
  Refused r = (e : BusError E) × (r.0 ≡ err e) × (r.1.client ≡ none)

  reopen-failed : IsUnreachable → (bus : Bus S C) → Refused (reopen link cfg bus)
  unfolding reopen
  reopen-failed never bus =
      let tried = never (close_locked link cfg bus).outside in
      let kept =
        keep_client-failed (close_locked link cfg bus) _ tried.0 tried.1
          (close_locked-client bus) in
      (tried.0, kept.0, kept.1)

  ensure_client-reopen :
      (bus : Bus S C) → bus.client ≡ none → ensure_client link cfg bus ≡ reopen link cfg bus
  unfolding ensure_client
  ensure_client-reopen bus closed = ground arith

  ensure_client-failed :
      IsUnreachable → (bus : Bus S C) → bus.client ≡ none → Refused (ensure_client link cfg bus)
  ensure_client-failed never bus closed =
      subst Refused (sym (ensure_client-reopen bus closed)) (reopen-failed never bus)

  abbrev Short : Cycle E Num × Bus S C → Type 0
  Short r = (r.0.values ≡ []) × (length r.0.errors ≤ 3)

  second_open-Short :
      (again : Bool) (plan : List (ReadRange Num)) (bus : Bus S C) (e : PollError E)
      → IsUnreachable
      → bus.client ≡ none
      → Short (
          poll_ranges link fl cfg again now plan bus
            (record { values = []; errors = e ∷ []; open_failures = 1 }))
  unfolding poll_ranges note_open_failure note_error
  second_open-Short again [] bus e never closed = (refl, omega arith)
  second_open-Short again (range ∷ ranges) bus e never closed =
      let tried = ensure_client-failed never bus closed in
      rw (tried.1, poll_ranges) (refl, omega arith)

  -- When no connection can be opened, whatever the state of the world, and none is open, a poll
  -- cycle over a plan of any length ends without a value and with at most three errors noted.
  pub poll_ranges-unreachable :
      (again : Bool) (plan : List (ReadRange Num)) (bus : Bus S C)
      → IsUnreachable
      → bus.client ≡ none
      → ((poll_ranges link fl cfg again now plan bus (empty_cycle link fl cfg)).0.values ≡ [])
        × (length (poll_ranges link fl cfg again now plan bus (empty_cycle link fl cfg)).0.errors
            ≤ 3)
  unfolding poll_ranges note_open_failure note_error
  poll_ranges-unreachable again [] bus never closed = (refl, omega arith)
  poll_ranges-unreachable again (range ∷ ranges) bus never closed =
      let tried = ensure_client-failed never bus closed in
      rw (tried.1, poll_ranges)
        (second_open-Short again ranges (ensure_client link cfg bus).1
          (range_failed range.start range.count tried.0) never tried.2)

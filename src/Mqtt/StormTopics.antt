-- ===== src/Mqtt/StormTopics.antt =====
-- internal/mqtt/service.go: `publishStormCharge`.
use srne_inverter_to_mqtt.Base.{
  ℕ, ◌+◌, ◌/◌, ◌%◌, ◌==◌, ◌-◌, String, none, some, List, [], ◌∷◌, ok, err, if◌then◌else◌,
}
use srne_inverter_to_mqtt.Base.Int.{ℤ, pos, negsuc}
use srne_inverter_to_mqtt.Base.Float.{Float64}
use srne_inverter_to_mqtt.Base.Text.{decimal_ℤ}
use srne_inverter_to_mqtt.Config.Types.{Config, minute}
use srne_inverter_to_mqtt.Mqtt.Types.{Broker, Mqtt}
use srne_inverter_to_mqtt.Mqtt.Topics.{state_topic}
use srne_inverter_to_mqtt.Mqtt.Provider.{StormStatus}
use srne_inverter_to_mqtt.Mqtt.Publish.{Published, get_last_published, is_published, publish_noted}

-- A quotient or remainder of whole numbers, towards zero.
abbrev with_sign : ℤ → (ℕ → ℕ) → ℤ
with_sign (pos n) f = pos (f n)
with_sign (negsuc n) f = if f (n + 1) == 0 then pos 0 else negsuc (f (n + 1) - 1)

module _ {Num : Type 0} (fl : Float64 Num) where
  -- `d.Minutes()`: the whole minutes, and the nanoseconds that are left as a part of a minute.
  unfoldable pub minutes : ℤ → Num
  minutes d =
      fl.add (fl.of_ℤ (with_sign d (λ n. n / minute)))
        (fl.div (fl.of_ℤ (with_sign d (λ n. n % minute))) (fl.of_ℤ (pos minute)))

  -- The entries of the map in the order of the source.
  unfoldable pub storm_values : StormStatus Num → List (String × String)
  storm_values status =
      ("storm_charge_active", if status.active then "ON" else "OFF")
      ∷ ("storm_charge_status", status.phase)
      ∷ ("storm_charge_target_soc", decimal_ℤ status.settings.target_soc)
      ∷ ("storm_charge_max_current", fl.format status.settings.max_current_a 1)
      ∷ ("storm_charge_timeout_minutes", fl.format (minutes status.settings.timeout) 0)
      ∷ ("storm_charge_estimated_power", decimal_ℤ status.estimated_power_watts)
      ∷ ("storm_charge_remaining", status.remaining)
      ∷ ("storm_charge_reason", status.reason)
      ∷ ("storm_charge_deadline", elim status.deadline [ none ↦ "" | some t ↦ t ])
      ∷ []

module _ {S C E Num : Type 0} (broker : Broker S C E) (cfg : Config Num) where
  unfoldable pub publish_entry : String × String → Mqtt S C → Published broker cfg
  publish_entry (id, payload) s =
      let topic = state_topic cfg.mqtt id in
      let done = publish_noted broker cfg topic payload s in
      if is_published (get_last_published s.last_published topic) payload then (ok tt, s) else done

  unfoldable pub publish_entries : List (String × String) → Mqtt S C → Published broker cfg
  publish_entries [] s = (ok tt, s)
  publish_entries (entry ∷ entries) s =
      let (result, after) = publish_entry entry s in
      elim result [ err e ↦ (err e, after) | ok _ ↦ publish_entries entries after ]

  -- A map is gone through in an order of the runtime's choice, which `order` stands for.
  unfoldable pub publish_storm_charge :
      Float64 Num
      → (List (String × String) → List (String × String))
      → StormStatus Num
      → Mqtt S C
      → Published broker cfg
  publish_storm_charge fl order status s = publish_entries (order (storm_values fl status)) s

-- ===== src/Mqtt/CommandLaws.antt =====
-- Lemmas about the commands of internal/mqtt/service.go and the application behind them.
use srne_inverter_to_mqtt.Base.{
  ℕ, String, Bool, true, false, Option, none, some, List, Result, ok, err, if◌then◌else◌, ◌≡◌,
  if_cases, Option-cases, inl, inr,
}
use package.text.Mathlib.Text.{◌==◌ as str_eq}
use srne_inverter_to_mqtt.Base.Float.{Float64}
use srne_inverter_to_mqtt.Base.Letters.{same_codes}
use srne_inverter_to_mqtt.Mqtt.Topics.{command_topic}
use srne_inverter_to_mqtt.Base.Numeral.{parse_int}
use srne_inverter_to_mqtt.Config.Types.{Config}
use srne_inverter_to_mqtt.Registers.Types.{text}
use srne_inverter_to_mqtt.Storm.Types.{Settings}
use srne_inverter_to_mqtt.Mqtt.Types.{Broker, Mqtt}
use srne_inverter_to_mqtt.Mqtt.Provider.{Provider}
use srne_inverter_to_mqtt.Mqtt.Commands.{
  Commanded, Handled, trimmed, is_upper, by_provider, switch_storm_charge, set_target_soc,
  set_max_current, set_timeout, storm_command, report_storm_charge, handle_storm_charge_command,
}

module _ {P A S C E Num : Type 0} (provider : Provider P A Num) (broker : Broker S C E)
    (fl : Float64 Num) (cfg : Config Num) (Good : P → Type 0) where
  -- What the provider's operations on a storm charge session do to one state.
  pub record Steady (payload : String) (p : P) : Type 0 where
    pub same : Good p
    pub updated :
        (settings : Settings Num) → Good (provider.update_storm_charge_settings settings p).1
    pub started : (settings : Settings Num) → Good (provider.start_storm_charge settings p).1
    pub stopped : is_upper payload "OFF" ≡ true → Good (provider.cancel_storm_charge p).1

  abbrev Ends : Commanded provider broker fl cfg → Type 0
  Ends r = Good r.1

  abbrev Holds : Option (Commanded provider broker fl cfg) → Type 0
  Holds none = Unit
  Holds (some r) = Good r.1

  abbrev pub Leaves : Handled provider broker fl cfg → Type 0
  Leaves r = Good r.1

  by_provider-Good :
      (r : Result A (Unit {0}) × P) → Good r.1 → Ends (by_provider provider broker fl cfg r)
  unfolding by_provider
  by_provider-Good (ok _, p) h = h
  by_provider-Good (err e, p) h = h

  switch-Good :
      (payload : String) (p : P)
      → Steady payload p
      → Ends (switch_storm_charge provider broker fl cfg payload p)
  unfolding switch_storm_charge
  switch-Good payload p steady =
      if_cases Ends (is_upper payload "ON") (λ on. by_provider-Good _ (steady.started _))
        (λ other.
          if_cases Ends (is_upper payload "OFF") (λ off. by_provider-Good _ (steady.stopped off))
            (λ neither. steady.same))

  set_target_soc-Good :
      (payload : String) (p : P)
      → Steady payload p
      → Ends (set_target_soc provider broker fl cfg payload p)
  unfolding set_target_soc
  set_target_soc-Good payload p steady = elim (Option-cases (parse_int payload)) [
    | inl bad ↦ simp (bad, set_target_soc) steady.same
    | inr (n, good) ↦ simp (good, set_target_soc) (by_provider-Good _ (steady.updated _))
  ]

  set_max_current-Good :
      (payload : String) (p : P)
      → Steady payload p
      → Ends (set_max_current provider broker fl cfg payload p)
  unfolding set_max_current
  set_max_current-Good payload p steady = elim (Option-cases (fl.parse payload)) [
    | inl bad ↦ simp (bad, set_max_current) steady.same
    | inr (n, good) ↦ simp (good, set_max_current) (by_provider-Good _ (steady.updated _))
  ]

  set_timeout-Good :
      (payload : String) (p : P)
      → Steady payload p
      → Ends (set_timeout provider broker fl cfg payload p)
  unfolding set_timeout
  set_timeout-Good payload p steady = elim (Option-cases (fl.parse payload)) [
    | inl bad ↦ simp (bad, set_timeout) steady.same
    | inr (n, good) ↦ simp (good, set_timeout) (by_provider-Good _ (steady.updated _))
  ]

  pick-Holds :
      (a b c d : Bool) (x y z v : Commanded provider broker fl cfg)
      → Ends x
      → Ends y
      → Ends z
      → Ends v
      → Holds (
          if a
          then some x
          else if b
          then some y
          else if c
          then some z
          else if d
          then some v
          else none)
  pick-Holds true b c d x y z v h k l m = h
  pick-Holds false true c d x y z v h k l m = k
  pick-Holds false false true d x y z v h k l m = l
  pick-Holds false false false true x y z v h k l m = m
  pick-Holds false false false false x y z v h k l m = tt

  storm_command-Good :
      (topic : List ℕ) (payload : String) (p : P)
      → Steady payload p
      → Holds (storm_command provider broker fl cfg topic payload p)
  unfolding storm_command
  storm_command-Good topic payload p steady =
      pick-Holds (same_codes topic (command_topic cfg.mqtt "storm_charge"))
        (same_codes topic (command_topic cfg.mqtt "storm_charge_target_soc"))
        (same_codes topic (command_topic cfg.mqtt "storm_charge_max_current"))
        (same_codes topic (command_topic cfg.mqtt "storm_charge_timeout_minutes"))
        (switch_storm_charge provider broker fl cfg payload p)
        (set_target_soc provider broker fl cfg payload p)
        (set_max_current provider broker fl cfg payload p)
        (set_timeout provider broker fl cfg payload p) (switch-Good payload p steady)
        (set_target_soc-Good payload p steady) (set_max_current-Good payload p steady)
        (set_timeout-Good payload p steady)

  report_storm_charge-Good :
      (order : List (String × String) → List (String × String))
      (r : Commanded provider broker fl cfg) (s : Mqtt S C)
      → Good r.1
      → Leaves (report_storm_charge provider broker fl cfg order r s)
  unfolding report_storm_charge
  report_storm_charge-Good order (ok _, p) s h = h
  report_storm_charge-Good order (err e, p) s h = h

  reported-Good :
      (order : List (String × String) → List (String × String)) (p : P) (s : Mqtt S C)
      (o : Option (Commanded provider broker fl cfg))
      → Good p
      → Holds o
      → Leaves (elim o [
        | none ↦ (false, p, s)
        | some done ↦ report_storm_charge provider broker fl cfg order done s
      ])
  reported-Good order p s none same h = same
  reported-Good order p s (some r) same h = report_storm_charge-Good order r s h

  pub handle_storm_charge_command-Good :
      (order : List (String × String) → List (String × String)) (topic : List ℕ) (payload : String)
      (p : P) (s : Mqtt S C)
      → Steady (trimmed payload) p
      → Leaves (handle_storm_charge_command provider broker fl cfg order topic payload p s)
  unfolding handle_storm_charge_command
  handle_storm_charge_command-Good order topic payload p s steady =
      if_cases Leaves (str_eq (trimmed payload) "") (λ empty. steady.same)
        (λ some_text.
          reported-Good order p s _ steady.same
            (storm_command-Good topic (trimmed payload) p steady))

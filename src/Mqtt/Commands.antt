-- ===== src/Mqtt/Commands.antt =====
-- internal/mqtt/service.go: the routes of `subscribeCommands`, `handleCommand` and
-- `handleStormChargeCommand`. Logging is left out.
use Prim.Native.Char.{code}
use srne_inverter_to_mqtt.Base.{
  ℕ, ◌-◌, String, Bool, true, false, ◌&&◌, Option, none, some, List, [], ◌∷◌, map, Result, ok, err,
  leb, if◌then◌else◌,
}
use package.text.Mathlib.Text.{◌==◌ as str_eq}
use srne_inverter_to_mqtt.Base.Int.{pos}
use srne_inverter_to_mqtt.Base.Float.{Float64}
use srne_inverter_to_mqtt.Base.Letters.{codes, same_codes, is_blank}
use srne_inverter_to_mqtt.Base.Numeral.{parse_int}
use srne_inverter_to_mqtt.Config.Types.{Config, minute}
use srne_inverter_to_mqtt.Config.Endpoint.{normalized_inverter_type}
use srne_inverter_to_mqtt.Registers.Types.{Register, text}
use srne_inverter_to_mqtt.Registers.Catalog.Selection.{catalog_for_inverter_type}
use srne_inverter_to_mqtt.Mqtt.Types.{Broker, Mqtt}
use srne_inverter_to_mqtt.Mqtt.Topics.{command_topic}
use srne_inverter_to_mqtt.Mqtt.Provider.{Provider}
use srne_inverter_to_mqtt.Mqtt.Publish.{publish_command_state}
use srne_inverter_to_mqtt.Mqtt.StormTopics.{publish_storm_charge}

-- `strings.TrimSpace(string(payload))`
trimmed_front : String → String
trimmed_front String.[] = ""
trimmed_front (String.◌∷◌ c s) =
    let rest = trimmed_front s in if is_blank (code c) then rest else String.◌∷◌ c s

trimmed_end : String → String
trimmed_end String.[] = ""
trimmed_end (String.◌∷◌ c s) =
    let rest = trimmed_end s in
    if is_blank (code c) && str_eq rest "" then "" else String.◌∷◌ c rest

unfoldable pub trimmed : String → String
unfolding trimmed_front trimmed_end
trimmed payload = trimmed_end (trimmed_front payload)

-- `strings.ToUpper`
unfoldable pub to_upper : ℕ → ℕ
to_upper c = if leb b'a' c && leb c b'z' then c - 32 else c

abbrev pub is_upper : String → String → Bool
is_upper payload word = same_codes (map to_upper (codes payload)) (codes word)

pub data CommandError (A : Type 0) : Type 0 where
  not_on_or_off : CommandError A
  invalid_number : String → CommandError A
  refused : A → CommandError A

module _ {P A S C E Num : Type 0} (provider : Provider P A Num) (broker : Broker S C E)
    (fl : Float64 Num) (cfg : Config Num) where
  abbrev pub Commanded : Type 0
  Commanded = Result (CommandError A) (Unit {0}) × P

  unfoldable pub by_provider : Result A (Unit {0}) × P → Commanded
  by_provider (ok _, p) = (ok tt, p)
  by_provider (err e, p) = (err (refused e), p)

  unfoldable pub switch_storm_charge : String → P → Commanded
  switch_storm_charge payload p =
      let started = provider.start_storm_charge (provider.get_storm_charge_status p).settings p in
      let stopped = provider.cancel_storm_charge p in
      if is_upper payload "ON"
      then by_provider started
      else if is_upper payload "OFF"
      then by_provider stopped
      else (err not_on_or_off, p)

  unfoldable pub set_target_soc : String → P → Commanded
  set_target_soc payload p = elim (parse_int payload) [
    | none ↦ (err (invalid_number payload), p)
    | some value ↦ by_provider (
        provider.update_storm_charge_settings
          (record (provider.get_storm_charge_status p).settings { target_soc = value }) p)
  ]

  unfoldable pub set_max_current : String → P → Commanded
  set_max_current payload p = elim (fl.parse payload) [
    | none ↦ (err (invalid_number payload), p)
    | some value ↦ by_provider (
        provider.update_storm_charge_settings
          (record (provider.get_storm_charge_status p).settings { max_current_a = value }) p)
  ]

  unfoldable pub set_timeout : String → P → Commanded
  set_timeout payload p = elim (fl.parse payload) [
    | none ↦ (err (invalid_number payload), p)
    | some value ↦ by_provider (
        provider.update_storm_charge_settings
          (record (provider.get_storm_charge_status p).settings {
            timeout = fl.to_ℤ (fl.mul value (fl.of_ℤ (pos minute)));
          })
          p)
  ]

  abbrev is_topic : List ℕ → String → Bool
  is_topic topic id = same_codes topic (command_topic cfg.mqtt id)

  -- The command of the topic, or none for another topic.
  unfoldable pub storm_command : List ℕ → String → P → Option Commanded
  storm_command topic payload p =
      if is_topic topic "storm_charge"
      then some (switch_storm_charge payload p)
      else if is_topic topic "storm_charge_target_soc"
      then some (set_target_soc payload p)
      else if is_topic topic "storm_charge_max_current"
      then some (set_max_current payload p)
      else if is_topic topic "storm_charge_timeout_minutes"
      then some (set_timeout payload p)
      else none

  -- What the handlers of messages return: whether the topic was known, and the states.
  abbrev pub Handled : Type 0
  Handled = Bool × P × Mqtt S C

  unfoldable pub report_storm_charge :
      (List (String × String) → List (String × String)) → Commanded → Mqtt S C → Handled
  report_storm_charge order (err e, p) s = (true, p, s)
  report_storm_charge order (ok _, p) s = (
    true,
    p,
    (publish_storm_charge broker (provider.get_config p) fl order
        (provider.get_storm_charge_status p) s).1,
  )

  unfoldable pub handle_storm_charge_command :
      (List (String × String) → List (String × String)) → List ℕ → String → P → Mqtt S C → Handled
  handle_storm_charge_command order topic payload p s =
      if str_eq (trimmed payload) ""
      then (true, p, s)
      else elim (storm_command topic (trimmed payload) p) [
        | none ↦ (false, p, s)
        | some done ↦ report_storm_charge order done s
      ]

  unfoldable pub report_command :
      Register Num → String → Result A (Unit {0}) × P → Mqtt S C → Handled
  report_command reg payload (err e, p) s = (true, p, s)
  report_command reg payload (ok _, p) s = (
    true,
    p,
    (publish_command_state broker (provider.get_config p) fl (provider.telemetry p) reg payload
        (provider.now p) s).1,
  )

  unfoldable pub handle_command : Register Num → String → P → Mqtt S C → Handled
  handle_command reg payload p s =
      let done = provider.write_register reg.id (text (trimmed payload)) p in
      if str_eq (trimmed payload) ""
      then (true, p, s)
      else report_command reg (trimmed payload) done s

  unfoldable pub catalog_for_config : List (Register Num)
  catalog_for_config = elim (normalized_inverter_type cfg.device) [
    | err e ↦ catalog_for_inverter_type fl "single_phase"
    | ok t ↦ catalog_for_inverter_type fl t
  ]

  -- `routes[topic]`: the last writable register of the topic.
  unfoldable pub route : List (Register Num) → List ℕ → Option (Register Num)
  route [] topic = none
  route (reg ∷ regs) topic = elim (route regs topic) [
    | some later ↦ some later
    | none ↦ if reg.writable && is_topic topic reg.id then some reg else none
  ]

  -- The handler of the subscription.
  unfoldable pub on_message :
      (List (String × String) → List (String × String)) → List ℕ → String → P → Mqtt S C → Handled
  on_message order topic payload p s = elim (route catalog_for_config topic) [
    | some reg ↦ handle_command reg payload p s
    | none ↦ handle_storm_charge_command order topic payload p s
  ]

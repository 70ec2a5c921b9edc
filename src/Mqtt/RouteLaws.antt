-- ===== src/Mqtt/RouteLaws.antt =====
-- Lemmas about the routes of `subscribeCommands` of internal/mqtt/service.go.
use Prim.Native.Char.{code}
use package.text.Mathlib.Text.{◌==◌ as str_eq}
use package.text.Mathlib.TextEquality.{eq_iff, Char-path}
use srne_inverter_to_mqtt.Base.{
  ℕ, String, Bool, true, false, not, ◌&&◌, Option, none, some, List, [], ◌∷◌, ◌++◌, All, Result, ok,
  err, ◌==◌, ◌≡◌, refl, if_cases, Result-cases, inl, inr, arith,
}
use srne_inverter_to_mqtt.Base.Float.{Float64}
use srne_inverter_to_mqtt.Base.Letters.{codes, same_codes}
use srne_inverter_to_mqtt.Config.Types.{Config, MqttConfig}
use srne_inverter_to_mqtt.Config.Endpoint.{normalized_inverter_type}
use srne_inverter_to_mqtt.Registers.Types.{Register, text}
use srne_inverter_to_mqtt.Registers.Catalog.Selection.{catalog_for_inverter_type}
use srne_inverter_to_mqtt.Registers.Catalog.Facts.{
  all_distinct, is_free, is_sound, catalog-is_sound,
}
use srne_inverter_to_mqtt.Mqtt.Types.{Broker, Mqtt}
use srne_inverter_to_mqtt.Mqtt.Topics.{command_topic, without_slash}
use srne_inverter_to_mqtt.Mqtt.Provider.{Provider}
use srne_inverter_to_mqtt.Mqtt.Commands.{
  trimmed, route, catalog_for_config, handle_command, report_command, on_message,
}

split_and : (a b : Bool) → a && b ≡ true → (a ≡ true) × (b ≡ true)
split_and a b h = (ground arith, ground arith)

codes_inj : (s t : String) → same_codes (codes s) (codes t) ≡ true → s ≡ t
unfolding same_codes
codes_inj String.[] String.[] h = refl
codes_inj String.[] (String.◌∷◌ d t) h = absurd cc
codes_inj (String.◌∷◌ c s) String.[] h = absurd cc
codes_inj (String.◌∷◌ c s) (String.◌∷◌ d t) h =
    let (first, rest) = split_and (code c == code d) _ h in
    let same : code c ≡ code d = ground (arith, first) in
    λ i. String.◌∷◌ (Char-path c d same i) (codes_inj s t rest i)

same_codes_refl : (xs : List ℕ) → same_codes xs xs ≡ true
unfolding same_codes
same_codes_refl [] = refl
same_codes_refl (x ∷ xs) = rw (same_codes_refl xs) (ground arith)

same_codes-append :
    (xs ys zs : List ℕ) → same_codes (xs ++ ys) (xs ++ zs) ≡ true → same_codes ys zs ≡ true
unfolding same_codes
same_codes-append [] ys zs h = h
same_codes-append (x ∷ xs) ys zs h = same_codes-append xs ys zs (split_and (x == x) _ h).1

-- Two identifiers have two command topics.
command_topic_inj :
    (c : MqttConfig) (id other : String)
    → same_codes (command_topic c id) (command_topic c other) ≡ true
    → id ≡ other
unfolding command_topic
command_topic_inj c id other h = codes_inj id other (
    same_codes-append (without_slash (codes c.topic_prefix) ++ codes "/command/") (codes id)
      (codes other) h)

not-true : (b : Bool) → not b ≡ true → b ≡ true → ⊥
not-true true h k = absurd cc
not-true false h k = absurd cc

module _ {P A S C E Num : Type 0} (provider : Provider P A Num) (broker : Broker S C E)
    (fl : Float64 Num) (cfg : Config Num) where
  abbrev topic_of : String → List ℕ
  topic_of id = command_topic cfg.mqtt id

  route-free :
      (rs : List (Register Num)) (id : String)
      → is_free id rs ≡ true
      → route provider broker fl cfg rs (topic_of id) ≡ none
  unfolding route is_free
  route-free [] id h = refl
  route-free (r ∷ rs) id h =
      let (other, rest) = split_and (not (str_eq id r.id)) _ h in
      rw (route-free rs id rest) (
        if_cases (λ (o : Option (Register Num)). o ≡ none)
          (r.writable && same_codes (topic_of id) (topic_of r.id))
          (λ hit. absurd (
            not-true (str_eq id r.id) other
              ((eq_iff id r.id).1 (command_topic_inj cfg.mqtt id r.id (split_and _ _ hit).1))))
          (λ miss. refl))

  -- The route of a register's own topic is the register.
  abbrev RoutedIn : List (Register Num) → Register Num → Type 0
  RoutedIn rs reg =
      reg.writable ≡ true → route provider broker fl cfg rs (topic_of reg.id) ≡ some reg

  RoutedIn-cons :
      (r : Register Num) (rs qs : List (Register Num))
      → All (RoutedIn rs) qs
      → All (RoutedIn (r ∷ rs)) qs
  unfolding route
  RoutedIn-cons r rs [] h = tt
  RoutedIn-cons r rs (q ∷ qs) h = (λ w. rw (h.0 w) refl, RoutedIn-cons r rs qs h.1)

  all_distinct-RoutedIn : (rs : List (Register Num)) → all_distinct rs ≡ true → All (RoutedIn rs) rs
  unfolding all_distinct route
  all_distinct-RoutedIn [] h = tt
  all_distinct-RoutedIn (r ∷ rs) h =
      let (free, rest) = split_and (is_free r.id rs) _ h in
      (
        λ w. rw (route-free rs r.id free, w, same_codes_refl (topic_of r.id)) refl,
        RoutedIn-cons r rs rs (all_distinct-RoutedIn rs rest),
      )

  catalog-RoutedIn :
      All
        (RoutedIn (catalog_for_config provider broker fl cfg))
        (catalog_for_config provider broker fl cfg)
  unfolding catalog_for_config is_sound
  catalog-RoutedIn = elim (Result-cases (normalized_inverter_type cfg.device)) [
    | inl (t, good) ↦ rw (good, catalog_for_config) (all_distinct-RoutedIn _ (distinct t))
    | inr (e, bad) ↦
        rw (bad, catalog_for_config) (all_distinct-RoutedIn _ (distinct "single_phase"))
  ]
    where
      distinct : (t : String) → all_distinct (catalog_for_inverter_type fl t) ≡ true
      distinct t = ground (arith, catalog-is_sound fl t)

  report_command-state :
      (reg : Register Num) (payload : String) (r : Result A (Unit {0}) × P) (s : Mqtt S C)
      → (report_command provider broker fl cfg reg payload r s).1 ≡ r.1
  unfolding report_command
  report_command-state reg payload (ok _, p) s = refl
  report_command-state reg payload (err e, p) s = refl

  module _ (order : List (String × String) → List (String × String)) (payload : String) (p : P)
      (s : Mqtt S C) where
    -- A message on the register's command topic writes the trimmed payload to the register.
    abbrev pub Writes : Register Num → Type 0
    Writes reg =
        reg.writable ≡ true
        → (on_message provider broker fl cfg order (topic_of reg.id) payload p s).1
          ≡ (provider.write_register reg.id (text (trimmed payload)) p).1

    RoutedIn-Writes :
        str_eq (trimmed payload) "" ≡ false
        → (reg : Register Num) → RoutedIn (catalog_for_config provider broker fl cfg) reg
        → Writes reg
    unfolding on_message handle_command
    RoutedIn-Writes filled reg routed w =
        simp (routed w, on_message, handle_command, filled) (report_command-state reg _ _ s)

    All-Writes :
        str_eq (trimmed payload) "" ≡ false
        → (rs : List (Register Num)) → All (RoutedIn (catalog_for_config provider broker fl cfg)) rs
        → All Writes rs
    All-Writes filled [] h = tt
    All-Writes filled (r ∷ rs) h = (RoutedIn-Writes filled r h.0, All-Writes filled rs h.1)

    -- For every configuration and every writable register of its catalog, a message on the
    -- register's command topic whose payload is not blank leaves the provider as the write of the
    -- payload, without the blanks around it, to that register leaves it.
    pub on_message-Writes :
        str_eq (trimmed payload) "" ≡ false → All Writes (catalog_for_config provider broker fl cfg)
    on_message-Writes filled = All-Writes filled _ catalog-RoutedIn

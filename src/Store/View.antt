-- ===== src/Store/View.antt =====
-- internal/state/store.go: `Snapshot`. The order of Go's map is that of the list of entries.
use srne_inverter_to_mqtt.Base.{ℕ, String, List, [], ◌∷◌, ◌++◌}
use srne_inverter_to_mqtt.Base.Float.{Float64}
use srne_inverter_to_mqtt.Registers.Types.{DecodedValue}
use srne_inverter_to_mqtt.Registers.Catalog.Queries.{sort_values}
use srne_inverter_to_mqtt.Store.Types.{ServiceStatus, Snapshot}
use srne_inverter_to_mqtt.Store.Values.{Telemetry}
use srne_inverter_to_mqtt.Store.Derived.{derived_telemetry}

module _ {Num : Type 0} where
  abbrev pub values_in : List (String × DecodedValue Num) → List (DecodedValue Num)
  values_in [] = []
  values_in ((id, value) ∷ entries) = value ∷ values_in entries

  unfoldable pub snapshot :
      Float64 Num → (ℕ → String) → List (String × ServiceStatus) → Telemetry Num → Snapshot Num
  snapshot fl format_time services store =
      let stored = values_in store.values in
      record {
        services = services;
        telemetry = sort_values (
            stored
            ++ derived_telemetry fl format_time stored store.last_switch_grid
                store.last_switch_batt);
      }

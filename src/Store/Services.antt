-- ===== src/Store/Services.antt =====
-- internal/state/store.go: `SetServiceStatus`. The map of services is its list of entries.
use text.Mathlib.Text.{◌==◌ as str_eq}
use srne_inverter_to_mqtt.Base.{ℕ, String, Bool, false, List, [], ◌∷◌, ◌==◌, if◌then◌else◌}
use srne_inverter_to_mqtt.Store.Types.{ServiceStatus}

-- `s.services[name]`, the zero value for a missing name.
unfoldable pub service_of : List (String × ServiceStatus) → String → ServiceStatus
service_of [] name = record {
  name = "";
  status = "";
  connected = false;
  last_error = "";
  last_success = 0;
  updated_at = 0;
}
service_of ((key, status) ∷ services) name =
    if str_eq key name then status else service_of services name

-- `s.services[name] = value`
unfoldable pub put_service :
    List (String × ServiceStatus) → String → ServiceStatus → List (String × ServiceStatus)
put_service [] name value = (name, value) ∷ []
put_service ((key, status) ∷ services) name value =
    let rest = put_service services name value in
    if str_eq key name then (key, value) ∷ services else (key, status) ∷ rest

-- `SetServiceStatus` at the moment `now`; a zero `last_success` keeps the one that is there.
unfoldable pub set_service_status :
    ℕ
    → String
    → String
    → Bool
    → String
    → ℕ
    → List (String × ServiceStatus)
    → List (String × ServiceStatus)
set_service_status now name status connected last_error last_success services =
    put_service services name (record {
      name = name;
      status = status;
      connected = connected;
      last_error = last_error;
      last_success =
          (if last_success == 0 then (service_of services name).last_success else last_success);
      updated_at = now;
    })

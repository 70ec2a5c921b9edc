-- ===== src/Registers/Catalog/Blank.antt =====
-- internal/registers/catalog.go: Go's zero value of `Register`, which a literal starts from.
use srne_inverter_to_mqtt.Base.{false, []}
use srne_inverter_to_mqtt.Base.Float.{Float64}
use srne_inverter_to_mqtt.Registers.Types.{Register, other_type, unset_order, slow}

-- The group's zero value is the empty text; every literal of the catalog sets a group.
abbrev pub blank : {Num : Type 0} → Float64 Num → Register Num
blank F = record {
  id = "";
  name = "";
  address = 0;
  count = 0;
  value_type = other_type "";
  word_order = unset_order;
  synthetic = false;
  raw_only = false;
  scale = F.ratio 0 0;
  precision = 0;
  unit = "";
  device_class = "";
  state_class = "";
  icon = "";
  component = "";
  group = slow;
  writable = false;
  write_only = false;
  entity = "";
  entity_category = "";
  enum = [];
  write_min = F.ratio 0 0;
  write_max = F.ratio 0 0;
  write_step = F.ratio 0 0;
  button_class = "";
}

-- ===== src/Registers/Types.antt =====
-- The types of internal/registers/catalog.go. `Num` is float64, a moment is a number of
-- nanoseconds with 0 for Go's zero time, and a map is its list of entries.
use srne_inverter_to_mqtt.Base.{ℕ, String, Bool, List}
use srne_inverter_to_mqtt.Base.Int.{ℤ}

pub data PollGroup : Type 0 where
  fast slow : PollGroup

pub data ValueType : Type 0 where
  uint16 int16 uint32 int32 datetime packed_time : ValueType
  other_type : String → ValueType

pub data WordOrder : Type 0 where
  high_low low_high unset_order : WordOrder

-- A Go value of type `any`, by the types that the source tells apart.
pub data Value (Num : Type 0) : Type 0 where
  float64 : Num → Value Num
  int64 : ℤ → Value Num
  int : ℤ → Value Num
  uint64 : ℕ → Value Num
  text : String → Value Num
  nothing : Value Num
  other_value : Value Num

pub record Register (Num : Type 0) : Type 0 where
  pub id : String
  pub name : String
  pub address : ℕ
  pub count : ℕ
  pub value_type : ValueType
  pub word_order : WordOrder
  pub synthetic : Bool
  pub raw_only : Bool
  pub scale : Num
  pub precision : ℕ
  pub unit : String
  pub device_class : String
  pub state_class : String
  pub icon : String
  pub component : String
  pub group : PollGroup
  pub writable : Bool
  pub write_only : Bool
  pub entity : String
  pub entity_category : String
  pub enum : List (ℤ × String)
  pub write_min : Num
  pub write_max : Num
  pub write_step : Num
  pub button_class : String

pub record WriteOption : Type 0 where
  pub raw : ℤ
  pub label : String

pub record DecodedValue (Num : Type 0) : Type 0 where
  pub id : String
  pub name : String
  pub address : ℕ
  pub group : PollGroup
  pub component : String
  pub entity : String
  pub entity_category : String
  pub writable : Bool
  pub write_only : Bool
  pub synthetic : Bool
  pub raw_only : Bool
  pub unit : String
  pub device_class : String
  pub state_class : String
  pub icon : String
  pub raw : ℤ
  pub raw_words : List ℕ
  pub value : Value Num
  pub rendered : String
  pub write_min : Num
  pub write_max : Num
  pub write_step : Num
  pub options : List WriteOption
  pub updated_at : ℕ

pub record ReadRange (Num : Type 0) : Type 0 where
  pub start : ℕ
  pub count : ℕ
  pub registers : List (Register Num)

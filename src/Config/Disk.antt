-- ===== src/Config/Disk.antt =====
-- internal/config/config.go: `Save`, `Load` and `LoadOrCreate` over a file system and YAML.
use Prim.Native.String
use srne_inverter_to_mqtt.Base.{String, Bool, true, false, Option, none, some, Result, ok, err}
use srne_inverter_to_mqtt.Base.Float.{Float64}
use srne_inverter_to_mqtt.Config.Types.{Config, default_config}
use srne_inverter_to_mqtt.Config.Endpoint.{ConfigError}
use srne_inverter_to_mqtt.Config.Validate.{validate}

-- What the source calls of packages os and yaml, over a world `S`.
pub record ConfigFiles (S E Num : Type 0) : Type 0 where
  -- `os.MkdirAll` of the directory of a path, `os.WriteFile` and `os.Rename`
  pub mkdir_all : String → S → Result E (Unit {0}) × S
  pub write_file : String → String → S → Result E (Unit {0}) × S
  pub rename : String → String → S → Result E (Unit {0}) × S
  -- `os.ReadFile`; `ok none` for a file that does not exist
  pub read_file : String → S → Result E (Option String)
  -- `yaml.Marshal`, and `yaml.Unmarshal` over the value that is there, with the tags of the fields
  -- and the text form of `Duration` that they apply; nothing is assumed of them
  pub marshal : Config Num → Result E String
  pub unmarshal : String → Config Num → Result E (Config Num)

pub data FileError (E : Type 0) : Type 0 where
  not_valid : ConfigError → FileError E
  create_directory marshal_config write_temp replace_config read_config parse_config :
      E → FileError E
  not_exist : FileError E

module _ {S E Num : Type 0} (fs : ConfigFiles S E Num) (fl : Float64 Num) where
  unfoldable pub replaced : Result E (Unit {0}) × S → Result (FileError E) (Unit {0}) × S
  replaced (ok _, s) = (ok tt, s)
  replaced (err e, s) = (err (replace_config e), s)

  unfoldable pub replace_with :
      String → Result E (Unit {0}) × S → Result (FileError E) (Unit {0}) × S
  replace_with path (ok _, s) = replaced (fs.rename (String.◌++◌ path ".tmp") path s)
  replace_with path (err e, s) = (err (write_temp e), s)

  unfoldable pub write_marshalled :
      String → Result E String → S → Result (FileError E) (Unit {0}) × S
  write_marshalled path (ok text) s =
      replace_with path (fs.write_file (String.◌++◌ path ".tmp") text s)
  write_marshalled path (err e) s = (err (marshal_config e), s)

  unfoldable pub write_in_directory :
      String → Config Num → Result E (Unit {0}) × S → Result (FileError E) (Unit {0}) × S
  write_in_directory path cfg (ok _, s) = write_marshalled path (fs.marshal cfg) s
  write_in_directory path cfg (err e, s) = (err (create_directory e), s)

  unfoldable pub save : String → Config Num → S → Result (FileError E) (Unit {0}) × S
  save path cfg s = elim (validate fl cfg) [
    | err e ↦ (err (not_valid e), s)
    | ok _ ↦ write_in_directory path cfg (fs.mkdir_all path s)
  ]

  -- The checks of `Load` on what was parsed.
  unfoldable pub checked : Result E (Config Num) → Result (FileError E) (Config Num)
  checked (err e) = err (parse_config e)
  checked (ok cfg) = elim (validate fl cfg) [ err e ↦ err (not_valid e) | ok _ ↦ ok cfg ]

  unfoldable pub load_text : Option String → Result (FileError E) (Config Num)
  load_text none = err not_exist
  load_text (some text) = checked (fs.unmarshal text (default_config fl))

  unfoldable pub load : String → S → Result (FileError E) (Config Num)
  load path s = elim (fs.read_file path s) [
    | err e ↦ err (read_config e)
    | ok found ↦ load_text found
  ]

  -- The configuration and whether it was created.
  unfoldable pub created :
      Result (FileError E) (Unit {0}) × S → Result (FileError E) (Config Num × Bool) × S
  created (ok _, s) = (ok (default_config fl, true), s)
  created (err e, s) = (err e, s)

  unfoldable pub or_create :
      String → Result (FileError E) (Config Num) → S → Result (FileError E) (Config Num × Bool) × S
  or_create path (ok cfg) s = (ok (cfg, false), s)
  or_create path (err not_exist) s = created (save path (default_config fl) s)
  or_create path (err e) s = (err e, s)

  unfoldable pub load_or_create : String → S → Result (FileError E) (Config Num × Bool) × S
  load_or_create path s = or_create path (load path s) s

-- ===== src/Storm/World.antt =====
-- What the storm charge manager calls: the interface `RegisterWriter`, the file system, the YAML
-- package and the clock; and `saveLocked` and `load` on them.
use Prim.Native.String
use text.Mathlib.Text.{◌==◌ as str_eq}
use srne_inverter_to_mqtt.Base.{
  ℕ, String, not, ◌&&◌, Option, none, some, List, Result, ok, err, ◌==◌, if◌then◌else◌,
}
use srne_inverter_to_mqtt.Base.State.{Act}
use srne_inverter_to_mqtt.Registers.Types.{Value}
use srne_inverter_to_mqtt.Storm.Types.{Phase, idle, other_phase, Runtime, Machine}

pub record World (S E Num : Type 0) : Type 0 where
  -- `RegisterWriter`
  pub write_register : String → Value Num → S → Result E (Unit {0}) × S
  pub read_holding_words : ℕ → ℕ → S → Result E (List ℕ) × S
  pub write_holding_words : ℕ → List ℕ → S → Result E (Unit {0}) × S
  -- `os.MkdirAll` of the directory of a path, `os.WriteFile` and `os.Rename`
  pub mkdir_all : String → S → Result E (Unit {0}) × S
  pub write_file : String → String → S → Result E (Unit {0}) × S
  pub rename : String → String → S → Result E (Unit {0}) × S
  -- `os.ReadFile`; `ok none` for a file that does not exist
  pub read_file : String → S → Result E (Option String)
  -- `yaml.Marshal` and `yaml.Unmarshal` over the value that is there, with the tags of the fields
  -- that they apply; nothing is assumed of them
  pub marshal : Runtime E Num → Result E String
  pub unmarshal : String → Runtime E Num → Result E (Runtime E Num)
  -- the clock
  pub now : S → ℕ × S

pub data LoadError (E : Type 0) : Type 0 where
  read_error parse_error : E → LoadError E
  unsupported_version : ℕ → LoadError E

module _ {S E Num : Type 0} (w : World S E Num) where
  -- Runs an operation of the world and keeps the manager's own fields.
  unfoldable pub outside : {A : Type 0} → (S → A × S) → Act (Machine S E Num) A
  outside f m = ((f m.outside).0, record m { outside = (f m.outside).1 })

  -- The steps of `saveLocked` behind one another, each only after the one before succeeded.
  unfoldable pub save_steps : String → Runtime E Num → S → Result E (Unit {0}) × S
  save_steps path runtime s = elim (w.mkdir_all path s).0 [
    | err e ↦ (err e, (w.mkdir_all path s).1)
    | ok _ ↦ elim (w.marshal runtime) [
      | err e ↦ (err e, (w.mkdir_all path s).1)
      | ok bytes ↦
          let tmp_path = String.◌++◌ path ".tmp" in
          let written = w.write_file tmp_path bytes (w.mkdir_all path s).1 in
          elim written.0 [ err e ↦ (err e, written.1) | ok _ ↦ w.rename tmp_path path written.1 ]
    ]
  ]

  unfoldable pub save_locked : Act (Machine S E Num) (Result E (Unit {0}))
  save_locked m = outside (save_steps m.state_path m.runtime) m

  unfoldable pub now : Act (Machine S E Num) ℕ
  now = outside w.now

  unfoldable pub no_phase : Phase → Phase
  no_phase (other_phase s) = if str_eq s "" then idle else other_phase s
  no_phase p = p

  -- The checks of `load` on what was read.
  unfoldable pub accept_runtime :
      Machine S E Num → Runtime E Num → Result (LoadError E) (Machine S E Num)
  unfolding no_phase
  accept_runtime m runtime =
      let version = if (runtime.version == 1) && not runtime.active then 2 else runtime.version in
      if not (version == 2)
      then err (unsupported_version version)
      else ok (record m {
        runtime = record runtime { version = version; phase = no_phase runtime.phase };
        resume_pending = runtime.active;
      })

  unfoldable pub load : Machine S E Num → Result (LoadError E) (Machine S E Num)
  load m = elim (w.read_file m.state_path m.outside) [
    | err e ↦ err (read_error e)
    | ok found ↦ elim found [
      | none ↦ ok m
      | some bytes ↦ elim (w.unmarshal bytes m.runtime) [
        | err e ↦ err (parse_error e)
        | ok runtime ↦ accept_runtime m runtime
      ]
    ]
  ]

-- ===== src/Config/DiskTests.antt =====
-- Runs of `Save` and `Load` over files as a function.
use package.text.Mathlib.Text.{◌==◌ as str_eq}
use package.text.Mathlib.TextEquality.{eq_iff}
use srne_inverter_to_mqtt.Base.{
  ◌≢◌, ◌⊎◌, false, arith, ℕ, String, true, Option, some, none, ok, err, ◌≡◌, refl, if◌then◌else◌,
  arith,
}
use srne_inverter_to_mqtt.Base.Whole.{whole_numbers}
use srne_inverter_to_mqtt.Config.Validate.{validate}
use srne_inverter_to_mqtt.Config.Disk.{ConfigFiles, FileError, save}
use srne_inverter_to_mqtt.Config.DiskLaws.{KeepsFiles, save_lem}
use srne_inverter_to_mqtt.Config.Types.{Config, default_config}

abbrev Files : Type 0
Files = String → Option String

abbrev defaults : Config ℕ
defaults = default_config whole_numbers

-- Files that accept every write; every configuration has one text.
unfoldable text_files : ConfigFiles Files (Unit {0}) ℕ
text_files = record {
  mkdir_all = λ p s. (ok tt, s);
  write_file = λ p c s. (ok tt, λ q. if str_eq q p then some c else s q);
  rename = λ p q s. (ok tt, λ r. if str_eq r q then s p else s r);
  read_file = λ p s. ok (s p);
  marshal = λ cfg. ok "configuration";
  unmarshal = λ text cfg. ok cfg;
}

str_eq_refl : (s : String) → str_eq s s ≡ true
str_eq_refl s = ground (arith, eq_iff s s)

str_eq-ne : (s t : String) → s ≢ t → str_eq s t ≡ false
str_eq-ne s t h = ground (arith, eq_iff s t)

text_files-KeepsFiles : KeepsFiles text_files
unfolding text_files
text_files-KeepsFiles = record {
  file = λ s p. s p;
  mkdir_all_files = λ p q s. refl;
  write_file_others = λ p c q s h. rw (str_eq-ne q p h) refl;
  write_file_ok = λ p c s h. rw (str_eq_refl p) refl;
  rename_ok = λ p q s h. rw (str_eq_refl q) refl;
  rename_err = λ p q s e h. absurd cc;
}

save_lem_example :
    let r = save text_files whole_numbers "srne.yaml" defaults (λ p. none) in
    ((text : String) × (text_files.marshal defaults ≡ ok text)
      × (validate whole_numbers defaults ≡ ok tt)
      × (r.0 ≡ ok tt)
      × (text_files-KeepsFiles.file r.1 "srne.yaml" ≡ some text))
    ⊎ ((e : FileError (Unit {0})) × (r.0 ≡ err e)
        × (text_files-KeepsFiles.file r.1 "srne.yaml"
            ≡ text_files-KeepsFiles.file (λ p. none) "srne.yaml"))
save_lem_example =
    save_lem text_files whole_numbers text_files-KeepsFiles "srne.yaml" defaults (λ p. none)

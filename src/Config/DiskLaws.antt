-- ===== src/Config/DiskLaws.antt =====
-- Lemmas about `Save` of internal/config/config.go over a file system.
use Prim.Native.String
use srne_inverter_to_mqtt.Base.Paths.{tmp_apart}
use srne_inverter_to_mqtt.Base.{
  String, Option, some, Result, ok, err, ◌≡◌, refl, ◌∙◌, Result-cases, inl, inr, arith, ◌≢◌, ◌⊎◌,
  subst, sym,
}
use srne_inverter_to_mqtt.Base.Float.{Float64}
use srne_inverter_to_mqtt.Config.Types.{Config}
use srne_inverter_to_mqtt.Config.Validate.{validate}
use srne_inverter_to_mqtt.Config.Disk.{
  ConfigFiles, FileError, save, replaced, replace_with, write_marshalled, write_in_directory,
}

-- What is relied on of the file system: `file` is the content of a path. A failing write may damage
-- only the file that it writes, and a rename happens whole or not at all.
pub record KeepsFiles {S E Num : Type 0} (fs : ConfigFiles S E Num) : Type 0 where
  pub file : S → String → Option String
  pub mkdir_all_files : (p q : String) (s : S) → file (fs.mkdir_all p s).1 q ≡ file s q
  pub write_file_others :
      (p c q : String) (s : S) → q ≢ p → file (fs.write_file p c s).1 q ≡ file s q
  pub write_file_ok :
      (p c : String) (s : S)
      → (fs.write_file p c s).0 ≡ ok tt
      → file (fs.write_file p c s).1 p ≡ some c
  pub rename_ok :
      (p q : String) (s : S) → (fs.rename p q s).0 ≡ ok tt → file (fs.rename p q s).1 q ≡ file s p
  pub rename_err :
      (p q : String) (s : S) (e : E)
      → (fs.rename p q s).0 ≡ err e
      → file (fs.rename p q s).1 q ≡ file s q

-- Only a valid configuration is saved.
pub save-validate :
    {S E Num : Type 0} (fs : ConfigFiles S E Num) (fl : Float64 Num) (path : String)
    (cfg : Config Num) (s : S)
    → (save fs fl path cfg s).0 ≡ ok tt
    → validate fl cfg ≡ ok tt
unfolding save
save-validate fs fl path cfg s h = elim (Result-cases (validate fl cfg)) [
  | inr (e, bad) ↦ ground arith
  | inl (tt, good) ↦ good
]

module _ {S E Num : Type 0} (fs : ConfigFiles S E Num) (fl : Float64 Num) (keeps : KeepsFiles fs)
    (path : String) where
  -- After a success the file has the text, after an error what it had.
  abbrev Ends : String → Option String → Result (FileError E) (Unit {0}) × S → Type 0
  Ends text before r =
      ((r.0 ≡ ok tt) × (keeps.file r.1 path ≡ some text))
      ⊎ ((e : FileError E) × (r.0 ≡ err e) × (keeps.file r.1 path ≡ before))

  replaced-Ends :
      (text : String) (before : Option String) (r : Result E (Unit {0}) × S)
      → (r.0 ≡ ok tt → keeps.file r.1 path ≡ some text)
      → ((e : E) → r.0 ≡ err e → keeps.file r.1 path ≡ before)
      → Ends text before (replaced fs fl r)
  unfolding replaced
  replaced-Ends text before (ok _, s) good bad = inl (refl, good refl)
  replaced-Ends text before (err e, s) good bad = inr (_, refl, bad e refl)

  replace_with-Ends :
      (text : String) (before : Option String) (r : Result E (Unit {0}) × S)
      → (r.0 ≡ ok tt → keeps.file r.1 (String.◌++◌ path ".tmp") ≡ some text)
      → keeps.file r.1 path ≡ before
      → Ends text before (replace_with fs fl path r)
  unfolding replace_with
  replace_with-Ends text before (err e, s) written same = inr (_, refl, same)
  replace_with-Ends text before (ok _, s) written same =
      let tmp = String.◌++◌ path ".tmp" in
      replaced-Ends text before _ (λ moved. keeps.rename_ok tmp path s moved ∙ written refl)
        (λ e failed. keeps.rename_err tmp path s e failed ∙ same)

  -- The same with the text that the configuration is marshalled to.
  abbrev Saved : Config Num → Option String → Result (FileError E) (Unit {0}) × S → Type 0
  Saved cfg before r =
      ((text : String) × (fs.marshal cfg ≡ ok text)
        × (r.0 ≡ ok tt)
        × (keeps.file r.1 path ≡ some text))
      ⊎ ((e : FileError E) × (r.0 ≡ err e) × (keeps.file r.1 path ≡ before))

  Ends-Saved :
      (cfg : Config Num) (text : String) (before : Option String)
      (r : Result (FileError E) (Unit {0}) × S)
      → fs.marshal cfg ≡ ok text
      → Ends text before r
      → Saved cfg before r
  Ends-Saved cfg text before r known (inl (good, there)) = inl (text, known, good, there)
  Ends-Saved cfg text before r known (inr kept) = inr kept

  write_marshalled-Saved :
      (cfg : Config Num) (s : S)
      → Saved cfg (keeps.file s path) (write_marshalled fs fl path (fs.marshal cfg) s)
  unfolding write_marshalled
  write_marshalled-Saved cfg s = elim (Result-cases (fs.marshal cfg)) [
    | inr (e, bad) ↦ rw (bad, write_marshalled) (inr (_, refl, refl))
    | inl (text, good) ↦
        let tmp = String.◌++◌ path ".tmp" in
        subst
          (λ (m : Result E String). Saved cfg (keeps.file s path) (write_marshalled fs fl path m s))
          (sym good)
          (Ends-Saved cfg text (keeps.file s path) _ good (
            replace_with-Ends text (keeps.file s path) _ (keeps.write_file_ok tmp text s)
              (keeps.write_file_others tmp text path s (λ e. tmp_apart path (sym e)))))
  ]

  write_in_directory-Saved :
      (cfg : Config Num) (before : Option String) (r : Result E (Unit {0}) × S)
      → keeps.file r.1 path ≡ before
      → Saved cfg before (write_in_directory fs fl path cfg r)
  unfolding write_in_directory
  write_in_directory-Saved cfg before (err e, s) same = inr (_, refl, same)
  write_in_directory-Saved cfg before (ok _, s) same =
      subst (λ (b : Option String). Saved cfg b (write_in_directory fs fl path cfg (ok tt, s))) same
        (write_marshalled-Saved cfg s)

  save-Saved : (cfg : Config Num) (s : S) → Saved cfg (keeps.file s path) (save fs fl path cfg s)
  unfolding save
  save-Saved cfg s = elim (Result-cases (validate fl cfg)) [
    | inr (e, bad) ↦ rw (bad, save) (inr (_, refl, refl))
    | inl (u, good) ↦
        rw (good, save)
          (write_in_directory-Saved cfg (keeps.file s path) _ (keeps.mkdir_all_files path path s))
  ]

  -- Over files where a failing write may damage only the file that it writes and a rename happens
  -- whole or not at all, Save either succeeds, and then the configuration is one that Validate
  -- accepts and the file holds its marshalled text, or fails, and the file is as it was before.
  pub save_lem :
      (cfg : Config Num) (s : S)
      → let r = save fs fl path cfg s in
        ((text : String) × (fs.marshal cfg ≡ ok text)
          × (validate fl cfg ≡ ok tt)
          × (r.0 ≡ ok tt)
          × (keeps.file r.1 path ≡ some text))
        ⊎ ((e : FileError E) × (r.0 ≡ err e) × (keeps.file r.1 path ≡ keeps.file s path))
  save_lem cfg s = elim (save-Saved cfg s) [
    | inl (text, known, good, there) ↦
        inl (text, known, save-validate fs fl path cfg s good, good, there)
    | inr kept ↦ inr kept
  ]

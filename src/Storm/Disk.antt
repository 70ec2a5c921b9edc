-- ===== src/Storm/Disk.antt =====
-- Lemmas about `saveLocked` of internal/stormcharge/manager.go over a file system.
use Prim.Native.String
use srne_inverter_to_mqtt.Base.Paths.{tmp_apart}
use srne_inverter_to_mqtt.Base.{
  ℕ, String, ◌≡◌, ◌≢◌, sym, ◌∙◌, Option, some, List, ok, err, Result-cases, inl, inr, ◌⊎◌,
}
use srne_inverter_to_mqtt.Registers.Types.{Value}
use srne_inverter_to_mqtt.Storm.Types.{Runtime}
use srne_inverter_to_mqtt.Storm.World.{World, save_steps}

-- What is relied on of the file system and the inverter's side: `file` is the content of a path. A
-- failing write may damage only the file that it writes, a rename happens whole or not at all, and
-- only the file operations change files.
pub record DiskLaws {S E Num : Type 0} (w : World S E Num) : Type 0 where
  pub file : S → String → Option String
  pub mkdir_all_files : (p q : String) (s : S) → file (w.mkdir_all p s).1 q ≡ file s q
  pub write_file_others :
      (p c q : String) (s : S) → q ≢ p → file (w.write_file p c s).1 q ≡ file s q
  pub write_file_ok :
      (p c : String) (s : S)
      → (w.write_file p c s).0 ≡ ok tt
      → file (w.write_file p c s).1 p ≡ some c
  pub rename_ok :
      (p q : String) (s : S) → (w.rename p q s).0 ≡ ok tt → file (w.rename p q s).1 q ≡ file s p
  pub rename_err :
      (p q : String) (s : S) (e : E)
      → (w.rename p q s).0 ≡ err e
      → file (w.rename p q s).1 q ≡ file s q
  pub write_register_files :
      (id : String) (v : Value Num) (s : S) (q : String)
      → file (w.write_register id v s).1 q ≡ file s q
  pub write_holding_words_files :
      (a : ℕ) (ws : List ℕ) (s : S) (q : String)
      → file (w.write_holding_words a ws s).1 q ≡ file s q
  pub read_holding_words_files :
      (a n : ℕ) (s : S) (q : String) → file (w.read_holding_words a n s).1 q ≡ file s q
  pub now_files : (s : S) (q : String) → file (w.now s).1 q ≡ file s q

module _ {S E Num : Type 0} (w : World S E Num) (laws : DiskLaws w) where
  -- The state file holds a runtime.
  pub record Stored (path : String) (runtime : Runtime E Num) (s : S) : Type 0 where
    pub bytes : String
    pub at_path : laws.file s path ≡ some bytes
    pub marshalled : w.marshal runtime ≡ ok bytes

  -- Over a world that obeys DiskLaws, saveLocked either succeeds and the state file holds the
  -- runtime, or fails and the state file is as it was before.
  pub save_steps_lem :
      (path : String) (runtime : Runtime E Num) (s : S)
      → let r = save_steps w path runtime s in
        ((r.0 ≡ ok tt) × Stored path runtime r.1)
        ⊎ ((e : E) × (r.0 ≡ err e) × (laws.file r.1 path ≡ laws.file s path))
  unfolding save_steps
  save_steps_lem path runtime s =
      let made = w.mkdir_all path s in
      let tmp_path = String.◌++◌ path ".tmp" in
      elim (Result-cases made.0) [
        | inr (e, failed) ↦
            inr (
              e,
              rw (failed, save_steps),
              rw (failed, save_steps) (laws.mkdir_all_files path path s),
            )
        | inl (_, done) ↦ elim (Result-cases (w.marshal runtime)) [
          | inr (e, failed) ↦ inr (
            e,
            rw (done, failed, save_steps),
            rw (done, failed, save_steps) (laws.mkdir_all_files path path s),
          )
          | inl (bytes, packed) ↦
              let written = w.write_file tmp_path bytes made.1 in
              let untouched : laws.file written.1 path ≡ laws.file s path =
                laws.write_file_others tmp_path bytes path made.1 (λ e. tmp_apart path (sym e))
                ∙ laws.mkdir_all_files path path s in
              elim (Result-cases written.0) [
                | inr (e, failed) ↦ inr (
                  e,
                  rw (done, packed, failed, save_steps),
                  rw (done, packed, failed, save_steps) untouched,
                )
                | inl (_, stored) ↦ elim (Result-cases (w.rename tmp_path path written.1).0) [
                  | inr (e, failed) ↦ inr (
                    e,
                    rw (done, packed, stored, save_steps) failed,
                    rw (done, packed, stored, save_steps)
                        (laws.rename_err tmp_path path written.1 e failed ∙ untouched),
                  )
                  | inl (_, moved) ↦ inl (
                    rw (done, packed, stored, save_steps) moved,
                    record {
                      bytes = bytes;
                      at_path =
                          rw (done, packed, stored, save_steps)
                            (laws.rename_ok tmp_path path written.1 moved
                              ∙ laws.write_file_ok tmp_path bytes made.1 stored);
                      marshalled = packed;
                    },
                  )
                ]
              ]
        ]
      ]

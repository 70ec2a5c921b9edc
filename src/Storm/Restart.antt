-- ===== src/Storm/Restart.antt =====
-- Lemmas about `load` and about a `restoreLocked` that reports success, of
-- internal/stormcharge/manager.go.
use srne_inverter_to_mqtt.Base.{
  ℕ, Bool, none, subst, ◌≢◌, ◌⊎◌, sym, Result-cases, String, true, false, not, ◌&&◌, ◌==◌,
  if◌then◌else◌, ◌≡◌, refl, Result, ok, err, some, [], ◌∷◌, inl, inr, arith,
}
use srne_inverter_to_mqtt.Base.State.{◌>>=◌, ◌>>◌, pure, gets, modify}
use srne_inverter_to_mqtt.Base.Float.{Float64}
use srne_inverter_to_mqtt.Storm.Types.{Phase, Reason, Messages, Runtime, Machine}
use srne_inverter_to_mqtt.Storm.World.{
  World, load, accept_runtime, outside, save_locked, save_steps, now,
}
use srne_inverter_to_mqtt.Storm.Manager.{
  update, save_ignoring, restore_locked, restore_done, restore_end, restore_failed, settle_restore,
}
use srne_inverter_to_mqtt.Storm.Registers.{restore_settings}
use srne_inverter_to_mqtt.Storm.Disk.{DiskLaws, Stored, save_steps_lem}

-- What a successful `load` leaves: the manager as it was if there is no state file, else a runtime
-- of version 2 with the session, the settings and the deadline of the file's runtime, to be resumed
-- exactly if the session is active. An old runtime is taken only without an active session.
pub record LoadedFrom {S E Num : Type 0} (r : Runtime E Num) (m n : Machine S E Num) : Type 0 where
  pub version : n.runtime.version ≡ 2
  pub old : r.version ≢ 2 → (r.version ≡ 1) × (r.active ≡ false)
  pub session : n.runtime.active ≡ r.active
  pub resumed : n.resume_pending ≡ r.active
  pub previous : n.runtime.previous ≡ r.previous
  pub settings : n.runtime.settings ≡ r.settings
  pub deadline : n.runtime.deadline ≡ r.deadline
  pub elsewhere : (n.outside ≡ m.outside) × (n.state_path ≡ m.state_path)

module _ {S E Num : Type 0} (w : World S E Num) (fl : Float64 Num) (laws : DiskLaws w) where
  -- The manager has ended its session in a phase, and the state file says so.
  pub record IsEnded (path : String) (p : Phase) (m : Machine S E Num) : Type 0 where
    pub inactive : m.runtime.active ≡ false
    pub final_phase : m.runtime.phase ≡ p
    pub stored : Stored w laws path m.runtime m.outside

  settle_restore-IsEnded :
      (path : String) (p : Phase) (r : Result E (Unit {0})) (m : Machine S E Num)
      → (r ≡ ok tt → IsEnded path p m)
      → (settle_restore w fl r m).0 ≡ ok tt
      → IsEnded path p (settle_restore w fl r m).1
  unfolding settle_restore pure ◌>>◌
  settle_restore-IsEnded path p (ok _) m ended done = ended refl
  settle_restore-IsEnded path p (err e) m ended done = absurd cc

  Stored-after_save :
      (path : String) (r : Runtime E Num) (s : S)
      → (save_steps w path r s).0 ≡ ok tt
      → Stored w laws path r (save_steps w path r s).1
  Stored-after_save path r s done = elim (save_steps_lem w laws path r s) [
    | inl (_, stored) ↦ stored
    | inr (e, lost, _) ↦ absurd cc
  ]

  restore_done-IsEnded :
      (p : Phase) (m : Machine S E Num)
      → (restore_done w fl p m).0 ≡ ok tt
      → IsEnded m.state_path p (restore_done w fl p m).1
  unfolding restore_done ◌>>=◌ ◌>>◌ update modify now save_locked outside
  restore_done-IsEnded p m = settle_restore-IsEnded m.state_path p _ _ λ saved. record {
    inactive = refl;
    final_phase = refl;
    stored = Stored-after_save m.state_path _ _ saved;
  }

  restore_end-IsEnded :
      (p : Phase) (es : Messages E Num) (m : Machine S E Num)
      → (restore_end w fl p es m).0 ≡ ok tt
      → (es ≡ []) × IsEnded m.state_path p (restore_end w fl p es m).1
  unfolding restore_end
  restore_end-IsEnded p [] m done = (refl, restore_done-IsEnded p m done)
  restore_end-IsEnded p (e ∷ es) m done = absurd (unfold restore_failed ◌>>=◌ ◌>>◌ pure in cc)

  -- Over a world that obeys DiskLaws, when restoreLocked reports success, the writes of the
  -- previous settings, run from some state of the world, reported no failure, the session is
  -- inactive in the phase asked for, and the state file holds that runtime.
  pub restore_locked-IsEnded :
      (p : Phase) (why : Reason) (m : Machine S E Num)
      → (restore_locked w fl p why m).0 ≡ ok tt
      → (s : S) × ((restore_settings w m.runtime.previous s).0 ≡ [])
        × IsEnded m.state_path p (restore_locked w fl p why m).1
  unfolding restore_locked ◌>>=◌ ◌>>◌ update modify now save_ignoring save_locked outside gets
  restore_locked-IsEnded p why m done =
      let (clean, ended) = restore_end-IsEnded p _ _ done in (_, clean, ended)

if-ok :
    {A B : Type 0} (b : Bool) (e : A) (x n : B)
    → (let r : Result A B = if b then err e else ok x in r) ≡ ok n
    → (b ≡ false) × (x ≡ n)
if-ok true e x n h = absurd cc
if-ok false e x n h = (refl, cc)

version_lem :
    (version : ℕ) (active : Bool)
    → not ((if (version == 1) && not active then 2 else version) == 2) ≡ false
    → ((if (version == 1) && not active then 2 else version) ≡ 2)
      × (version ≢ 2 → (version ≡ 1) × (active ≡ false))
version_lem version active h = (ground arith, λ n. ground arith)

module _ {S E Num : Type 0} (w : World S E Num) where
  accept_runtime-LoadedFrom :
      (r : Runtime E Num) (m n : Machine S E Num) → accept_runtime w m r ≡ ok n → LoadedFrom r m n
  unfolding accept_runtime
  accept_runtime-LoadedFrom r m n h =
      let (known, same) = if-ok _ _ _ n h in
      let (version, old) = version_lem r.version r.active known in
      subst (λ (k : Machine S E Num). LoadedFrom r m k) same
        (record {
          version = version;
          old = old;
          session = refl;
          resumed = refl;
          previous = refl;
          settings = refl;
          deadline = refl;
          elsewhere = (refl, refl);
        })

  -- When load of the state file succeeds, there is no file and the manager is as it was, or the
  -- file was parsed and the manager has a runtime of version 2 with the activity, previous
  -- settings, settings and deadline that were parsed, in the same world; it is marked to be resumed
  -- exactly if the session is active, and a runtime of another version than 2 was parsed only if it
  -- is version 1 without an active session.
  pub load-LoadedFrom :
      (m n : Machine S E Num)
      → load w m ≡ ok n
      → ((w.read_file m.state_path m.outside ≡ ok none) × (n ≡ m))
        ⊎ ((bytes : String) × (r : Runtime E Num) × (w.read_file m.state_path m.outside
              ≡ ok (some bytes))
            × (w.unmarshal bytes m.runtime ≡ ok r)
            × LoadedFrom r m n)
  unfolding load
  load-LoadedFrom m n h = elim (Result-cases (w.read_file m.state_path m.outside)) [
    | inr (e, failed) ↦ absurd (not_ok (rw (failed, load) at h))
    | inl (none, absent) ↦ inl (absent, sym (ok_same (rw (absent, load) at h)))
    | inl (some bytes, found) ↦ elim (Result-cases (w.unmarshal bytes m.runtime)) [
      | inr (e, failed) ↦ absurd (not_ok (rw (found, failed, load) at h))
      | inl (r, parsed) ↦
          inr (
            bytes,
            r,
            found,
            parsed,
            accept_runtime-LoadedFrom r m n (rw (found, parsed, load) at h),
          )
    ]
  ]
    where
      not_ok : {A B : Type 0} {e : A} {x : B} → (let r : Result A B = err e in r) ≡ ok x → ⊥
      not_ok h = absurd cc

      ok_same : {A B : Type 0} {x y : B} → (let r : Result A B = ok x in r) ≡ ok y → x ≡ y
      ok_same h = cc

-- ===== src/Storm/Session.antt =====
-- The session of internal/stormcharge/manager.go as an invariant of memory and disk, with rules for the
-- actions of the manager.
use srne_inverter_to_mqtt.Base.{String, true, ◌≡◌, ◌∙◌, inl, inr}
use srne_inverter_to_mqtt.Base.State.{Act, pure, ◌>>=◌, ◌>>◌, gets, modify}
use srne_inverter_to_mqtt.Base.Float.{Float64}
use srne_inverter_to_mqtt.Storm.Types.{PreviousSettings, Runtime, Machine}
use srne_inverter_to_mqtt.Storm.World.{World, outside, save_locked, save_steps, now}
use srne_inverter_to_mqtt.Storm.Manager.{update, save_ignoring}
use srne_inverter_to_mqtt.Storm.Disk.{DiskLaws, Stored, save_steps_lem}
use srne_inverter_to_mqtt.Storm.Quiet.{IsQuiet}

module _ {S E Num : Type 0} (w : World S E Num) (fl : Float64 Num) (laws : DiskLaws w)
    (path : String) (previous : PreviousSettings Num) where
  -- The runtime of an active session that would restore `previous`.
  pub record IsActive (runtime : Runtime E Num) : Type 0 where
    pub active : runtime.active ≡ true
    pub version : runtime.version ≡ 2
    pub same_previous : runtime.previous ≡ previous

  -- The state file holds such a runtime.
  pub record OnDisk (s : S) : Type 0 where
    pub runtime : Runtime E Num
    pub stored : Stored w laws path runtime s
    pub is_active : IsActive runtime

  -- Memory and disk both hold an active session with the same previous settings.
  pub record IsRecoverable (m : Machine S E Num) : Type 0 where
    pub same_path : m.state_path ≡ path
    pub in_memory : IsActive m.runtime
    pub on_disk : OnDisk m.outside

  pub OnDisk-same : {s t : S} → laws.file t path ≡ laws.file s path → OnDisk s → OnDisk t
  OnDisk-same e h = record {
    runtime = h.runtime;
    stored = record {
      bytes = h.stored.bytes;
      at_path = e ∙ h.stored.at_path;
      marshalled = h.stored.marshalled;
    };
    is_active = h.is_active;
  }

  -- A save of an active runtime leaves one on the disk, whether it succeeds or fails.
  pub OnDisk-save :
      (runtime : Runtime E Num) (s : S)
      → IsActive runtime
      → OnDisk s
      → OnDisk (save_steps w path runtime s).1
  OnDisk-save runtime s a h = elim (save_steps_lem w laws path runtime s) [
    | inl (_, stored) ↦ record { runtime = runtime; stored = stored; is_active = a }
    | inr (e, _, same) ↦ OnDisk-same same h
  ]

  -- From a recoverable machine the action ends in `Q` of its value and the next machine.
  pub record Leads {A : Type 0} (a : Act (Machine S E Num) A) (Q : A → Machine S E Num → Type 0)
      : Type 0 where
    pub at : (m : Machine S E Num) → IsRecoverable m → Q (a m).0 (a m).1

  abbrev pub Keeps : {A : Type 0} → Act (Machine S E Num) A → Type 0
  Keeps a = Leads a (λ _. IsRecoverable)

  pub Leads-bind :
      {A B : Type 0} {Q : B → Machine S E Num → Type 0} {a : Act (Machine S E Num) A}
      {f : A → Act (Machine S E Num) B}
      → Keeps a
      → ((x : A) → Leads (f x) Q)
      → Leads (a >>= f) Q
  unfolding ◌>>=◌
  Leads-bind {a} k l = record { at = λ m h. (l (a m).0).at (a m).1 (k.at m h) }

  pub Leads-then :
      {A B : Type 0} {Q : B → Machine S E Num → Type 0} {a : Act (Machine S E Num) A}
      {b : Act (Machine S E Num) B}
      → Keeps a
      → Leads b Q
      → Leads (a >> b) Q
  unfolding ◌>>◌
  Leads-then {a} k l = record { at = λ m h. l.at (a m).1 (k.at m h) }

  pub Keeps-gets : {A : Type 0} (f : Machine S E Num → A) → Keeps (gets f)
  unfolding gets
  Keeps-gets f = record { at = λ m h. h }

  pub Keeps-pure : {A : Type 0} (x : A) → Keeps (pure x)
  unfolding pure
  Keeps-pure x = record { at = λ m h. h }

  pub Keeps-update :
      (f : Runtime E Num → Runtime E Num)
      → ((r : Runtime E Num) → (f r).active ≡ r.active)
      → ((r : Runtime E Num) → (f r).version ≡ r.version)
      → ((r : Runtime E Num) → (f r).previous ≡ r.previous)
      → Keeps (update w fl f)
  unfolding update modify
  Keeps-update f a v p = record {
    at = λ m h. record {
      same_path = h.same_path;
      in_memory = record {
        active = a m.runtime ∙ h.in_memory.active;
        version = v m.runtime ∙ h.in_memory.version;
        same_previous = p m.runtime ∙ h.in_memory.same_previous;
      };
      on_disk = h.on_disk;
    };
  }

  pub Keeps-outside : {A : Type 0} {op : Act S A} → IsQuiet w laws path op → Keeps (outside w op)
  unfolding outside
  Keeps-outside q = record {
    at = λ m h. record {
      same_path = h.same_path;
      in_memory = h.in_memory;
      on_disk = OnDisk-same (q.at m.outside) h.on_disk;
    };
  }

  pub Keeps-now : Keeps (now w)
  unfolding now
  Keeps-now = Keeps-outside (record { at = λ s. laws.now_files s path })

  pub Keeps-save : Keeps (save_locked w)
  unfolding save_locked outside
  Keeps-save = record {
    at = λ m h. record {
      same_path = h.same_path;
      in_memory = h.in_memory;
      on_disk = rw h.same_path (OnDisk-save m.runtime m.outside h.in_memory h.on_disk);
    };
  }

  pub Keeps-save_ignoring : Keeps (save_ignoring w fl)
  unfolding save_ignoring
  Keeps-save_ignoring = record { at = Keeps-save.at }

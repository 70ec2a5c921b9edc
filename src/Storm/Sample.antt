-- ===== src/Storm/Sample.antt =====
-- A small world for the tests of the manager: files as a function, an inverter that accepts every write,
-- and a store of three runtimes.
use text.Mathlib.Text.{◌==◌ as str_eq}
use text.Mathlib.TextEquality.{eq_iff}
use srne_inverter_to_mqtt.Base.{
  ℕ, String, Bool, true, false, not, ◌&&◌, ◌≡◌, ◌≢◌, refl, List, [], ◌∷◌, Option, some, Result, ok,
  err, ◌==◌, if◌then◌else◌, arith,
}
use srne_inverter_to_mqtt.Base.Int.{ℤ, pos, negsuc}
use srne_inverter_to_mqtt.Base.Whole.{whole_numbers}
use srne_inverter_to_mqtt.Storm.Types.{
  Phase, starting, charging, cancelled, Reason, no_reason, manual_cancel, PreviousSettings, Runtime,
}
use srne_inverter_to_mqtt.Storm.World.{World}
use srne_inverter_to_mqtt.Storm.Manager.{empty_runtime}
use srne_inverter_to_mqtt.Storm.Disk.{DiskLaws}

abbrev pub Failure : Type 0
Failure = Unit {0}

abbrev pub old_settings : PreviousSettings ℕ
old_settings = record {
  battery_charge_cutoff_soc = pos 90;
  mains_charge_current_a = 20;
  timed_charge_schedule = 1 ∷ 2 ∷ [];
}

abbrev pub session : Bool → Phase → ℕ → Reason → Runtime Failure ℕ
session active phase deadline why = record {
  version = 2;
  active = active;
  phase = phase;
  settings = record { target_soc = pos 95; max_current_a = 50; timeout = pos 3600000000000 };
  previous = old_settings;
  started_at = 0;
  deadline = deadline;
  updated_at = 0;
  reason = why;
  last_error = [];
}

abbrev pub is_pos : ℕ → ℤ → Bool
is_pos n (pos m) = n == m
is_pos n (negsuc m) = false

abbrev pub is_starting : Phase → Bool
is_starting starting = true
is_starting _ = false

abbrev pub is_charging : Phase → Bool
is_charging charging = true
is_charging _ = false

abbrev pub is_cancelled : Phase → Bool
is_cancelled cancelled = true
is_cancelled _ = false

abbrev pub is_no_reason : Reason → Bool
is_no_reason no_reason = true
is_no_reason _ = false

abbrev pub is_manual : Reason → Bool
is_manual manual_cancel = true
is_manual _ = false

abbrev pub is_nil : {A : Type 0} → List A → Bool
is_nil [] = true
is_nil (x ∷ xs) = false

-- The two words that this inverter gives as its schedule.
abbrev pub is_kept : List ℕ → Bool
is_kept (a ∷ b ∷ []) = (a == 1) && (b == 2)
is_kept _ = false

abbrev pub is_plain : Runtime Failure ℕ → Bool
is_plain r =
    (r.version == 2)
    && is_pos 95 r.settings.target_soc
    && (r.settings.max_current_a == 50)
    && is_pos 3600000000000 r.settings.timeout
    && is_pos 90 r.previous.battery_charge_cutoff_soc
    && (r.previous.mains_charge_current_a == 20)
    && is_kept r.previous.timed_charge_schedule
    && (r.started_at == 0)
    && (r.updated_at == 0)
    && is_nil r.last_error

abbrev pub is_first : Runtime Failure ℕ → Bool
is_first r =
    is_plain r
    && r.active
    && is_starting r.phase
    && is_no_reason r.reason
    && (r.deadline == 3600000000000)

abbrev pub is_running : Runtime Failure ℕ → Bool
is_running r =
    is_plain r
    && r.active
    && is_charging r.phase
    && is_no_reason r.reason
    && (r.deadline == 3600000000000)

abbrev pub is_over : Runtime Failure ℕ → Bool
is_over r =
    is_plain r && not r.active && is_cancelled r.phase && is_manual r.reason && (r.deadline == 0)

abbrev pub first_runtime : Runtime Failure ℕ
first_runtime = session true starting 3600000000000 no_reason

abbrev pub running_runtime : Runtime Failure ℕ
running_runtime = session true charging 3600000000000 no_reason

abbrev pub over_runtime : Runtime Failure ℕ
over_runtime = session false cancelled 0 manual_cancel

abbrev pub marshal : Runtime Failure ℕ → Result Failure String
marshal r =
    if is_first r
    then ok "starting"
    else if is_running r
    then ok "running"
    else if is_over r
    then ok "cancelled"
    else err tt

abbrev pub unmarshal : String → Runtime Failure ℕ → Result Failure (Runtime Failure ℕ)
unmarshal s r =
    if str_eq s "starting"
    then ok first_runtime
    else if str_eq s "running"
    then ok running_runtime
    else if str_eq s "cancelled"
    then ok over_runtime
    else err tt

abbrev pub Files : Type 0
Files = String → Option String

abbrev pub one_world : World Files Failure ℕ
one_world = record {
  write_register = λ id v s. (ok tt, s);
  read_holding_words = λ a n s. (ok (1 ∷ 2 ∷ []), s);
  write_holding_words = λ a ws s. (ok tt, s);
  mkdir_all = λ p s. (ok tt, s);
  write_file = λ p c s. (ok tt, λ q. if str_eq q p then some c else s q);
  rename = λ p q s. (ok tt, λ r. if str_eq r q then s p else s r);
  read_file = λ p s. ok (s p);
  marshal = marshal;
  unmarshal = unmarshal;
  now = λ s. (0, s);
}

abbrev pub idle_runtime : Runtime Failure ℕ
idle_runtime = empty_runtime one_world whole_numbers

pub str_eq_refl : (s : String) → str_eq s s ≡ true
str_eq_refl s = ground (arith, eq_iff s s)

pub str_eq-ne : (s t : String) → s ≢ t → str_eq s t ≡ false
str_eq-ne s t h = ground (arith, eq_iff s t)

unfoldable pub disk_laws : DiskLaws one_world
disk_laws = record {
  file = λ s p. s p;
  mkdir_all_files = λ p q s. refl;
  write_file_others = λ p c q s h. rw (str_eq-ne q p h) refl;
  write_file_ok = λ p c s h. rw (str_eq_refl p) refl;
  rename_ok = λ p q s h. rw (str_eq_refl q) refl;
  rename_err = λ p q s e h. absurd cc;
  write_register_files = λ id v s q. refl;
  write_holding_words_files = λ a ws s q. refl;
  read_holding_words_files = λ a n s q. refl;
  now_files = λ s q. refl;
}

-- ===== src/Modbus/Blocks.antt =====
-- A device that holds words in its registers, and the connection of internal/modbus/service.go to it.
use srne_inverter_to_mqtt.Base.{
  ℕ, List, take, Result, ok, err, ◌≡◌, refl, ap, ◌∙◌, Option-cases, Result-cases, inl, inr, arith,
}
use srne_inverter_to_mqtt.Base.Int.{ℤ}
use srne_inverter_to_mqtt.Config.Types.{Config, SerialConfig}
use srne_inverter_to_mqtt.Config.Endpoint.{rtu, rtu_over_tcp, modbus_tcp, connection_mode}
use srne_inverter_to_mqtt.Registers.Words.{words_of_bytes}
use srne_inverter_to_mqtt.Modbus.Types.{BusError, Link, Bus}
use srne_inverter_to_mqtt.Modbus.Connection.{
  open_client, wrap_connect, close_locked, keep_client, reopen, ensure_client, call, read_again,
  read_holding_with_retry, report_error, report_connected,
}

-- `block s a n` is what `n` registers from `a` hold. A read that succeeds returns their words, high
-- byte first, and only writes change them.
pub record HoldsWords {S C E : Type 0} (link : Link S C E) : Type 0 where
  pub block : S → ℕ → ℕ → List ℕ
  pub read_words :
      (c : C) (a n : ℕ) (s : S) (bytes : List ℕ)
      → (link.read_holding_registers c a n s).0 ≡ ok bytes
      → take n (words_of_bytes bytes) ≡ block s a n
  pub read_keeps :
      (c : C) (a' n' : ℕ) (s : S) (a n : ℕ)
      → block (link.read_holding_registers c a' n' s).1 a n ≡ block s a n
  pub close_keeps : (c : C) (s : S) (a n : ℕ) → block (link.close c s) a n ≡ block s a n
  pub serial_keeps :
      (p : SerialConfig) (parity : List ℕ) (slave : ℕ) (s : S) (a n : ℕ)
      → block (link.connect_serial p parity slave s).1 a n ≡ block s a n
  pub rtu_over_tcp_keeps :
      (address : List ℕ) (slave : ℕ) (timeout : ℤ) (s : S) (a n : ℕ)
      → block (link.connect_rtu_over_tcp address slave timeout s).1 a n ≡ block s a n
  pub modbus_tcp_keeps :
      (address : List ℕ) (timeout : ℤ) (slave : ℕ) (s : S) (a n : ℕ)
      → block (link.connect_modbus_tcp address timeout slave s).1 a n ≡ block s a n
  pub now_keeps : (s : S) (a n : ℕ) → block (link.now s).1 a n ≡ block s a n

module _ {S C E Num : Type 0} (link : Link S C E) (cfg : Config Num) (holds : HoldsWords link)
    (a n : ℕ) where
  abbrev pub block_of : Bus S C → List ℕ
  block_of bus = holds.block bus.outside a n

  close_locked-block : (bus : Bus S C) → block_of (close_locked link cfg bus) ≡ block_of bus
  unfolding close_locked
  close_locked-block bus = elim (Option-cases bus.client) [
    | inl idle ↦ ground arith
    | inr (c, opened) ↦ ground (arith, holds.close_keeps c bus.outside a n)
  ]

  wrap_connect-state : (r : Result E C × S) → (wrap_connect link cfg r).1 ≡ r.1
  unfolding wrap_connect
  wrap_connect-state (ok c, s) = refl
  wrap_connect-state (err e, s) = refl

  wrapped :
      (r : Result E C × S) (s : S)
      → holds.block r.1 a n ≡ holds.block s a n
      → holds.block (wrap_connect link cfg r).1 a n ≡ holds.block s a n
  wrapped r s h = ap (λ (t : S). holds.block t a n) (wrap_connect-state r) ∙ h

  open_client-block : (s : S) → holds.block (open_client link cfg s).1 a n ≡ holds.block s a n
  unfolding open_client
  open_client-block s = elim (Result-cases (connection_mode cfg.serial)) [
    | inr (e, unknown) ↦ rw (unknown, open_client) refl
    | inl (rtu, mode) ↦ rw (mode, open_client) (wrapped _ s (holds.serial_keeps _ _ _ s a n))
    | inl (rtu_over_tcp, mode) ↦
        rw (mode, open_client) (wrapped _ s (holds.rtu_over_tcp_keeps _ _ _ s a n))
    | inl (modbus_tcp, mode) ↦
        rw (mode, open_client) (wrapped _ s (holds.modbus_tcp_keeps _ _ _ s a n))
  ]

  keep_client-block :
      (bus : Bus S C) (r : Result (BusError E) C × S)
      → block_of (keep_client link cfg bus r).1 ≡ holds.block r.1 a n
  unfolding keep_client
  keep_client-block bus (ok c, s) = refl
  keep_client-block bus (err e, s) = refl

  reopen-block : (bus : Bus S C) → block_of (reopen link cfg bus).1 ≡ block_of bus
  unfolding reopen
  reopen-block bus =
      keep_client-block (close_locked link cfg bus) _
      ∙ open_client-block (close_locked link cfg bus).outside
      ∙ close_locked-block bus

  pub ensure_client-block : (bus : Bus S C) → block_of (ensure_client link cfg bus).1 ≡ block_of bus
  unfolding ensure_client
  ensure_client-block bus = elim (Option-cases bus.client) [
    | inl idle ↦ ground (arith, reopen-block bus)
    | inr (c, opened) ↦ ground (arith, reopen-block bus)
  ]

  -- A read that succeeds returns the words that the device holds, at either attempt.
  read_again-words :
      (e : E) (bytes : List ℕ) (r : Result (BusError E) C × Bus S C)
      → (read_again link cfg e a n r).0 ≡ ok bytes
      → take n (words_of_bytes bytes) ≡ block_of r.1
  unfolding read_again call
  read_again-words e bytes (ok c, bus) h =
      elim (Result-cases (link.read_holding_registers c a n bus.outside).0) [
        | inl (got, found) ↦ ground (arith, holds.read_words c a n bus.outside bytes)
        | inr (x, lost) ↦ ground arith
      ]
  read_again-words e bytes (err x, bus) h = absurd cc

  read_again-block :
      (e : E) (r : Result (BusError E) C × Bus S C)
      → block_of (read_again link cfg e a n r).1 ≡ block_of r.1
  unfolding read_again call
  read_again-block e (ok c, bus) =
      elim (Result-cases (link.read_holding_registers c a n bus.outside).0) [
        | inl (got, found) ↦ rw (found, read_again) (holds.read_keeps c a n bus.outside a n)
        | inr (x, lost) ↦ rw (lost, read_again) (holds.read_keeps c a n bus.outside a n)
      ]
  read_again-block e (err x, bus) = refl

  abbrev first_read : C → Bus S C → Result E (List ℕ) × Bus S C
  first_read c bus = call link cfg (link.read_holding_registers c a n) bus

  first_read-block : (c : C) (bus : Bus S C) → block_of (first_read c bus).1 ≡ block_of bus
  unfolding call
  first_read-block c bus = holds.read_keeps c a n bus.outside a n

  reconnected-block :
      (c : C) (bus : Bus S C)
      → block_of (ensure_client link cfg (close_locked link cfg (first_read c bus).1)).1
        ≡ block_of bus
  reconnected-block c bus =
      ensure_client-block (close_locked link cfg (first_read c bus).1)
      ∙ close_locked-block (first_read c bus).1
      ∙ first_read-block c bus

  pub read_holding_with_retry-block :
      (c : C) (bus : Bus S C)
      → block_of (read_holding_with_retry link cfg c a n bus).1 ≡ block_of bus
  unfolding read_holding_with_retry
  read_holding_with_retry-block c bus = elim (Result-cases (first_read c bus).0) [
    | inl (got, found) ↦ rw (found, read_holding_with_retry) (first_read-block c bus)
    | inr (e, lost) ↦
        rw (lost, read_holding_with_retry) (read_again-block e _ ∙ reconnected-block c bus)
  ]

  pub read_holding_with_retry-words :
      (c : C) (bus : Bus S C) (bytes : List ℕ)
      → (read_holding_with_retry link cfg c a n bus).0 ≡ ok bytes
      → take n (words_of_bytes bytes) ≡ block_of bus
  unfolding read_holding_with_retry call
  read_holding_with_retry-words c bus bytes h = elim (Result-cases (first_read c bus).0) [
    | inl (got, found) ↦ ground (arith, holds.read_words c a n bus.outside bytes)
    | inr (e, lost) ↦
        read_again-words e bytes _ (rw (lost, read_holding_with_retry) at h)
        ∙ reconnected-block c bus
  ]

  pub report_connected-block :
      (bus : Bus S C) → block_of (report_connected link cfg bus) ≡ block_of bus
  unfolding report_connected
  report_connected-block bus =
      holds.now_keeps (link.now bus.outside).1 a n ∙ holds.now_keeps bus.outside a n

  pub report_error-block :
      (e : BusError E) (bus : Bus S C) → block_of (report_error link cfg e bus) ≡ block_of bus
  unfolding report_error
  report_error-block e bus = holds.now_keeps bus.outside a n

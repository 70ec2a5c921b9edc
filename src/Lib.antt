-- ===== src/Lib.antt =====
-- Verification library for srne-inverter-to-mqtt, a Go program that reads an SRNE inverter over
-- Modbus, publishes its registers over MQTT and HTTP, sets its clock and runs managed storm charge
-- sessions.
--
-- The parts and the files that model them, with paths from the repository's root:
--
-- - Rtu: internal/modbus/rtu_tcp.go. Crc, Frame and Client hold the CRC, `Encode`, `Verify`,
--   `Decode` and `Send` with its connection. The network of one call is a parameter: what dialling
--   gives, whether the deadline and the write succeed, and the pieces in which bytes arrive. A
--   slice bound beyond the 256 bytes of the buffer is the result `fault`, an index past the end of
--   the request the result `short_request`.
-- - Modbus: internal/modbus/service.go. Connection holds `ensureClientLocked`, `OpenClient`,
--   `closeLocked`, `serialKey` and `readHoldingWithRetryLocked`; Holding holds `ReadHoldingWords`,
--   `WriteHoldingWords` and `verifyWriteLocked`; Thresholds holds `validateWriteLocked` and
--   Writing `WriteRegister`; Polling holds `pollGroup`. The library gomodbus is the record `Link`;
--   `HoldsWords` in Blocks says what is relied on of a device: a read that succeeds returns what
--   the registers hold, and only writes change them. The waits between calls are left out, and a
--   method holds the service's lock for its whole run, so it is one step. The store that a poll or
--   a write changes is part of the service's state.
-- - Clock: internal/inverterclock/clock.go. Codec holds `Decode`, `Encode` and `validate`; Device
--   holds `Read` and `Set` over the interface `WordAccessor`, for which Modbus.BlockLaws gives an
--   accessor.
-- - Registers: internal/registers/catalog.go. Words, Decode, Write and Plan hold the payload
--   words, `Decode`, `EncodeWrite` and `BuildReadPlanForRegisters`. Go's unstable sort is an
--   insertion sort; what is stated of the plan does not depend on the order of equal addresses.
--   Registers.Catalog has the registers of each type of inverter, table by table, with the groups,
--   the plans and the searches of the catalog.
-- - Store: internal/state/store.go. Services holds `SetServiceStatus`, Values `UpsertTelemetry`,
--   View `Snapshot`, and Derived the telemetry that a snapshot computes from the stored values.
-- - Config: internal/config/config.go. Endpoint and Validate hold `ConnectionMode`, `TCPAddress`,
--   `NormalizedInverterType` and `Validate`; Disk holds `Save`, `Load` and `LoadOrCreate` over the
--   record `ConfigFiles` of files and YAML; `KeepsFiles` says what is relied on of the files, and
--   nothing is relied on of YAML.
-- - Storm: internal/stormcharge/manager.go. Manager holds `Start`, `Cancel` and `restoreLocked`;
--   Evaluate holds `evaluate`; World holds `saveLocked` and `load`; Registers the writes to the
--   inverter; Telemetry the questions to a snapshot. Each exported method holds the manager's lock
--   for its whole run, so it is one step on the state `Machine`. The register writer, the file
--   system, the YAML package with the tags of the fields, and the clock are the record `World`;
--   `DiskLaws` in Disk says what is relied on of the files, and nothing is relied on of YAML.
--   Session defines a recoverable session and the rules to keep it; Recovery, Steps, Start and
--   Restart apply them to the operations. Schedule is about the timed charge schedule on an
--   inverter that holds words (`WordLaws`).
-- - App: internal/app/app.go. Operations holds the operations of the web interface and of MQTT,
--   which share one world with the manager; Watchdog holds `shouldTriggerWatchdog`. Steps is the
--   step relation of the operations, the manager's evaluations, and what other services do to the
--   world; Frozen is about the steps of a running session. Commands makes the application the
--   record `Provider` that the MQTT service calls.
-- - Mqtt: internal/mqtt/service.go. Topics holds the topics and `sanitizeID`, Client holds
--   `ensureClient`, `resetClient`, `recordError` and `disconnect`, Publish the publishing of
--   telemetry and of a command's state, StormTopics `publishStormCharge` with the order of the
--   map's entries as a parameter, and Commands the routes and handlers of messages, which the
--   routes' lemmas in RouteLaws and those on a session in CommandLaws are about. The library paho
--   is the record `Broker`; its callbacks are not modelled, and `Connect` or `Publish` with the
--   wait for its token is one call.
-- - Base: shared types, Boolean tests, lists, signed numbers, texts, and state passing.
--
-- Bounds: words are numbers below 2^16 and bytes below 256 where a theorem says so; sums of
-- `uint16` wrap as written. Decimal digits are printed on fuel of one turn more than the number,
-- which has fewer digits. No other definition uses fuel: loops run over lists or fixed counts.
--
-- float64 is a parameter: a type with the operations that the source applies (Base.Float), of
-- which nothing is assumed. Texts are compared by ASCII letters and blanks. Times are nanoseconds
-- with 0 for Go's zero time. Error messages are constructors with the values that they print.
--
-- Not modelled: the scheduler of the polls and every wait; of MQTT the discovery messages, `sync`
-- and the call that subscribes; HTTP, the commands and the web interface, which read requests and
-- print; `New` and `Run` of the application, which wire the services; the manager's `Status`;
-- logging; and what YAML makes of the types: the tags of their fields and the text form of a
-- duration.
pub mod Base
pub mod Rtu
pub mod Clock
pub mod Registers
pub mod Store
pub mod Storm
pub mod Config
pub mod Modbus
pub mod App
pub mod Mqtt

-- ===== src/Lib.antt =====
-- roo_wifi: portable Wi-Fi management (src/roo_wifi).
--
-- The parts of the program and the files that model them:
--   * Base: lists over the native numbers, Boolean tests, bit operations and integers that the
--     other modules share.
--   * Types: the structs and enumerations of status.h, network.h, configuration.h, profile.h,
--     operation.h and radio.h. An array with a length is a list of bytes with a size. An enumeration
--     that is read from storage has a constructor `unnamed` for the values without a name, so that
--     a cast from a byte is total.
--   * Configuration: configuration.cpp, with Validate, ValidateSupport and SecurityAllows. Subnet has
--     the arithmetic of static addresses, Secrets the rules for credentials.
--   * Codec: the two binary records and the keys of hal/field_store.cpp. Writer and Reader are
--     records; a decoder is a computation that reads and may stop.
--   * FieldStore: the operations of hal/field_store.cpp over a Backend, the four virtual functions
--     that a platform implements. What the code relies on is IsDurable: a successful write or erase
--     is seen by the next read and touches one field. A call that changes fields returns its status
--     with the fields that it leaves.
--   * Ordered: hal/ordered_interface.h and ordered_interface.cpp. Events and Queue are the ring of
--     native events, Machine is drain and what it calls, Commands are the requests of the controller.
--     The native station is a parameter, NativeStation: each command gives a status and the station
--     that it leaves. What the adapter tells its sink is a list of outputs, latest first; the
--     controller's callbacks do not call the adapter's commands, so nothing happens between them.
--     Tally counts the reports of an operation, Runs orders calls, posts and turns of the scheduler in
--     any way, Fifo and Turns are about the queue, Reports about the outcome of a connection.
--   * Control: controller.h and controller.cpp. Interfaces has class Interface and class Store as
--     parameters, State the members of the controller, Retry the notification, the timers and the
--     retry policy, Requests and Listeners the public calls, Events the callbacks of the sink and Work
--     the three tasks. Diagram is the abstract state machine, with Frames, Moves, Tasks and Rounds the
--     proof that the code follows it; Runs is about sequences of steps, Completion, Faults,
--     Intents and RetryBounds about what their names say. Parts fills the two interfaces with OrderedInterface and
--     FieldStore.
--   * Prefs: hal/prefs/prefs_store.cpp. Library has the calls of roo_prefs as parameters, with the laws
--     that the code relies on, Operations the functions of PrefsStore, which fill Backend of FieldStore
--     and Platform of Control. Durable is about the fields, Enabled about the stored enablement.
--   * Tests: each theorem at a concrete input, with a backend in memory and a station that is willing.
--
-- The controller asks the store for a profile and its credential, checks them with Validate and
-- ValidateSupport and passes them to the radio; the adapter queues native events and reports
-- completions to the controller, which acts on them in its own tasks.
--
-- Bounds: a uint8_t keeps its wrap-around where the source narrows to it, hashes, ids and revisions
-- are taken modulo 2^64 and the jitter modulo 2^32. The loop of drain runs on fuel, one more than the
-- events in the queue. Every other loop of the modelled code runs over a list and ends with it. Time
-- is the clock of the controller in microseconds, and Uptime::Max() is a value of its own. A task
-- object of the scheduler is whether, or when, it is scheduled; the clock stands still within a task.
--
-- Not modelled: the ESP32 station (hal/esp32), which is calls of a driver outside the repository; the mutex of the adapter, since a
-- post from another thread is a step of its own between the turns of the scheduler; the getters of
-- Controller that read one member.
pub mod Base
pub mod Types
pub mod Configuration
pub mod Codec
pub mod FieldStore
pub mod Tests
pub mod Ordered
pub mod Control
pub mod Prefs

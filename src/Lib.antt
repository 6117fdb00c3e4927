-- ===== src/Lib.antt =====
-- A client for Spin EV chargers (src/spinev_ble), which talks to the charger in frames of eight bytes
-- over Bluetooth or an OCPP tunnel.
--
-- The program has three layers. src/spinev_ble/protocol.py builds and parses frames and is pure.
-- src/spinev_ble/charger.py holds `SpinEvCharger`: requests that wait for the matching reply, writes
-- that wait for their delivery, and methods built from these two. A transport
-- (src/spinev_ble/transports) carries the frames, and calls the client back with each payload that
-- arrives and when the link drops.
--
-- Files and what they model:
--   Errors, Const, Models, Float  src/spinev_ble/exceptions.py, const.py and models.py. Python's
--     floats are a parameter, the record `Floats`: the type, `struct`'s packing, and the order.
--   Protocol/Frames    build_read, build_write_uint, build_write_float, build_commit, parse_frame,
--     is_reply and the value decoders
--   Protocol/Text      build_string_write, decode_string, decode_firmware_version
--   Protocol/Clock     build_clock_time, build_clock_date, build_timezone
--   Protocol/Control   build_control, check_control_reply
--   Protocol/Alarms    the alarm table, its index, decode_alarm_defs, decode_alarms,
--     build_alarm_read
--   Protocol/History   decode_session_record, is_history_record
--   Charger/State      the state of `SpinEvCharger`, `_on_notify` and `_on_disconnect`
--   Charger/Exchange   `_deliver`, `_exchange`
--   Charger/Write      `_send_frame`
--   Charger/Session    `_request`, `_require_transport`, `_send`, `_write_frames`, and the monad of
--     the methods
--   Charger/Reads, Control, Limit, Settings, History   the public methods
--   Charger/Calls      any sequence of calls of the methods, with the rules of Session/Preserve for
--     what a method leaves true
--   Charger/Connect    `async_connect` and the `async with` block, over the operations of any
--     transport, and in Connect/Slot over Bluetooth
--   Transport/Contract src/spinev_ble/transports/base.py: the interface as a record of operations and
--     laws, over the callbacks that a link is up for, and what each event leads to
--   Transport/Ble      src/spinev_ble/transports/ble.py, in Link as a transport of the interface and in
--     Radio under the client's methods
--   Transport/Hex, Ocpp  src/spinev_ble/transports/ocpp.py: `_parse_reply`, and the tunnel, in Link as
--     a transport of the interface and in Tunnel under the client's methods
--   Cli                src/spinev_ble/__main__.py: the ways in which a command ends and the exit code
--   Cli/Find, Ocpp     the choice of the charger, and the block of the `ocpp` command
--   Cli/Number, Lines  Python's `int(value, 0)`, the numbers and the lines that are printed
--   Cli/Run, Commands  `_open`, the `async with` block, and each command to its last line
--   Cli/Program        the defaults of the arguments, the environment variable, and `main`
--   Exports            src/spinev_ble/__init__.py and transports/__init__.py: `__all__` and the lazy
--     imports
--   Base, Tests        shared helpers, and the theorems on concrete data
--
-- How the correspondence goes. A byte string and a text are lists of numbers. A number of Python is
-- a natural number where the code never sees a negative one, and an integer where it tests for it.
-- An exception is a value of `Result`; a message is left out. A future lives in a store, and the
-- dictionaries of the client hold its index. A coroutine is a state machine: between two
-- resumptions lie the events of the transport and the clock, in an arbitrary list. At the end of
-- the list the deadline of `asyncio.timeout` passes and the coroutine is resumed, so a run always
-- ends, and no fuel is used. A send that is asked to stop goes on until it ends, and a coroutine that
-- awaits it is resumed with its end. The client's lock is the order of the calls: one method at a time is
-- in its critical section. A method is an action on a `Session`, the client with the frames that
-- were handed to the transport, over a `World`: whether the transport is connected and which events
-- come, each as a function of those frames. In the collection of history records an event comes
-- with the milliseconds since the one before.
--
-- A transport is modelled apart from the client, by its own state and the callbacks that it calls.
-- The calls that leave the repository are arguments by their outcomes: those of bleak, the
-- `data_transfer` of the OCPP server, Python's `ip_address`, `int` and the `\d` of `re`. An operation
-- that awaits one of them is cut there, so that anything may happen in between. Under the client's
-- methods the events of a frame are those that the transport gives.
--
-- A run of the command line keeps the transport, the client and the lines printed so far. What bleak
-- discovers, or the exception that it raises, which options argparse finds in the words, the formats of floats and dates and `repr` are
-- arguments.
--
-- Not modelled: how argparse splits the words of the command line, what is written to the standard
-- error, the event loop's start and end, Ctrl-C inside a run, and log lines. The cancellation of the
-- caller's own task is not an event of a run. Energy is kept in hundredths of a kWh, before the division
-- that turns it into a float. The docstrings and the type declarations of the source have no part in a
-- run.
pub mod Base
pub mod Errors
pub mod Const
pub mod Models
pub mod Float
pub mod Protocol
pub mod Charger
pub mod Transport
pub mod Cli
pub mod Exports
pub mod Tests

-- ===== src/Lib.antt =====
-- ostool builds, boots and tests operating systems on boards. This library models the parts of it
-- that carry its own logic, and proves what makes them correct:
-- - ostool-server hands boards to clients. `AppState` (ostool-server/src/state.rs) keeps the boards,
--   their leases, the sessions and the queue of release jobs; a client gets a session on a board that
--   ostool-server/src/board_pool.rs chooses; an actor (ostool-server/src/session.rs) begins the
--   release of a session that is asked to stop, and a release job gives the board back. The handlers
--   of ostool-server/src/api/router.rs change the inventory of the boards.
--   ostool-server/src/admin_events.rs publishes what has changed to administrators, who follow it.
-- - httpboot-protocol has what the server and the firmware of a board both speak: the address of a
--   board, and the beacons by which a board is found on a serial line.
-- - ostool-serial finds boards on the serial ports: one actor (ostool-serial/src/manager.rs) has the
--   ports scanned while somebody asks for a board, and leases the port on which it has been found.
-- - fitimage writes FIT images: device trees that hold a kernel, its device tree and a ramdisk.
-- - uboot-shell sends such an image to U-Boot over a serial line, by YMODEM.
--
-- The files and what they model:
-- - Prelude: tests on numbers, texts as lists of code points, words as bytes (Words), maps in the
--   order of their keys (Map), and lists (Lists).
-- - Fit/StringTable, Fit/Tokens, Fit/Header, Fit/Config: string_table.rs, fdt_tokens.rs,
--   fdt_header.rs and config.rs of fitimage/src/fit. Fit/Builder is `StandardFdtBuilder` of
--   standard_dt_builder.rs, its functions under their names; Fit/Image is `FitImageBuilder::build` of
--   builder.rs. Fit/Crc is fitimage/src/crc.rs. Fit/Reader is an independent reader of the format,
--   against which the writer is judged.
-- - Uboot/Crc and Uboot/Ymodem: crc.rs and ymodem.rs of uboot-shell/src. The device is the bytes that
--   it will deliver and the number of those that it will take; the file is what its reads give.
--   Uboot/Ymodem/Receive is an independent receiver.
-- - Server/BoardPool: board_pool.rs. Server/Session: `SessionState` of session.rs, one function per
--   atomic operation or section under a lock. Server/State: the leases; its children Create
--   (`create_session_inner`), Sessions (heartbeats, stops, expiry and the actor) and Release
--   (`process_release_job`, `retry_release_step`). Server/Inventory: the three handlers.
--   Server/Tftp: the paths of tftp/files.rs.
--   Server/System: all of these as steps of tasks over one state, in any order; a creation lets
--   other steps happen between its choice of a board and its claim, except those that hold the gate of
--   the inventory as it does.
-- - Server/AdminEvents: admin_events.rs, with its children Projector (`start`) and Subscribe
--   (`subscribe`, one turn of its loop at a time, and what an administrator makes of the updates).
--   JSON values, their equality and the owners of the topics are parameters.
-- - Serial: ostool-serial. Serial/Ports is lib.rs; Serial/Discovery, Serial/Events, Serial/Reconcile and
--   Serial/Spawn are `command`, `event` and the parts of `reconcile` of manager.rs, and Serial/Turns its
--   loop, a turn at a time. A channel for a reply is a number; a task is a worker that may end in an
--   event at any time; `std::fs::canonicalize` is a parameter. Serial/Scan is that task, `scan`: a
--   list says what happens in each turn of its loop. Serial/Lease is `SerialLease` of lib.rs as its
--   holder uses it.
-- - Protocol: the MAC address of httpboot-protocol/src/lib.rs. Protocol/Serial: serial.rs beside it.
-- - Tests: runs on small inputs, and the theorems applied to them.
--
-- Bounds and loops. Numbers are unbounded where the code's have 64 bits, and keep their wrap-around
-- where they have 32 bits or fewer: an image that is read back is below 4 GiB. A revision of the
-- administrators' projection is read back from a cursor, so that it is below 2^64; the sequence of the
-- serial leases, whose overflow is a panic, has no bound. The turns of the
-- creation's loop and the rounds of a release are a list of what the surroundings do in each; that one
-- turn is enough is proved, and that a release ends with the first round whose steps succeed. The
-- loops of YMODEM are recursions on the bytes still to come or on the tries, and that of a scan one on
-- the list of its turns, after which it has ended or goes on.
--
-- What is not modelled: times of waiting, power actions, files, serial runtimes and the network;
-- what the modelled code learns from them is an argument. `uuid` gives identifiers that no session
-- has: a hypothesis, where a proof needs it. The claim of a board and the insertion of its session
-- are one step, as nobody else has the identifier in between; so are the look at the lease and the
-- change of the inventory in a handler, which holds the gate throughout. When the actor takes a stop,
-- `begin_release`, the change of the board and the job for its release are one step; so are the test
-- and the exchange of `request_stop`, and the whole loop of the clean-up. The `drop` of a session comes
-- after all operations on it. The echo of what a device writes, and its failure, are left out; so are
-- the command line, jkconfig, the web interface and the drivers of the hardware. The compressor and the
-- CRC32 of the third-party crates are parameters.
pub mod Prelude
pub mod Fit
pub mod Uboot
pub mod Protocol
pub mod Server
pub mod Serial
pub mod Tests

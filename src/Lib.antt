-- ===== src/Lib.antt =====
-- kfsw-services: flight services in C for the Zephyr kernel. This library models the services that
-- keep the spacecraft's own state: the event ring, the two watchdog services, the firmware update with
-- its lightweight upload protocol, the limit rules, the registry of commands with the wire format and
-- the ticket cache of remote ones, the queue of time-tagged releases, and the packets and paths of the
-- file transfer, and the journal's file. Paths are from the repository's root.
--
-- How the parts interact. The ground watchdog, the health service and the limit rules emit events into
-- the event ring; the lightweight upload drives the firmware update; the ticket cache decodes a
-- command's arguments with the codec of the wire format before it calls the registry. The models use
-- one another in the same way: the events are of one type, `Event.Emission`, and the request handler
-- calls the functions of `Fwu`. The queue of releases takes the command service as the interface
-- `Schedule.Commands`, which `Schedule.Local` fills with the registry.
--
-- Files.
--   Common: names of the libraries, lists with native indices, words, return codes, integers.
--   Event: src/event/event.c. The static variables are `State`; kfsw_event_emit is `emit`, in two parts,
--     `is_refused` and `store`; kfsw_event_get, _visit, _get_stats and _clear have their names.
--   Gndwdt: src/gndwdt/gndwdt.c. kfsw_gndwdt_start, _stop, _evaluate, _get_status, _set_timeout_s and
--     _set_enabled have their names, the command handler is `ground_wtd`, and the work handler is cut at
--     the places at which it gives up its lock.
--   Health: src/health/health.c. The functions have their names without the prefix; the table is in
--     Health, the evaluation of the deadlines in Health.Supervise.
--   Fwu: src/fwu/fwu.c in a build with a target partition and MCUboot. What flash, stream writer and
--     bootloader answer is a record of each call, `Answers`.
--   FwuLite: src/fwu/fwu_lite_protocol.c. `encode`, `decode` and `handle`.
--   Limits: src/limits/limits.c, from the reading of a parameter to the release of an action.
--   Command: src/command/command_protocol.c, and in Command.Retry src/command/command_retry.c.
--   Registry: src/command/command.c. kfsw_command_init, _find, _lookup_id and _parse_arg have their names;
--     the claim, the dispatch and kfsw_command_invoke and _invoke_id are in Registry.Dispatch.
--   Schedule: src/fbo/fbo_schedule.c. The text of an entry and its hashes are in Schedule, the operator's
--     calls in Schedule.Queue, the release thread in Schedule.Sweep, the two reports in Schedule.Report.
--   Ftp: src/ftp/ftp_protocol.c, and in Ftp.Settings src/ftp/ftp_state.c.
--   Journal: src/journal/journal_store.c. The opening of an existing file is `reopen`, whose loop is `load`,
--     and kfsw_journal_store_append is `append`; the file behind its header is the list of its cells.
-- In each, the child modules are named for what they prove, and Tests runs the theorems on concrete
-- inputs.
--
-- Conventions. A function that changes static variables takes them as a record and returns the new
-- record. A number is a native ℕ, and arithmetic that wraps in C is written with its modulus. An error
-- code is its positive number, 0 is success. A pointer that the code tests for null is an Option where
-- a caller may pass null, and is otherwise given. Time is an argument. Log lines are left out.
--
-- Bounds and fuel. Loops over tables are structural recursion over the list that models the table, and
-- loops over counted entries over the count. Only `Event.visit` has fuel, because the ring changes
-- between its rounds: one round more than the ring can hold is enough. The depth of the event ring, the
-- size of the health table, the block size of the upload and the number of tickets are arbitrary within
-- the ranges of their configuration options.
--
-- Threads. A dispatch of the registry is cut where it gives up the lock of the claim: `admit` is its part
-- before, `run_handler` its part behind, in which the counters of record_outcome, which are atomic, and
-- its event are counted to the handler's call; Registry.Steps interleaves the parts. The work handler of
-- the ground watchdog is cut into functions of their own, and a release of the queue takes the calls of
-- other threads before its start and while its command runs as lists of requests. `Health.judge` and
-- `count_feed` are the two sections of an evaluation, and FwuLite's `handle_block` takes the state at
-- each of its two acquisitions of the lock. `Registry.Dispatch.dispatch`, `Health.Supervise.evaluate`,
-- `FwuLite.handle`, `Limits.sweep` and the journal's functions are the compositions in which no other
-- thread comes between the sections; a theorem on them is one on that case. Every other function that
-- takes a lock changes the state that the lock guards under one acquisition of it; the work items, the
-- atomic counters and the clock readings that it touches outside count to the same step.
--
-- Parameters. The platform's watchdog, flash and bootloader answers, the CRC (an update by two parts in
-- turn is the update by the whole), floating point numbers, strtoul and strtol, the parameter service,
-- the clocks, the command handlers and what a remote node answers are arguments.
--
-- Not modelled. The rule file's parser in src/limits/limits.c and its load; the console echo of
-- src/command/command.c; sockets and threads (the files that end in _csp.c); files and flash drivers;
-- procedures, parameters, housekeeping, the file transfer's engine, the journal's queue, the creation of
-- its file and kfsw_journal_store_get, tables, scrubber, resource monitor, remote execution, logs and
-- boot records.
pub mod Common
pub mod Event
pub mod Gndwdt
pub mod Health
pub mod Fwu
pub mod FwuLite
pub mod Limits
pub mod Command
pub mod Registry
pub mod Schedule
pub mod Ftp
pub mod Journal

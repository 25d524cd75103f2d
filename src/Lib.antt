-- ===== src/Lib.antt =====
-- A model of the core of NX Reverse: the toolbox that runs network scenarios on the console
-- (toolbox/src) and the probe that traces the network services of the system (net-probe/src).
--
-- The toolbox reads a configuration, chooses a scenario and a target profile, runs the workload and
-- reports its metrics. The probe sits between the clients and the services as a man in the middle: it
-- follows sessions, handles, clones and domain objects in four tables, and writes what passes to
-- binary and text traces.
--
-- The parts, and the files that model them:
--   Base, Base/*: tests, lists and bytes that the parts share, with `std::from_chars`, the searches of
--     `std::string_view` and the decimal text of `printf`.
--   Toolbox/Ipv4: `ParseUnsigned` and `IsValidIpv4` (toolbox/src/runtime_config.cpp) and
--     `IsIpv4Address` (toolbox/src/https_scenario_parsing.cpp). Ipv4/Quads says what a dotted quad is.
--   Toolbox/Config: the types of toolbox/src/runtime_config.hpp. Config/Parse has `Trim`, `ParseBool`
--     and `ParseProfileKey`; Config/Settings, Config/Legacy and Config/Apply have `ApplySetting` and
--     `ApplyLegacySetting`, their chain of comparisons cut into groups that are tried in order;
--     Config/Load has `LoadRuntimeConfig` with its line reader, and Config/Validate
--     `ValidateRuntimeConfig`. An out parameter is part of the result, and a message is a constructor.
--     Config/Save has the text that `SaveRuntimeConfig` prints, with what its lines are to the loader
--     in its children, and Config/Replace the calls by which the new file takes the place of the old.
--   Toolbox/Packet: the checksums, `BuildUdpPacket` and `ValidateUdpReply` of
--     toolbox/src/wgnx_packet_scenario.cpp. A span is a list of bytes.
--   Toolbox/Metrics: the class of toolbox/src/udp_workload_metrics.hpp, with additions that wrap.
--   Toolbox/Outcome: toolbox/src/bsd_system_udp_outcome.cpp.
--   Toolbox/Https: `ParseHttpsUri` and `ParseGlobalIpResponse` of
--     toolbox/src/https_scenario_parsing.cpp.
--   Probe: the entries and the state of the tracking tables of net-probe/src/mitm_trace.cpp.
--     Probe/Table has the loops that the four tables share, over any entry type, and Table/Keyed what
--     they do to a table whose entries have different keys; the clients fill its record `Key`.
--     Probe/Paths, Probe/Handles and Probe/Sessions have the functions of each table, Paths/Segments
--     counts the commands in a path, and Probe/Invariant has what all of them keep. Each call holds
--     one lock, so the calls of all threads are a list (Invariant/Run).
--   Probe/Trace: the service codes and families, the binary records and `HexEncode` of
--     net-probe/src/mitm_trace.cpp.
--   Probe/Views: the search of net-probe/src/mitm_trace.cpp for the buffers of a message.
--   Probe/Queue: a circular queue of net-probe/src/logger.cpp over any entry type; Queue/Bounded says
--     which list it holds. Probe/Logger has the functions that fill the queues, Logger/Flush the flush
--     thread and `Shutdown`, and Logger/Run any sequence of calls of the threads.
--   Probe/Mitm: net-probe/src/mitm_service.cpp with the switches of net-probe/src/build_config.hpp.
--     Mitm/Policy has `ShouldMitm*` of every target, Mitm/Sessions the accept and the end of a
--     session with the two counts of `bsd:s`, and Mitm/Servers `StartServers`, `RequestShutdown` and
--     `StopServers`, with the calls of the service manager that they make. Sessions/Counted takes
--     queries, accepts and ends in any order as steps, and Servers/Runs the calls that start and
--     stop. Servers/Held says what the service manager holds after its calls, Servers/Accounted what
--     that is in any case, and Servers/Exact what it is when it takes everything back.
--   Tests: runs on concrete inputs, and the theorems at inputs where their hypotheses hold.
--
-- Parameters: the two bounds of the wireguard-nx headers in `ValidateRuntimeConfig` (`Limits`) and
-- the size of its packets, what `fopen` gives (`FileOpen`), `POLLIN` and `POLLHUP`, the tick
-- frequency, the time of the clock at each call, the service names and client data of the Atmosphère
-- headers, what the system calls of `SaveRuntimeConfig` answer (`Answers`), the system program ids
-- (`Programs`), and what the service manager and the calls on threads answer (`ServerAnswers`, and
-- the two results in `AcceptMitmConnection`). A theorem on
-- loading assumes that the compiled defaults are valid under the two bounds, which a test shows for
-- given ones.
--
-- Fuel and bounds: `FinishChecksum` leaves its loop after two rounds on a 32-bit sum
-- (Packet/Checksum); `std::bit_width` looks at 64 bits; the binary records take one byte a round at
-- least, so that the size of the buffer is fuel enough (Trace/Chunks). The loops of the flush thread
-- take fuel, of which one more than there are entries is enough (Logger/Flush/Drained). Other loops go
-- over lists.
--
-- Not modelled: the other decoders and the text traces of the probe; the bodies of its watch
-- threads, its message helpers and file access; the scenarios that drive sockets and the tunnel
-- client; the user interface. They are calls of libraries and of the system, or wait for later work.
pub mod Base
pub mod Toolbox
pub mod Probe
pub mod Tests

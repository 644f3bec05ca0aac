-- ===== src/Lib.antt =====
-- ipvshttpd: a daemon that takes the number of available kernels of a server over HTTP and sets the weight
-- of that server in the Linux IPVS table. This library models its functions and states what they do.
--
-- The parts, and how they interact. `main` of src/ipvshttpd.cpp parses the command line, opens the
-- configuration, starts the log, forks, and runs the `http_server`. The server hands each connection to a
-- `connection_handler`, which reads the body and calls `handle_post_request`; that checks the request
-- against the configuration and calls `ipvs_interface::set_weight` under a mutex, which parses both
-- addresses and calls libipvs. src/rate_test.cpp calls `set_weight` once from the command line.
--
--   StringTools    src/string_tools.cpp: one function per function, by its name; `str_from_number` is
--                  str_from_int and str_from_size. The loop of `str_split` is split_loop, on fuel: a round
--                  takes at least one byte off the text if the delimiter is not empty, and there are
--                  fewer rounds than a positive limit allows parts, so that their sum and one is
--                  enough wherever the loop of the source ends (split_total).
--   Logging        src/logging.cpp, src/logging.h: the two globals and all lines written are the state.
--   Configuration  src/configuration.cpp, src/configuration.h: `open` is open_config, its loop read_lines,
--                  one round line_effect, the ladder of keys set_key.
--   NetTools       src/net_tools.cpp: host_to_addr and addr_to_host.
--   FileTools      src/file_tools.cpp.
--   Libipvs        the structures of depend/libipvs/ip_vs.h that the program fills, and Net, the parameter
--                  for the resolver and libipvs.
--   IpvsInterface  src/ipvs_interface.cpp: `m_parse_service` is parse_service, whose result holds the
--                  service and the buffer, since the source writes to both; its steps are open_bracket,
--                  parse_opened, cut_port, parse_ipv4 and parse_port. `set_weight` has the steps with_vip,
--                  with_server, make_dest and update_checked. Parsing has the former, Object the constructor,
--                  `init` and the destructor.
--   HttpServer     src/http_server.cpp: Connection has the reading of the body, with the count in 64 bits;
--                  Post has `handle_post_request` on a world with both mutexes; Exchange puts the two
--                  together; Threads cuts the handler at each lock operation and at each access to what
--                  the handlers share, and lets any number of handlers take their steps in any order;
--                  Server has `start`, with the IPVS mutex, and `stop`, and what they do to the server of
--                  cpp-netlib, as events: `prepare` is `start` up to `run()`, and `run` the rest; Served has
--                  the handlers behind it.
--   Daemon         src/ipvshttpd.cpp: Options has the command line, Run the rest of `main`, Shutdown the
--                  destructors that run behind it; Precedence has who decides the log, and Launch a whole run.
--   RateTest       src/rate_test.cpp.
--   Libc           what the source uses of the C and C++ libraries, in the "C" locale with a `long` of
--                  64 bits and an `int` of 32. Decimal output is on fuel, one more than the number.
--   Prelude        shared names, tests on numbers, integers, lists with a length, bytes.
--   Tests          runs on concrete inputs, and the theorems applied there.
--
-- A text is a list of bytes. The JSON library (record Json), the resolver and libipvs (record Net), and the
-- answers of the operating system and of cpp-netlib (records InitAnswers, Host, Netlib) are parameters;
-- nothing is assumed of them but what a theorem names.
--
-- In Threads a step is one lock or unlock, one log message, one response, one look at what only the
-- handler sees, or one call of `set_weight` with what that logs, which only a handler that holds the
-- IPVS mutex makes. The configuration is a value that no step changes, since it is read once, before
-- the server starts. The log is shared without a mutex in the source as well; a message is taken to be
-- written as a whole. A handler takes at most twelve steps (Threads/Termination), so that the twelve
-- rounds of `drive` are enough. What cpp-netlib does with an exception that leaves a handler is not in
-- the repository: here it ends that handler alone, and where it ends the process instead, the later
-- states do not come about.
--
-- Not modelled: libipvs itself, a copy of another project's library; the TLS, thread pool and sockets of
-- cpp-netlib, which are outside the repository, so that the number of handlers at a time has no bound here;
-- `addr_to_anyname`, which does not compile; and src/health_check.h, which is empty.
pub mod Prelude
pub mod Libc
pub mod StringTools
pub mod Logging
pub mod Configuration
pub mod Libipvs
pub mod NetTools
pub mod IpvsInterface
pub mod HttpServer
pub mod Daemon
pub mod FileTools
pub mod RateTest
pub mod Tests

-- ===== src/Daemon.antt =====
-- src/ipvshttpd.cpp: the command line, the configured logging, and the run of the daemon.
pub mod Options
pub mod Run
pub mod Choices
pub mod Arguments
pub mod Ends
pub mod Sinks
pub mod Precedence
pub mod Shutdown
pub mod Launch

-- ===== src/Conffile.antt =====
-- conffile.c: the configuration.
pub mod Param
pub mod File
pub mod Check
pub mod Reload
pub mod RoundTrip
pub mod Rounds
pub mod Complete
pub mod Accept

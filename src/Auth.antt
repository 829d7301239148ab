-- ===== src/Auth.antt =====
-- auth.c: the authentication database, a table of hosts with the time of their last login.
pub mod Table
pub mod Text
pub mod Invariant
pub mod Add
pub mod Clean
pub mod Publish
pub mod Relay
pub mod Handlers
pub mod Interrupted
pub mod Database

-- ===== src/Apconf.antt =====
-- apconf.c: the scanner and the parser of the server definitions.
pub mod Regex
pub mod Scan
pub mod Parse
pub mod Read
pub mod Quiet
pub mod Rounds
pub mod Sections
pub mod Greedy
pub mod Printed
pub mod Tokens
pub mod Written
pub mod Stanza
pub mod RoundTrip
pub mod Overflow

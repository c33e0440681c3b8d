-- ===== src/Parser.antt =====
-- The parser of src/lib/xdp2/parser.c.
pub mod Codes
pub mod Types
pub mod Run
pub mod Lookup
pub mod Tlvs
pub mod FlagFields
pub mod Array
pub mod Ctl
pub mod Next
pub mod Loop
pub mod Fast
mod Tests

-- ===== src/Util.antt =====
-- The utility library (libs/psp/util).
pub mod Log
pub mod Umd
pub mod Exit
pub mod System

-- ===== src/Registers.antt =====
-- The registers of zones: src/zone_register.c, src/fwd_register.c, and the red-black tree of the
-- DNS library that both keep.
pub mod Rbt
pub mod Forwards
pub mod Zones
pub mod Trees
mod Tests

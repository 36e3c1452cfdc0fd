-- ===== src/Hbbft.antt =====
-- The asynchronous common subset protocol (sbc/hbbft): its configuration and its parts.
pub mod Config
pub mod Queue
pub mod Bba
pub mod Rbc
pub mod Acs
pub mod Slot

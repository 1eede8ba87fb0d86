-- ===== src/Bridge.antt =====
-- The bridge service, bridge/: the events it keeps, and its ledger.
pub mod Event
pub mod Ledger
pub mod Minting

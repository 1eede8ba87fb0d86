-- ===== src/Transaction.antt =====
-- obsidion/transaction.py: the structures, their bytes, the rules that need no chain, and signing.
pub mod Model
pub mod Varint
pub mod Codec
pub mod RoundTrip
pub mod Parsing
pub mod Signing

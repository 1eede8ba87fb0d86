-- ===== src/Block.antt =====
-- obsidion/block.py: the compact form of targets, headers and blocks.
pub mod Compact
pub mod Model
pub mod RoundTrip

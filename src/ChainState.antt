-- ===== src/ChainState.antt =====
-- obsidion/chainstate.py
pub mod Genesis
pub mod Undo
pub mod Connect
pub mod Restore
pub mod Reorg
pub mod Index
pub mod Left
pub mod Accept

-- ===== src/Consensus.antt =====
-- obsidion/consensus.py: the rules, as functions of their arguments.
pub mod Emission
pub mod Difficulty
pub mod Rules

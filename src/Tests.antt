-- ===== src/Tests.antt =====
-- Concrete runs of the program, each an instance of a theorem.
mod Fixtures
mod Money
mod Rules
mod Spending
mod Parsing
mod Trees
mod Bridge
mod Chain
mod Minting
mod Pool
mod Choosing
mod Walks
mod Mining

-- ===== src/Examples.antt =====
-- Worked examples: a market with two players, run through the operations, and the theorems at these
-- concrete databases. It models no code of its own.
pub mod World
pub mod Host
mod Witnesses
mod Codecs
mod Forms

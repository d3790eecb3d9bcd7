-- ===== src/Tests.antt =====
-- Runs of the operations at concrete inputs, and the theorems at inputs that meet their hypotheses:
-- two parties, words and triples with shares that are not all 0.
mod Alignment
mod Auth
mod Bitonic
mod Fixtures
mod Gate
mod Mac
mod Mpc
mod Pipeline
mod Sector
mod Sort
mod Join
mod Shuffle
mod Rank

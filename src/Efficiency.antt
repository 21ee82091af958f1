-- ===== src/Efficiency.antt =====
-- services/efficiency: the index of acquisition sources and the ranking of what a player misses.
pub mod Index
pub mod Milestone
pub mod Scoring

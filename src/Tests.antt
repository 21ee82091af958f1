-- ===== src/Tests.antt =====
-- The theorems applied to concrete data, one example for each theorem that has hypotheses or arguments.
mod Caches
mod Fences
mod Ranking
mod Targets
mod Wishes
mod Tokens
mod Accounts
mod Auth
mod Advice
mod Forest

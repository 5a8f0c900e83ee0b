-- ===== src/Runs.antt =====
-- The theorems at concrete inputs: amounts, requests, accounts and adapters.
mod Data
mod Math
mod Instructions
mod States
mod Vaults
mod Quotes
mod Pools
mod Lives

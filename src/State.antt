-- ===== src/State.antt =====
-- src/state/: the parsers of account data.
pub mod Reader
pub mod PoolState
pub mod EpochState
pub mod TokenAccount
pub mod MintState

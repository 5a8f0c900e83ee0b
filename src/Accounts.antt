-- ===== src/Accounts.antt =====
-- src/accounts/: the account lists of the Tax and the Conversion Vault instructions.
pub mod HookAccounts
pub mod Alignment
pub mod SolPoolAccounts
pub mod SplPoolAccounts
pub mod VaultAccounts

-- ===== src/Lib.antt =====
-- A model of the Dr Fraudsworth adapter for the Jupiter aggregator: a Rust crate with two
-- implementations of Jupiter's `Amm` trait. `SolPoolAmm` quotes and builds swaps on the taxed
-- constant-product pools of a faction token (CRIME or FRAUD) against WSOL or another quote mint;
-- `VaultAmm` does so for the fixed-rate conversions between the faction tokens and PROFIT. An
-- aggregator constructs an adapter from an account, refreshes it from a map of accounts, asks it
-- for quotes, and has it list the accounts of the swap's instruction.
--
-- The files and the code they model, paths from the repository's root:
-- - Math.AmmMath, Math.TaxMath, Math.VaultMath: src/math/amm_math.rs, tax_math.rs, vault_math.rs,
--   function by function. The u128 products of the source are checked products at width 128, the
--   u64 results are checked conversions.
-- - State.PoolState, State.EpochState, State.TokenAccount, State.MintState: the parsers of
--   src/state. `from_bytes` reads a list of bytes; `Layout` is the table of the source's comments
--   as a record of equations; State.Reader has the slices and the single bytes, which are refused
--   out of range.
-- - Addresses, Constants, Pubkey: src/accounts/addresses.rs and src/constants.rs. A Pubkey is the
--   number of its 32 bytes, the first the most significant, so that the order of the bytes is the
--   order of the numbers. Addresses.Texts decodes the base58 texts of the source to these numbers.
-- - Accounts: the account lists of src/accounts, one function per builder, the named accounts of
--   each as a list of their own.
-- - Instruction: src/instruction.rs, the choice of the entrypoint and the encoders.
-- - SolPoolAmm: src/sol_pool_amm.rs. The struct is a record; `from_keyed_account` is the guard on
--   the owner, the parser and `admit`; SolPoolAmm.Refresh has `update` in the steps of the method,
--   each returning the adapter it leaves together with its result, since a method that fails has
--   written to `self` before; SolPoolAmm.Quoting has `quote` with the buy and the sale;
--   SolPoolAmm.Swapping the account lists, SolPoolAmm.Traits the constant answers.
--   SolPoolAmm.Lifecycle has its life with an aggregator.
-- - VaultAmm: src/vault_amm.rs in the same way, with the discovery functions, the parameters of a
--   keyed account (VaultAmm.Requests) and the life with an aggregator (VaultAmm.Lifecycle). Where
--   the source panics, on an `expect` or in `vault_token_account`, the answer is `none`.
-- - Jupiter.Life: an adapter with its aggregator. A step is a tick of the clock, a refresh that
--   succeeds or one that fails, and a life is a run of steps from a construction; the adapters of
--   both files are lived by it, each with its `update`.
-- - Prelude, Words, Solana, Jupiter: the shared words. `Result` is anyhow's, with an error for
--   each place that raises one in place of its message; machine integers are native numbers with
--   their bounds, checked operations written out.
-- - QuoteExample: examples/quote_example.rs, the program as a function into what it prints.
-- - The modules named Tests, below the component that they test: the unit tests of each file, one
--   proposition for each test, with its assertions. A key that a test makes up is any key, or one
--   of the keys `new_unique` where the test builds the bytes of an account from it.
-- - SolPoolAmm.Discovery, VaultAmm.MintPairs: tests/pool_discovery_properties.rs and
--   tests/vault_mint_pair.rs, the accounts that they build and what they assert.
-- - SolPoolAmm.Quoting.Reference: the reference quotes of tests/test_quoting_extended.rs.
-- - Runs: the theorems at concrete inputs.
--
-- Parameters stand for what other crates compute: the address derivations (`Derivation`), the
-- unpacking of mints (`MintLibrary`), the decimals of the fee percentage (`Decimals`), SHA-256,
-- and the parser of a Pubkey's text. The shared clock is an atomic of the aggregator: the slot
-- that it shows at a call is an argument of the calls that read it, `is_active` and `quote` of
-- SolPoolAmm; `update` does not read it, where README.md says that it does.
--
-- All recursion is structural on lists, so no fuel is needed. Not modelled: `clone_amm`, since
-- values are copied; the texts of the error messages; the three unit tests that compute SHA-256;
-- the timings and the floating-point samples of tests/test_quoting_extended.rs; and the other
-- integration tests in tests/, which run the crate at fixed adapters, on fixtures of account data
-- and in a simulator.
pub mod Prelude
pub mod Words
pub mod Pubkey
pub mod Addresses
pub mod Constants
pub mod State
pub mod Solana
pub mod Accounts
pub mod Jupiter
pub mod SolPoolAmm
pub mod VaultAmm
pub mod QuoteExample
pub mod Runs
pub mod Math
pub mod Instruction

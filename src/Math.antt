-- ===== src/Math.antt =====
-- src/math/: the pure swap, tax and vault arithmetic.
pub mod AmmMath
pub mod TaxMath
pub mod VaultMath

-- ===== src/Chains.antt =====
-- The chains under chains/: what makes Bitcoin's and Litecoin's addresses, blocks and inputs.
pub mod Codec
pub mod Btc
pub mod Ltc

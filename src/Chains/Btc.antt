-- ===== src/Chains/Btc.antt =====
-- chains/btc/src: the codec of addresses and what turns blocks of the node into those of the model.
pub mod Codec
pub mod RoundTrip
pub mod Provider
pub mod Addresses
pub mod Blocks
pub mod Pointers
mod Tests

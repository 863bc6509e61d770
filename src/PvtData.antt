-- ===== src/PvtData.antt =====
-- pkg/pvtdatastorage/common and pkg/common/version: the keys of the private data store.
pub mod Varint
pub mod VarintLaws
pub mod VarintOrder
pub mod Version
pub mod Keys
pub mod KeyLaws
pub mod Expiry
pub mod Assembler
pub mod ByBlock
pub mod Derived
pub mod Complete
mod Tests
mod BlockTests

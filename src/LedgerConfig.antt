-- ===== src/LedgerConfig.antt =====
-- pkg/config/ledgerconfig: the configuration that is kept in the ledger of a channel.
pub mod Config
pub mod Criteria
pub mod KeyValueMap
pub mod Valid
pub mod Keys
pub mod Manager
pub mod Service
pub mod Saved
pub mod Coherent
pub mod Memory
mod Tests

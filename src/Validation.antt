-- ===== src/Validation.antt =====
-- pkg/validation and pkg/common/txflags: distributed validation of the transactions of a block.
pub mod TxFlags
pub mod TxResults
pub mod Selector
pub mod ResultsCache
pub mod Evaluator
pub mod Validator
mod Tests
mod SelectorTests
mod ValidatorTests

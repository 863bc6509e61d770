-- ===== src/BlockVisitor.antt =====
-- pkg/common/blockvisitor: a visitor that walks over a block and publishes what it finds to
-- handlers.
pub mod Data
pub mod Action
pub mod Publish
pub mod Visit
pub mod Items
pub mod Performs
pub mod Refinement
pub mod Height
pub mod Client
pub mod Sample
mod Tests

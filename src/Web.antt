-- ===== src/Web.antt =====
-- Package `web` (internal/web): the handlers' own state.
pub mod PreviewStore
pub mod CostumeItems
mod Tests

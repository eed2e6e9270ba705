-- ===== src/Catalog.antt =====
-- The pure rules of the catalogue (packages/shared/src/catalog-rules.ts).
pub mod Gs1
pub mod Km

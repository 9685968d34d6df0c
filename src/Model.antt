-- ===== src/Model.antt =====
-- go-relay/internal/model: scopes and cross-world permissions, kept as comma-separated text.
pub mod Csv
pub mod CsvLaws
pub mod CsvItems
pub mod Scopes
pub mod Catalogue
pub mod CatalogueLaws
mod Tests

-- ===== src/MigrationTool.antt =====
-- The migration tool of migrations/migrate.go, a program of its own. Its statements are those of the
-- migrator, on the table `migrations`.
pub mod Scripts
pub mod Runs
pub mod Prefix
mod Tests

-- ===== src/Database.antt =====
-- The statements of database/oauth.go and database/store.go that do more than one query, or more than a query. MySQL is a
-- parameter.
pub mod Cleanup
pub mod Labels

-- ===== src/Options.antt =====
-- The Canada Post label options: service/label_options.go and service/canada_post_options.go.
pub mod Values
pub mod Rules
pub mod Build
pub mod Dedupe
pub mod Permitted
pub mod Check
pub mod Accepted
pub mod Unordered
pub mod Merge

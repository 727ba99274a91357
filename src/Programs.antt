-- ===== src/Programs.antt =====
-- The two programs that the repository builds on its libraries.
pub mod Assets
pub mod Hello

-- ===== src/Examples.antt =====
-- The programs under examples/ that are put together from the wrappers.
pub mod ServerDispatcher

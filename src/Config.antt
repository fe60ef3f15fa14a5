-- ===== src/Config.antt =====
-- config/: the shuffler of randomness.go, and the anytrust groups that anytrustGroup.go draws with it.
pub mod Shuffler
pub mod Groups
